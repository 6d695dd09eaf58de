-- ===== src/Examples/Canvases.antt =====
-- A canvas of a Target node that feeds a probe, and a second probe that nothing feeds.
use exact_surface.Scope.Address.{
  parse_networks, in_network, is_multicast, is_link_local, is_loopback,
}
use exact_surface.Prelude.{
  get, ◌≤◌, String, ◌≡◌, refl, ap, contains, if◌then◌else◌, Bool, true, false, some, List, [], ◌∷◌,
  All, arith, In, here, there, keys, Dict, ◌⊎◌, ◌==◌, string_eq,
}
use exact_surface.Scope.Host.{Text, owns_host, normal, on_exclusion_list}
use exact_surface.Scope.Engine.{evaluate, http_probe, http_layer_actions, private, classify_ip}
use exact_surface.Playground.Order.{stuck_node, Edge}
use exact_surface.Playground.Counting.{times, times-once}
use exact_surface.Playground.{
  finite, unreadable, hosts, source, pipeline, NodePort, NodeSpec, Node, Graph, check_order,
  graph_error, loops, validate,
}
use exact_surface.Playground.Acyclic.{Sorted, check_order-Sorted}
use exact_surface.Playground.Ready.{IsRunnable, validate-IsRunnable}
use exact_surface.Scope.Host.{lower}
use exact_surface.Playground.Targets.{parse_hosts}
use exact_surface.Playground.Targets.Plain.{join_lines, IsPlain, parse_hosts-join_lines}
use exact_surface.Playground.Run.{
  Values, Task, Result, produced, timed_out, run_workflow, freeform_scope, State, gives, scans,
  running, scans_freeform, success, failed, crashed, timeout_error,
}
use exact_surface.Playground.Run.Total.{Ends, run_workflow-Ends}
use exact_surface.Playground.Run.Waived.{IsDrawn, run_workflow-IsDrawn}
use exact_surface.Playground.Run.Freeform.{freeform_scope-IsNarrow}
use exact_surface.Examples.Hosts.{engine, program, www}

abbrev target : Node
target = record {
  type = "source:target";
  params = ("hosts", true) ∷ [];
  timeout = finite;
  hosts = b'a' ∷ b'.' ∷ b'b' ∷ [];
}

abbrev probe : Node
probe = record { type = "pipeline:probe"; params = []; timeout = finite; hosts = [] }

abbrev port : String → NodePort
port name = record { name = name; type = hosts; required = false }

abbrev specs : Dict String NodeSpec
specs =
    (
      "source:target",
      record {
        tier = source;
        inputs = [];
        outputs = port "hosts" ∷ [];
        params = [];
        pipeline_name = "";
        impl = "";
      },
    )
    ∷ (
      "pipeline:probe",
      record {
        tier = pipeline;
        inputs = port "targets" ∷ [];
        outputs = port "hosts" ∷ [];
        params = [];
        pipeline_name = "probe";
        impl = "";
      },
    )
    ∷ []

abbrev drawing : Graph
drawing = record {
  nodes = ("b", probe) ∷ ("c", probe) ∷ ("a", target) ∷ [];
  edges = record { src = "a"; src_port = "hosts"; dst = "b"; dst_port = "targets" } ∷ [];
}

drawn_once : (x : String) → times x (keys drawing.nodes) ≤ 1
unfolding times
drawn_once =
    times-once "b" ("c" ∷ "a" ∷ []) refl
      (times-once "c" ("a" ∷ []) refl (times-once "a" [] refl (λ x. omega arith)))

drawn_ends :
    (e : Edge) → In e drawing.edges → In e.src (keys drawing.nodes) × In e.dst (keys drawing.nodes)
drawn_ends e (here q) = (there (there (here (ap (λ z. z.src) q))), here (ap (λ z. z.dst) q))
drawn_ends e (there m) = elim m [ ]

check_order-Sorted_example : Sorted (keys drawing.nodes) drawing.edges (check_order drawing)
check_order-Sorted_example = check_order-Sorted drawing drawn_once drawn_ends

validate-IsRunnable_example : IsRunnable specs drawing ("a" ∷ "b" ∷ "c" ∷ [])
unfolding validate get stuck_node
validate-IsRunnable_example =
    validate-IsRunnable specs drawing ("a" ∷ "b" ∷ "c" ∷ []) drawn_once refl

-- Two nodes that feed each other, and one behind them, of the smallest name: the error names that one.
abbrev wire_between : String → String → Edge
wire_between a b = record { src = a; src_port = "hosts"; dst = b; dst_port = "targets" }

abbrev knot : Graph
knot = record {
  nodes = ("a", probe) ∷ ("b", probe) ∷ ("c", probe) ∷ [];
  edges = wire_between "b" "c" ∷ wire_between "c" "b" ∷ wire_between "c" "a" ∷ [];
}

knot_fault : check_order knot ≡ graph_error loops "a"
unfolding check_order stuck_node
knot_fault = refl

-- The address 0.0.0.0 is taken as a name.
abbrev zero_address : Text
zero_address = b'0' ∷ b'.' ∷ b'0' ∷ b'.' ∷ b'0' ∷ b'.' ∷ b'0' ∷ []

zero_address-IsPlain : IsPlain zero_address
zero_address-IsPlain = record { ordinary = refl; dotted = refl; starts = refl; stops = refl }

parse_hosts-join_lines_example :
    parse_hosts lower (join_lines (zero_address ∷ [])) ≡ zero_address ∷ []
unfolding contains
parse_hosts-join_lines_example =
    parse_hosts-join_lines lower (λ s h. refl) (zero_address ∷ []) (zero_address-IsPlain, tt)
      (refl, tt)

-- Nothing, or a list of hosts.
abbrev values : Values (List Text)
values = record { nothing = []; hosts_of = λ v. v; of_hosts = λ v. v; str_lower = lower }

abbrev perform : String → Task (List Text) → Result (List Text)
perform id t =
    if id == "c" then timed_out else produced (("hosts", (b'w' ∷ b'.' ∷ b'b' ∷ []) ∷ []) ∷ [])

abbrev all_routes : String → Bool
all_routes name = true

run_workflow-Ends_example :
    Ends values all_routes
      (some program)
      drawing
      specs
      perform
      false
      (run_workflow values all_routes (some program) drawing specs perform false)
run_workflow-Ends_example =
    run_workflow-Ends values all_routes (some program) drawing specs perform false drawn_once

abbrev names : List Text
names = (b'a' ∷ b'.' ∷ b'b' ∷ []) ∷ []

abbrev finished_state : State (List Text)
finished_state = record {
  outputs =
      ("a", ("hosts", (b'a' ∷ b'.' ∷ b'b' ∷ []) ∷ []) ∷ [])
      ∷ ("b", ("hosts", (b'w' ∷ b'.' ∷ b'b' ∷ []) ∷ []) ∷ [])
      ∷ [];
  report = ("a", success) ∷ ("b", success) ∷ ("c", failed) ∷ [];
  passed_over = "c" ∷ [];
  events =
      ("c", failed)
      ∷ ("c", running)
      ∷ ("b", success)
      ∷ ("b", running)
      ∷ ("a", success)
      ∷ ("a", running)
      ∷ [];
  started =
      ("c", scans "probe" [])
      ∷ ("b", scans_freeform "probe" (freeform_scope names program) names)
      ∷ ("a", gives (("hosts", names) ∷ []))
      ∷ [];
}

run_workflow-IsDrawn_example :
    IsDrawn values all_routes
      (some program)
      drawing
      specs
      perform
      true
      "b"
      (freeform_scope names program)
unfolding run_workflow stuck_node lower
run_workflow-IsDrawn_example =
    run_workflow-IsDrawn values all_routes (some program) drawing specs perform true
      ("a" ∷ "b" ∷ "c" ∷ []) finished_state true "b" "probe" (freeform_scope names program) names
      refl (there (here refl))

-- A Target node whose timeout is no number.
abbrev mistyped : Graph
mistyped = record { nodes = ("a", record target { timeout = unreadable }) ∷ []; edges = [] }

run_workflow_test :
    run_workflow values all_routes (some program) mistyped specs perform true
    ≡ crashed timeout_error
unfolding run_workflow stuck_node lower
run_workflow_test = refl

freeform_scope-IsNarrow_example :
    (owns_host names (normal www) ≡ true)
    × (on_exclusion_list program.excluded_hosts (normal www) ≡ false)
    × ((http_layer_actions http_probe ≡ true)
        ⊎ ((engine.allow_private ≡ true)
            × All (λ i. classify_ip engine i ≡ private) ("198.51.100.7" ∷ [])))
unfolding evaluate owns_host freeform_scope on_exclusion_list is_loopback is_link_local is_multicast
    in_network parse_networks
freeform_scope-IsNarrow_example =
    freeform_scope-IsNarrow engine names program www "198.51.100.7" [] http_probe refl
