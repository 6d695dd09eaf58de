-- ===== src/Playground/Run.antt =====
-- pipelines/playground.py: `run_workflow` over the nodes of a canvas. What a node hands on is a value of any
-- type that `Values` reads; what the called code does with a node's task is the argument `perform`,
-- and the routes and the stored program are arguments.
pub mod Wired
pub mod Follows
pub mod Ends
pub mod Rounds
pub mod Visits
pub mod Total
pub mod Freeform
pub mod Waived
use exact_surface.Prelude.{
  ℕ, String, Bool, true, false, not, ◌&&◌, ◌||◌, Option, none, some, List, [], ◌∷◌, ◌++◌, any, keep,
  map, length, ltb, if◌then◌else◌, ◌==◌, Dict, get, put, keys, contains, insert, string_eq,
}
use exact_surface.Scope.Host.{Text}
use exact_surface.Scope.Engine.{ProgramScope}
use exact_surface.Scope.Confirm.{Program as ScopeFields}
use exact_surface.Playground.Order.{Edge}
use exact_surface.Playground.Targets.{parse_hosts, unique}
use exact_surface.Playground.{
  Tier, pipeline, utility, source, output, NodePort, NodeSpec, Timeout, finite, endless, unreadable,
  Node, Graph, Fault, Checked, ok, graph_error, validate,
}

-- MAX_FREEFORM_HOSTS
abbrev pub max_freeform_hosts : ℕ
max_freeform_hosts = 50

-- What is wired into each node: node -> {input port: (source node, source port)}.
abbrev pub Wires : Type 0
Wires = Dict String (Dict String (String × String))

-- d.get(k, {})
abbrev pub get_or_empty : {V : Type 0} → String → Dict String (Dict String V) → Dict String V
get_or_empty k d = elim (get k d) [ none ↦ [] | some v ↦ v ]

-- The loop of `_incoming`; `none` is the KeyError.
unfoldable pub wire : List Edge → Wires → Option Wires
unfolding put get
wire [] wired = some wired
wire (e ∷ es) wired = elim (get e.dst wired) [
  | none ↦ none
  | some ports ↦ wire es (put e.dst (put e.dst_port (e.src, e.src_port) ports) wired)
]

unfoldable pub incoming_of : Graph → Option Wires
unfolding wire
incoming_of g = wire g.edges (map (λ n. (n, [])) (keys g.nodes))

unfoldable pub freeform_scope : List Text → ScopeFields → ProgramScope
freeform_scope hosts p = record {
  verified_apexes = hosts;
  excluded_hosts = p.excluded_hosts;
  excluded_cidrs = p.excluded_cidrs;
  authorized_dedicated_cidrs = [];
  scan_shared_infra = false;
  scope_override = false;
}

-- What the canvas reads of a value: None, and a list of hosts where one is expected; and `str.lower`.
pub record Values (V : Type 0) : Type 0 where
  pub nothing : V
  pub hosts_of : V → List Text
  pub of_hosts : List Text → V
  pub str_lower : Text → Text

-- What `_run_node` does for a node: it has the result, it raises PlaygroundDenied or
-- AuthorizationRequired, or it calls a utility, `run_pipeline`, or a route under an ephemeral scope.
pub data Task (V : Type 0) : Type 0 where
  gives : Dict String V → Task V
  denied : Task V
  calls : (impl : String) (inputs : Dict String V) → Task V
  scans : (pipeline : String) (targets : List Text) → Task V
  scans_freeform : (pipeline : String) (scope : ProgramScope) (targets : List Text) → Task V

-- How the call of a task ends.
pub data Result (V : Type 0) : Type 0 where
  produced : Dict String V → Result V
  timed_out refused raised : Result V

pub data Status : Type 0 where
  running success failed skipped : Status

-- The local variables of `run_workflow`, and the tasks that were started, latest first.
pub record State (V : Type 0) : Type 0 where
  pub outputs : Dict String (Dict String V)
  pub report : Dict String Status
  pub passed_over : List String
  pub events : List (String × Status)
  pub started : List (String × Task V)

-- d.get("type") == "source:target"
abbrev pub is_target : Node → Bool
is_target node = node.type == "source:target"

abbrev pub is_target_node : Option Node → Bool
is_target_node none = false
is_target_node (some node) = is_target node

-- targets or hosts
abbrev pub or_hosts : List Text → List Text → List Text
or_hosts [] hosts = hosts
or_hosts (t ∷ ts) hosts = t ∷ ts

-- What escapes from a call: a KeyError, or the error that a node's timeout raises.
pub data Crash : Type 0 where
  key_error timeout_error : Crash

-- A round of the loop goes on, or an exception leaves the call.
pub data Round (V : Type 0) : Type 0 where
  goes_on : State V → Round V
  escapes : Crash → Round V

-- How the call of `run_workflow` ends: with the fault that `validate` found, with PlaygroundDenied, with
-- an exception that escapes, or with the report.
pub data Answer (V : Type 0) : Type 0 where
  invalid : Fault → String → Answer V
  owner_only : Answer V
  crashed : Crash → Answer V
  finished : (order : List String) → State V → (freeform : Bool) → Answer V

abbrev pub emit : {V : Type 0} → String → Status → State V → State V
emit id status s = record s { report = put id status s.report; events = (id, status) ∷ s.events }

-- skipped.add(node_id), and the report
abbrev pub drop_node : {V : Type 0} → String → Status → State V → State V
drop_node id status s = emit id status (record s { passed_over = insert id s.passed_over })

abbrev pub conclude : {V : Type 0} → String → Result V → State V → State V
conclude id (produced made) s = emit id success (record s { outputs = put id made s.outputs })
conclude id timed_out s = drop_node id failed s
conclude id refused s = drop_node id failed s
conclude id raised s = drop_node id failed s

-- The budget around a task: float() is called outside the `try`, and the handler of TimeoutError calls
-- int() on the budget, which a number that is not finite refuses.
unfoldable pub with_budget : {V : Type 0} → Timeout → Result V → State V → Round V
with_budget unreadable r s = escapes timeout_error
with_budget finite r s = goes_on s
with_budget endless timed_out s = escapes timeout_error
with_budget endless (produced made) s = goes_on s
with_budget endless refused s = goes_on s
with_budget endless raised s = goes_on s

module _ {V : Type 0} (values : Values V) (routes : String → Bool) (program : Option ScopeFields)
    (g : Graph) where
  -- (outputs.get(src) or {}).get(src_port) or []
  abbrev pub hosts_at : Dict String (Dict String V) → String → String → List Text
  hosts_at outputs src port = elim (get port (get_or_empty src outputs)) [
    | none ↦ []
    | some v ↦ values.hosts_of v
  ]

  -- The loop of `_freeform_hosts_feeding` over wired.get(node_id, {}).
  unfoldable pub feeding : Dict String (Dict String V) → Dict String (String × String) → List Text
  feeding outputs [] = []
  feeding outputs ((port, src) ∷ rest) =
      let more = feeding outputs rest in
      if not (is_target_node (get src.0 g.nodes))
      then more
      else hosts_at outputs src.0 src.1 ++ more

  unfoldable pub freeform_hosts_feeding :
      Dict String (Dict String V) → Dict String (String × String) → List Text
  unfolding feeding unique
  freeform_hosts_feeding outputs upstream = unique [] (feeding outputs upstream)

  -- inputs.get(port), with None where it is missing
  abbrev pub input : String → Dict String V → V
  input port inputs = elim (get port inputs) [ none ↦ values.nothing | some v ↦ v ]

  -- `_run_pipeline_freeform`
  unfoldable pub run_pipeline_freeform : String → List Text → List Text → Task V
  unfolding freeform_scope
  run_pipeline_freeform name hosts targets = elim program [
    | none ↦ denied
    | some p ↦
        if not (routes name)
        then denied
        else scans_freeform name (freeform_scope hosts p) (or_hosts targets hosts)
  ]

  abbrev pub run_source : List Text → Task V
  run_source [] = denied
  run_source (h ∷ hs) =
      if ltb max_freeform_hosts (length (h ∷ hs))
      then denied
      else gives (("hosts", values.of_hosts (h ∷ hs)) ∷ [])

  abbrev pub run_scan : String → List Text → List Text → Task V
  run_scan name [] targets = scans name targets
  run_scan name (h ∷ hs) targets = run_pipeline_freeform name (h ∷ hs) targets

  -- `_run_node` up to the call that it makes.
  unfoldable pub run_node :
      NodeSpec
      → Node
      → Dict String V
      → Dict String (String × String)
      → Dict String (Dict String V)
      → Task V
  unfolding parse_hosts freeform_hosts_feeding run_pipeline_freeform
  run_node spec node inputs upstream outputs = elim spec.tier [
    | source ↦ run_source (parse_hosts values.str_lower node.hosts)
    | output ↦ gives (("value", input "value" inputs) ∷ [])
    | utility ↦ calls spec.impl inputs
    | pipeline ↦
        run_scan spec.pipeline_name (freeform_hosts_feeding outputs upstream)
          (values.hosts_of (input "targets" inputs))
  ]

  -- {port: outputs[src].get(src_port) ...}; `none` is the KeyError.
  unfoldable pub gather :
      Dict String (Dict String V) → Dict String (String × String) → Option (Dict String V)
  gather outputs [] = some []
  gather outputs ((port, src) ∷ rest) = elim (get src.0 outputs) [
    | none ↦ none
    | some made ↦ elim (gather outputs rest) [
      | none ↦ none
      | some inputs ↦ some ((port, input src.1 made) ∷ inputs)
    ]
  ]

  module _ (specs : Dict String NodeSpec) (perform : String → Task V → Result V) where
    abbrev pub result_of : String → Task V → Result V
    result_of id (gives made) = produced made
    result_of id denied = refused
    result_of id (calls impl inputs) = perform id (calls impl inputs)
    result_of id (scans name targets) = perform id (scans name targets)
    result_of id (scans_freeform name scope targets) =
        perform id (scans_freeform name scope targets)

    -- The body of the loop behind the test of what is upstream.
    abbrev pub attempt :
        String → NodeSpec → Node → Dict String (String × String) → Dict String V → State V → Round V
    attempt id spec node upstream inputs s =
        let task = run_node spec node inputs upstream s.outputs in
        let r = result_of id task in
        with_budget node.timeout r
          (conclude id r (emit id running (record s { started = (id, task) ∷ s.started })))

    unfoldable pub visit_found :
        String → NodeSpec → Node → Dict String (String × String) → State V → Round V
    unfolding gather run_node with_budget
    visit_found id spec node upstream s =
        if any (λ p. contains p.1.0 s.passed_over) upstream
        then goes_on (drop_node id skipped s)
        else elim (gather s.outputs upstream) [
          | none ↦ escapes key_error
          | some inputs ↦ attempt id spec node upstream inputs s
        ]

    -- The body of the loop.
    unfoldable pub visit : Wires → String → State V → Round V
    unfolding visit_found
    visit wired id s = elim (get id g.nodes) [
      | none ↦ escapes key_error
      | some node ↦ elim (get node.type specs) [
        | none ↦ escapes key_error
        | some spec ↦ visit_found id spec node (get_or_empty id wired) s
      ]
    ]

    unfoldable pub visit_all : Wires → List String → State V → Round V
    unfolding visit
    visit_all wired [] s = goes_on s
    visit_all wired (id ∷ ids) s = elim (visit wired id s) [
      | escapes c ↦ escapes c
      | goes_on s' ↦ visit_all wired ids s'
    ]

    abbrev pub new_state : State V
    new_state = record { outputs = []; report = []; passed_over = []; events = []; started = [] }

    abbrev pub answer_of : List String → Bool → Round V → Answer V
    answer_of order freeform (escapes c) = crashed c
    answer_of order freeform (goes_on s) = finished order s freeform

    -- The call once the canvas is valid.
    unfoldable pub run_valid : Bool → List String → Option Wires → Answer V
    unfolding visit_all
    run_valid is_owner order none = crashed key_error
    run_valid is_owner order (some wired) =
        let freeform = any (λ p. is_target p.1) g.nodes in
        if freeform && not is_owner
        then owner_only
        else answer_of order freeform (visit_all wired order new_state)

    unfoldable pub run_workflow : Bool → Answer V
    unfolding run_valid incoming_of validate
    run_workflow is_owner = elim (validate specs g) [
      | graph_error fault id ↦ invalid fault id
      | ok order ↦ run_valid is_owner order (incoming_of g)
    ]
