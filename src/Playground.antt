-- ===== src/Playground.antt =====
-- core/playground.py: the canvas of a user, `validate` and `_toposort`. The catalogue of nodes is an
-- argument, as it is of `validate`; of a parameter's value only whether it is truthy is read, but for
-- the text of the parameter `hosts`.
pub mod Order
pub mod Counting
pub mod Waiting
pub mod Topological
pub mod Built
pub mod Ordered
pub mod Acyclic
pub mod Wiring
pub mod Ready
pub mod Targets
pub mod Run
use exact_surface.Prelude.{
  ℕ, zero, suc, String, Bool, true, false, not, ◌&&◌, ◌||◌, Option, none, some, List, [], ◌∷◌, find,
  if◌then◌else◌, ◌==◌, Dict, get, put, keys, contains, string_eq, pair_eq,
}
use exact_surface.Scope.Host.{Text}
use exact_surface.Playground.Order.{Edge, toposort, stuck_node}

-- `PortType`; `any_type` is its "any".
pub data PortType : Type 0 where
  hosts urls records text json any_type : PortType

abbrev pub type_beq : PortType → PortType → Bool
type_beq hosts hosts = true
type_beq urls urls = true
type_beq records records = true
type_beq text text = true
type_beq json json = true
type_beq any_type any_type = true
type_beq _ _ = false

pub record NodePort : Type 0 where
  pub name : String
  pub type : PortType
  pub required : Bool

pub record NodeParam : Type 0 where
  pub name : String
  pub required : Bool

pub data Tier : Type 0 where
  pipeline utility source output : Tier

pub record NodeSpec : Type 0 where
  pub tier : Tier
  pub inputs : List NodePort
  pub outputs : List NodePort
  pub params : List NodeParam
  pub pipeline_name : String
  pub impl : String

-- What float(params.get("timeout") or 0) is: a finite number, an infinite one or NaN, or an exception.
pub data Timeout : Type 0 where
  finite endless unreadable : Timeout

pub record Node : Type 0 where
  pub type : String
  pub params : Dict String Bool
  pub timeout : Timeout
  pub hosts : Text

pub record Graph : Type 0 where
  pub nodes : Dict String Node
  pub edges : List Edge

-- `GraphError`, by its message, with the node that it names; `key_error` is the exception of a dict.
pub data Fault : Type 0 where
  unknown_type unknown_node no_output no_input cannot_wire already_wired needs_input needs_param
        loops :
      Fault
  key_error : Fault

-- A result, or the exception.
pub data Checked (A : Type 0) : Type 0 where
  ok : A → Checked A
  graph_error : Fault → String → Checked A

-- The statements that follow one that may raise.
abbrev pub and_then : {A B : Type 0} → Checked A → (A → Checked B) → Checked B
and_then (graph_error fault id) f = graph_error fault id
and_then (ok a) f = f a

-- What is wired to each socket: (node, port) -> (node, port).
abbrev pub Incoming : Type 0
Incoming = Dict (String × String) (String × String)

-- next((p for p in ports if p.name == name), None)
abbrev pub port_named : String → List NodePort → Option NodePort
port_named name ports = find (λ p. p.name == name) ports

-- `out.type != inp.type and "any" not in (out.type, inp.type)`, negated
abbrev pub fits : PortType → PortType → Bool
fits a b = type_beq a b || (type_beq a any_type || type_beq b any_type)

-- `_toposort` with its error.
unfoldable pub check_order : Graph → Checked (List String)
unfolding toposort
check_order g = elim (toposort (keys g.nodes) g.edges) [
  | none ↦ graph_error key_error ""
  | some order ↦ elim (stuck_node (keys g.nodes) order) [
    | none ↦ ok order
    | some id ↦ graph_error loops id
  ]
]

-- The loops over the ports and the parameters of a node.
unfoldable pub missing_port : String → Incoming → List NodePort → Bool
missing_port id incoming [] = false
missing_port id incoming (p ∷ ps) =
    (p.required && not (contains (id, p.name) (keys incoming))) || missing_port id incoming ps

-- not (node.get("params") or {}).get(name)
abbrev pub is_falsy : Option Bool → Bool
is_falsy none = true
is_falsy (some b) = not b

unfoldable pub missing_param : Node → List NodeParam → Bool
missing_param node [] = false
missing_param node (p ∷ ps) =
    (p.required && is_falsy (get p.name node.params)) || missing_param node ps

module _ (specs : Dict String NodeSpec) where
  -- The first loop.
  unfoldable pub check_types : Dict String Node → Checked (Unit {0})
  check_types [] = ok tt
  check_types ((id, node) ∷ rest) =
      if not (contains node.type (keys specs))
      then graph_error unknown_type id
      else check_types rest

  -- specs[graph.nodes[n]["type"]]
  abbrev pub spec_of_node : Option Node → Option NodeSpec
  spec_of_node none = none
  spec_of_node (some node) = get node.type specs

  abbrev pub spec_of : Dict String Node → String → Option NodeSpec
  spec_of nodes id = spec_of_node (get id nodes)

  -- One edge between two sockets that were looked up.
  unfoldable pub check_ports :
      Edge → Incoming → Option NodePort → Option NodePort → Checked Incoming
  check_ports e incoming none inp = graph_error no_output e.src
  check_ports e incoming (some out) none = graph_error no_input e.dst
  check_ports e incoming (some out) (some inp) =
      if not (fits out.type inp.type)
      then graph_error cannot_wire e.dst
      else if contains (e.dst, e.dst_port) (keys incoming)
      then graph_error already_wired e.dst
      else ok (put (e.dst, e.dst_port) (e.src, e.src_port) incoming)

  unfoldable pub check_specs :
      Edge → Incoming → Option NodeSpec → Option NodeSpec → Checked Incoming
  unfolding check_ports
  check_specs e incoming none to = graph_error key_error e.src
  check_specs e incoming (some from) none = graph_error key_error e.dst
  check_specs e incoming (some from) (some to) =
      check_ports e incoming (port_named e.src_port from.outputs) (port_named e.dst_port to.inputs)

  -- The body of the second loop.
  unfoldable pub check_edge : Dict String Node → Edge → Incoming → Checked Incoming
  unfolding check_specs
  check_edge nodes e incoming =
      if not (contains e.src (keys nodes))
      then graph_error unknown_node e.src
      else if not (contains e.dst (keys nodes))
      then graph_error unknown_node e.dst
      else check_specs e incoming (spec_of nodes e.src) (spec_of nodes e.dst)

  unfoldable pub check_edges : Dict String Node → List Edge → Incoming → Checked Incoming
  unfolding check_edge
  check_edges nodes [] incoming = ok incoming
  check_edges nodes (e ∷ rest) incoming =
      and_then (check_edge nodes e incoming) (λ incoming'. check_edges nodes rest incoming')

  unfoldable pub check_node : String → Node → Incoming → Option NodeSpec → Checked (Unit {0})
  unfolding missing_port missing_param
  check_node id node incoming none = graph_error key_error id
  check_node id node incoming (some spec) =
      if missing_port id incoming spec.inputs
      then graph_error needs_input id
      else if missing_param node spec.params
      then graph_error needs_param id
      else ok tt

  unfoldable pub check_required : Dict String Node → Incoming → Checked (Unit {0})
  unfolding check_node
  check_required [] incoming = ok tt
  check_required ((id, node) ∷ rest) incoming =
      and_then (check_node id node incoming (get node.type specs))
        (λ u. check_required rest incoming)

  -- `validate`
  unfoldable pub validate : Graph → Checked (List String)
  unfolding check_types check_edges check_required check_order
  validate g = and_then (check_types g.nodes) (λ u.
      and_then (check_edges g.nodes g.edges [])
        (λ incoming. and_then (check_required g.nodes incoming) (λ v. check_order g)))
