-- ===== src/Playground/Ready.antt =====
-- core/playground.py `validate`: what holds of a canvas that passes.
use exact_surface.Prelude.{
  ◌≤◌, String, ◌≡◌, refl, ap, sym, ◌∙◌, subst, true, false, Option, none, some, List, [], ◌∷◌,
  arith, In, here, there, All, All-In, any, inl, inr, ◌==◌, get, keys, contains, string_eq, pair_eq,
  Bool-cases, Dict, Entries,
}
use exact_surface.Playground.Order.{Edge}
use exact_surface.Playground.Counting.{times}
use exact_surface.Playground.Acyclic.{IsPlan, Sorted, planned, looped, check_order-Sorted}
use exact_surface.Playground.{
  NodePort, NodeParam, NodeSpec, Node, Graph, Checked, ok, Incoming, check_types, check_edges,
  check_node, check_required, check_order, missing_port, missing_param, is_falsy, validate,
}
use exact_surface.Playground.Wiring.{
  socket, IsJoined, Once, check_edges-Wires, and_then_ok, ok-injective,
}

module _ (specs : Dict String NodeSpec) where
  -- The node has a type, its required inputs are wired, and its required parameters are given.
  pub record IsReady (edges : List Edge) (id : String) (node : Node) : Type 0 where
    pub spec : NodeSpec
    pub has_spec : get node.type specs ≡ some spec
    pub fed :
        (p : NodePort)
        → In p spec.inputs
        → p.required ≡ true
        → (e : Edge) × In e edges × (socket e ≡ (id, p.name))
    pub filled :
        (p : NodeParam)
        → In p spec.params
        → p.required ≡ true
        → is_falsy (get p.name node.params) ≡ false

  missing_port-none :
      (id : String) (incoming : Incoming) (ps : List NodePort) {p : NodePort}
      → missing_port id incoming ps ≡ false
      → In p ps
      → p.required ≡ true
      → contains (id, p.name) (keys incoming) ≡ true
  unfolding missing_port
  missing_port-none id incoming [] h m r = elim m [ ]
  missing_port-none id incoming (q ∷ qs) h (here e) r =
      ap (λ x. contains (id, x.name) (keys incoming)) e
      ∙ ground (arith, h, ap (λ x. x.required) e, r)
  missing_port-none id incoming (q ∷ qs) h (there m) r =
      missing_port-none id incoming qs (ground (arith, h)) m r

  missing_param-none :
      (node : Node) (ps : List NodeParam) {p : NodeParam}
      → missing_param node ps ≡ false
      → In p ps
      → p.required ≡ true
      → is_falsy (get p.name node.params) ≡ false
  unfolding missing_param
  missing_param-none node [] h m r = elim m [ ]
  missing_param-none node (q ∷ qs) h (here e) r =
      ap (λ x. is_falsy (get x.name node.params)) e ∙ ground (arith, h, ap (λ x. x.required) e, r)
  missing_param-none node (q ∷ qs) h (there m) r =
      missing_param-none node qs (ground (arith, h)) m r

  check_node-IsReady :
      (edges : List Edge) (id : String) (node : Node) (incoming : Incoming) (spec : Option NodeSpec)
      → ((k : String × String)
          → contains k (keys incoming) ≡ true
          → (e : Edge) × In e edges × (socket e ≡ k))
      → get node.type specs ≡ spec
      → check_node specs id node incoming spec ≡ ok tt
      → IsReady edges id node
  unfolding check_node
  check_node-IsReady edges id node incoming none w g h = cc
  check_node-IsReady edges id node incoming (some spec) w g h =
      elim (Bool-cases (missing_port id incoming spec.inputs)) [
        | inl t ↦ let q = rw t at h in cc
        | inr f ↦ elim (Bool-cases (missing_param node spec.params)) [
          | inl t ↦ let q = rw (f, t) at h in cc
          | inr k ↦ record {
            spec = spec;
            has_spec = g;
            fed = λ p m r. w (id, p.name) (missing_port-none id incoming spec.inputs f m r);
            filled = λ p m r. missing_param-none node spec.params k m r;
          }
        ]
      ]

  check_required-IsReady :
      (edges : List Edge) (nodes : Dict String Node) (incoming : Incoming)
      → ((k : String × String)
          → contains k (keys incoming) ≡ true
          → (e : Edge) × In e edges × (socket e ≡ k))
      → check_required specs nodes incoming ≡ ok tt
      → Entries (IsReady edges) nodes
  unfolding check_required
  check_required-IsReady edges [] incoming w h = tt
  check_required-IsReady edges ((id, node) ∷ rest) incoming w h =
      let (u, p, q) =
        and_then_ok (check_node specs id node incoming (get node.type specs))
          (λ v. check_required specs rest incoming) h in
      (
        check_node-IsReady edges id node incoming _ w refl p,
        check_required-IsReady edges rest incoming w q,
      )

  any-In :
      (k : String × String) (es : List Edge)
      → any (λ e. socket e == k) es ≡ true
      → (e : Edge) × In e es × (socket e ≡ k)
  any-In k [] h = cc
  any-In k (e ∷ es) h = elim (Bool-cases (socket e == k)) [
    | inl t ↦ (e, here refl, (pair_eq.beq_iff (socket e) k).0 t)
    | inr f ↦ let r = any-In k es (ground (arith, h, f)) in (r.0, there r.1, r.2)
  ]

  -- What a canvas that passes is.
  pub record IsRunnable (g : Graph) (order : List String) : Type 0 where
    pub joined : All (IsJoined specs g.nodes) g.edges
    pub once : Once g.edges
    pub ready : Entries (IsReady g.edges) g.nodes
    pub plan : IsPlan (keys g.nodes) g.edges order

  -- A canvas whose nodes have different names, and for which `validate` returns an order, can be
  -- run in it: every edge joins an output to an input of nodes that exist and their types agree,
  -- no input is wired twice, every required input is wired and every required parameter given,
  -- and the order holds each node once, behind all that it is wired to.
  pub validate-IsRunnable :
      (g : Graph) (order : List String)
      → ((x : String) → times x (keys g.nodes) ≤ 1)
      → validate specs g ≡ ok order
      → IsRunnable g order
  unfolding validate contains
  validate-IsRunnable g order single h =
      let (u, p, q) = and_then_ok (check_types specs g.nodes) _ h in
      let (incoming, r, s) = and_then_ok (check_edges specs g.nodes g.edges []) _ q in
      let (v, t, o) = and_then_ok (check_required specs g.nodes incoming) _ s in
      let w = check_edges-Wires specs g.nodes g.edges [] incoming r in
      let ends : (e : Edge) → In e g.edges → In e.src (keys g.nodes) × In e.dst (keys g.nodes) =
        (λ e m. let j = All-In _ g.edges w.joined m in (j.from_node, j.to_node)) in
      record {
        joined = w.joined;
        once = w.once;
        ready =
            check_required-IsReady g.edges g.nodes incoming
              (λ k c. any-In k g.edges (ground (arith, w.sockets k, c))) t;
        plan = ordered (check_order g) (check_order-Sorted g single ends) o;
      }
    where
      ordered :
          (answer : Checked (List String))
          → Sorted (keys g.nodes) g.edges answer
          → answer ≡ ok order
          → IsPlan (keys g.nodes) g.edges order
      ordered answer (planned found e plan) o =
          subst (IsPlan (keys g.nodes) g.edges) (ok-injective _ _ (sym e ∙ o)) plan
      ordered answer (looped id e unranked) o = cc
