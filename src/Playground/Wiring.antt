-- ===== src/Playground/Wiring.antt =====
-- core/playground.py `validate`: what its loop over the edges has checked.
use exact_surface.Prelude.{
  String, ◌≡◌, ◌≢◌, refl, ap, sym, ◌∙◌, true, false, ◌||◌, Option, none, some, List, [], ◌∷◌, arith,
  In, All, All-In, All-of_In, any, find-In, inl, inr, ◌==◌, put, keys, contains, contains-put,
  contains→In, string_eq, pair_eq, Bool-cases, Dict,
}
use exact_surface.Playground.Order.{Edge}
use exact_surface.Playground.{
  NodePort, NodeSpec, Node, Checked, ok, graph_error, and_then, Incoming, port_named, fits, spec_of,
  check_ports, check_specs, check_edge, check_edges,
}

abbrev pub socket : Edge → String × String
socket e = (e.dst, e.dst_port)

-- No socket is wired twice.
abbrev pub Once : List Edge → Type 0
Once [] = Unit
Once (e ∷ es) = All (λ x. socket x ≢ socket e) es × Once es

pub and_then_ok :
    {A B : Type 0} (r : Checked A) (f : A → Checked B) {b : B}
    → and_then r f ≡ ok b
    → (a : A) × (r ≡ ok a) × (f a ≡ ok b)
and_then_ok (graph_error fault id) f h = cc
and_then_ok (ok a) f h = (a, refl, h)

pub ok-injective : {A : Type 0} (a b : A) → ok a ≡ ok b → a ≡ b
ok-injective a b h = cc

module _ (specs : Dict String NodeSpec) where
  -- The edge joins an output to an input that it fits.
  pub record IsJoined (nodes : Dict String Node) (e : Edge) : Type 0 where
    pub from_node : In e.src (keys nodes)
    pub to_node : In e.dst (keys nodes)
    pub from : NodeSpec
    pub to : NodeSpec
    pub out : NodePort
    pub inp : NodePort
    pub has_from : spec_of specs nodes e.src ≡ some from
    pub has_to : spec_of specs nodes e.dst ≡ some to
    pub is_output : In out from.outputs × (out.name ≡ e.src_port)
    pub is_input : In inp to.inputs × (inp.name ≡ e.dst_port)
    pub fitting : fits out.type inp.type ≡ true

  -- What the tests on the sockets leave.
  record Fits (e : Edge) (incoming after : Incoming) (from to : Option NodePort) : Type 0 where
    pub out : NodePort
    pub inp : NodePort
    pub has_out : from ≡ some out
    pub has_inp : to ≡ some inp
    pub fitting : fits out.type inp.type ≡ true
    pub free : contains (socket e) (keys incoming) ≡ false
    pub wired : put (socket e) (e.src, e.src_port) incoming ≡ after

  check_ports-Fits :
      (e : Edge) (incoming after : Incoming) (from to : Option NodePort)
      → check_ports specs e incoming from to ≡ ok after
      → Fits e incoming after from to
  unfolding check_ports
  check_ports-Fits e incoming after none to h = cc
  check_ports-Fits e incoming after (some out) none h = cc
  check_ports-Fits e incoming after (some out) (some inp) h =
      elim (Bool-cases (fits out.type inp.type)) [
        | inr f ↦ let q = rw f at h in cc
        | inl t ↦ elim (Bool-cases (contains (socket e) (keys incoming))) [
          | inl taken ↦ let q = rw (t, taken) at h in cc
          | inr free ↦
              let q = rw (t, free) at h in
              record {
                out = out;
                inp = inp;
                has_out = refl;
                has_inp = refl;
                fitting = t;
                free = free;
                wired = cc;
              }
        ]
      ]

  check_specs-IsJoined :
      (nodes : Dict String Node) (e : Edge) (incoming after : Incoming) (from to : Option NodeSpec)
      → spec_of specs nodes e.src ≡ from
      → spec_of specs nodes e.dst ≡ to
      → In e.src (keys nodes)
      → In e.dst (keys nodes)
      → check_specs specs e incoming from to ≡ ok after
      → IsJoined nodes e
        × (contains (socket e) (keys incoming) ≡ false)
        × (put (socket e) (e.src, e.src_port) incoming ≡ after)
  unfolding check_specs
  check_specs-IsJoined nodes e incoming after none to p q i j h = cc
  check_specs-IsJoined nodes e incoming after (some from) none p q i j h = cc
  check_specs-IsJoined nodes e incoming after (some from) (some to) p q i j h =
      let r =
        check_ports-Fits e incoming after (port_named e.src_port from.outputs)
          (port_named e.dst_port to.inputs) h in
      let o = find-In (λ x. x.name == e.src_port) from.outputs r.has_out in
      let n = find-In (λ x. x.name == e.dst_port) to.inputs r.has_inp in
      (
        record {
          from_node = i;
          to_node = j;
          from = from;
          to = to;
          out = r.out;
          inp = r.inp;
          has_from = p;
          has_to = q;
          is_output = (o.0, (string_eq.beq_iff r.out.name e.src_port).0 o.1);
          is_input = (n.0, (string_eq.beq_iff r.inp.name e.dst_port).0 n.1);
          fitting = r.fitting;
        },
        r.free,
        r.wired,
      )

  check_edge-IsJoined :
      (nodes : Dict String Node) (e : Edge) (incoming after : Incoming)
      → check_edge specs nodes e incoming ≡ ok after
      → IsJoined nodes e
        × (contains (socket e) (keys incoming) ≡ false)
        × (put (socket e) (e.src, e.src_port) incoming ≡ after)
  unfolding check_edge
  check_edge-IsJoined nodes e incoming after h = elim (Bool-cases (contains e.src (keys nodes))) [
    | inr f ↦ let q = rw f at h in cc
    | inl t ↦ elim (Bool-cases (contains e.dst (keys nodes))) [
      | inr g ↦ let q = rw (t, g) at h in cc
      | inl u ↦
          check_specs-IsJoined nodes e incoming after _ _ refl refl
            (contains→In e.src (keys nodes) t) (contains→In e.dst (keys nodes) u) (rw (t, u) at h)
    ]
  ]

  pub record Wires (nodes : Dict String Node) (es : List Edge) (incoming after : Incoming)
      : Type 0 where
    pub joined : All (IsJoined nodes) es
    pub apart : All (λ e. contains (socket e) (keys incoming) ≡ false) es
    pub once : Once es
    pub sockets :
        (k : String × String)
        → contains k (keys after) ≡ (any (λ e. socket e == k) es || contains k (keys incoming))

  pub check_edges-Wires :
      (nodes : Dict String Node) (es : List Edge) (incoming after : Incoming)
      → check_edges specs nodes es incoming ≡ ok after
      → Wires nodes es incoming after
  unfolding check_edges
  check_edges-Wires nodes [] incoming after h = record {
    joined = tt;
    apart = tt;
    once = tt;
    sockets = λ k. cc;
  }
  check_edges-Wires nodes (e ∷ es) incoming after h =
      let (next, p, q) =
        and_then_ok (check_edge specs nodes e incoming) (λ i. check_edges specs nodes es i) h in
      let (joined, free, put_eq) = check_edge-IsJoined nodes e incoming next p in
      let ih = check_edges-Wires nodes es next after q in
      let known : (k : String × String)
          → contains k (keys next) ≡ (socket e == k || contains k (keys incoming)) =
        (λ k.
          ap (λ i. contains k (keys i)) (sym put_eq)
          ∙ contains-put (socket e) k (e.src, e.src_port) incoming) in
      record {
        joined = (joined, ih.joined);
        apart = (
          free,
          All-of_In _ es (λ x m. ground (arith, known (socket x), All-In _ es ih.apart m)),
        );
        once = (
          All-of_In _ es (λ x m c.
              let t = (pair_eq.beq_iff (socket e) (socket x)).1 (sym c) in
              ground (arith, t, known (socket x), All-In _ es ih.apart m)),
          ih.once,
        );
        sockets = λ k. ground (arith, ih.sockets k, known k);
      }
