-- ===== src/Playground/Run/Wired.antt =====
-- pipelines/playground.py `_incoming`: the wires of a valid canvas.
use exact_surface.Prelude.{
  String, ◌≡◌, ◌≢◌, refl, ap, sym, ◌∙◌, subst, true, false, Option, none, some, List, [], ◌∷◌, map,
  In, here, there, In-cons, All, inl, inr, ◌⊎◌, if◌then◌else◌, ◌==◌, get, put, get-put, keys,
  get-In, In-put, In-keys-get, In-keys-put, string_eq, Bool-cases, Dict,
}
use exact_surface.Playground.Order.{Edge}
use exact_surface.Playground.{Graph}
use exact_surface.Playground.Wiring.{socket, Once}
use exact_surface.Playground.Run.{Wires, get_or_empty, wire, incoming_of}

put_hit :
    {V : Type 0} (k n : String) (v : V) (d : Dict String V)
    → (k == n) ≡ true
    → get n (put k v d) ≡ some v
put_hit k n v d t = get-put k n v d ∙ ap (λ b. if b then some v else get n d) t

put_miss :
    {V : Type 0} (k n : String) (v : V) (d : Dict String V)
    → (k == n) ≡ false
    → get n (put k v d) ≡ get n d
put_miss k n v d f = get-put k n v d ∙ ap (λ b. if b then some v else get n d) f

abbrev or_empty : Option (Dict String (String × String)) → Dict String (String × String)
or_empty o = elim o [ none ↦ [] | some v ↦ v ]

-- What is wired to a socket.
abbrev wired_at : String → String → Wires → Option (String × String)
wired_at n port w = get port (get_or_empty n w)

-- One write of the loop.
abbrev wire_edge : Edge → Dict String (String × String) → Wires → Wires
wire_edge e ports w = put e.dst (put e.dst_port (e.src, e.src_port) ports) w

-- What the loop does to the wires.
record Extends (es : List Edge) (w w' : Wires) : Type 0 where
  pub kept :
      (n port : String)
      → All (λ x. socket x ≢ (n, port)) es
      → wired_at n port w' ≡ wired_at n port w
  pub added : (e : Edge) → In e es → wired_at e.dst e.dst_port w' ≡ some (e.src, e.src_port)
  pub sources :
      (n : String) (p : String × (String × String))
      → In p (get_or_empty n w')
      → In p (get_or_empty n w) ⊎ ((e : Edge) × In e es × (e.dst ≡ n) × (e.src ≡ p.1.0))

module _ (e : Edge) (ports : Dict String (String × String)) (w : Wires)
    (found : get e.dst w ≡ some ports) where
  ports_lem : get_or_empty e.dst w ≡ ports
  ports_lem = ap or_empty found

  wire_edge-kept :
      (n port : String)
      → socket e ≢ (n, port)
      → wired_at n port (wire_edge e ports w) ≡ wired_at n port w
  wire_edge-kept n port h = elim (Bool-cases (e.dst == n)) [
    | inr f ↦ ap (λ o. get port (or_empty o)) (put_miss e.dst n _ w f)
    | inl t ↦
        let q = (string_eq.beq_iff e.dst n).0 t in
        let other : (e.dst_port == port) ≡ false = elim (Bool-cases (e.dst_port == port)) [
          | inr g ↦ g
          | inl u ↦
              let r = (string_eq.beq_iff e.dst_port port).0 u in
              absurd (h (ap (λ z. (z, e.dst_port)) q ∙ ap (λ z. (n, z)) r))
        ] in
        ap (λ o. get port (or_empty o)) (put_hit e.dst n _ w t)
        ∙ put_miss e.dst_port port _ ports other
        ∙ ap (get port) (sym ports_lem ∙ ap (λ z. get_or_empty z w) q)
  ]

  wire_edge-added : wired_at e.dst e.dst_port (wire_edge e ports w) ≡ some (e.src, e.src_port)
  wire_edge-added =
      let t = (string_eq.beq_iff e.dst e.dst).1 refl in
      let u = (string_eq.beq_iff e.dst_port e.dst_port).1 refl in
      ap (λ o. get e.dst_port (or_empty o)) (put_hit e.dst e.dst _ w t)
      ∙ put_hit e.dst_port e.dst_port _ ports u

  wire_edge-sources :
      (n : String) (p : String × (String × String))
      → In p (get_or_empty n (wire_edge e ports w))
      → In p (get_or_empty n w) ⊎ ((e.dst ≡ n) × (e.src ≡ p.1.0))
  wire_edge-sources n p m = elim (Bool-cases (e.dst == n)) [
    | inr f ↦ inl (subst (In p) (ap or_empty (put_miss e.dst n _ w f)) m)
    | inl t ↦
        let q = (string_eq.beq_iff e.dst n).0 t in
        elim (In-put e.dst_port (e.src, e.src_port) ports
          (subst (In p) (ap or_empty (put_hit e.dst n _ w t)) m)) [
            | inl r ↦ inr (q, sym (ap (λ z. z.1.0) r))
            | inr old ↦ inl (subst (In p) (sym ports_lem ∙ ap (λ z. get_or_empty z w) q) old)
          ]
  ]

wire-Extends :
    (es : List Edge) (w : Wires)
    → Once es
    → ((e : Edge) → In e es → In e.dst (keys w))
    → (w' : Wires) × (wire es w ≡ some w') × Extends es w w'
unfolding wire
wire-Extends [] w once ends = (
  w,
  refl,
  record { kept = λ n port h. refl; added = λ e m. elim m [ ]; sources = λ n p m. inl m },
)
wire-Extends (e ∷ es) w once ends =
    let (ports, found) = In-keys-get e.dst w (ends e (here refl)) in
    let next = wire_edge e ports w in
    let (w', returns, h) =
      wire-Extends es next once.1 (λ x m. In-keys-put e.dst x.dst _ w (ends x (there m))) in
    (
      w',
      rw (found, wire) returns,
      record {
        kept = λ n port k. h.kept n port k.1 ∙ wire_edge-kept e ports w found n port k.0;
        added = λ x m. elim (In-cons m) [
          | inr i ↦ h.added x i
          | inl q ↦
              subst (λ z. wired_at z.dst z.dst_port w' ≡ some (z.src, z.src_port)) (sym q)
                (h.kept e.dst e.dst_port once.0 ∙ wire_edge-added e ports w found)
        ];
        sources = λ n p m. elim (h.sources n p m) [
          | inr r ↦ inr (r.0, there r.1, r.2, r.3)
          | inl i ↦ elim (wire_edge-sources e ports w found n p i) [
            | inl old ↦ inl old
            | inr r ↦ inr (e, here refl, r.0, r.1)
          ]
        ];
      },
    )

-- The wires are the edges.
pub record IsWired (edges : List Edge) (w : Wires) : Type 0 where
  pub covered :
      (e : Edge) → In e edges → In (e.dst_port, (e.src, e.src_port)) (get_or_empty e.dst w)
  pub sources :
      (n : String) (p : String × (String × String))
      → In p (get_or_empty n w)
      → (e : Edge) × In e edges × (e.dst ≡ n) × (e.src ≡ p.1.0)

no_wires : List String → Wires
no_wires = map (λ n. (n, []))

keys-no_wires : (ns : List String) → keys (no_wires ns) ≡ ns
unfolding no_wires
keys-no_wires [] = refl
keys-no_wires (n ∷ ns) = ap (λ ks. n ∷ ks) (keys-no_wires ns)

no_wires_empty :
    (n : String) (ns : List String) (p : String × (String × String))
    → In p (get_or_empty n (no_wires ns))
    → ⊥
unfolding no_wires get
no_wires_empty n [] p m = elim m [ ]
no_wires_empty n (k ∷ ns) p m = elim (Bool-cases (k == n)) [
  | inl t ↦ elim (rw (t, get_or_empty) at m) [ ]
  | inr f ↦ no_wires_empty n ns p (rw (f, get_or_empty) at m)
]

pub incoming_of-IsWired :
    (g : Graph)
    → Once g.edges
    → ((e : Edge) → In e g.edges → In e.dst (keys g.nodes))
    → (w : Wires) × (incoming_of g ≡ some w) × IsWired g.edges w
unfolding incoming_of no_wires
incoming_of-IsWired g once ends =
    let start = no_wires (keys g.nodes) in
    let (w, returns, h) =
      wire-Extends g.edges start once
        (λ e m. subst (In e.dst) (sym (keys-no_wires (keys g.nodes))) (ends e m)) in
    (
      w,
      returns,
      record {
        covered = λ e m. get-In e.dst_port (get_or_empty e.dst w) (h.added e m);
        sources = λ n p m. elim (h.sources n p m) [
          | inl old ↦ absurd (no_wires_empty n (keys g.nodes) p old)
          | inr r ↦ r
        ];
      },
    )
