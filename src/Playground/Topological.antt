-- ===== src/Playground/Topological.antt =====
-- core/playground.py `_toposort`: every node follows the nodes that it is wired to, and a node is left
-- out only where the workflow loops.
use exact_surface.Prelude.{
  ◌+◌, ◌≤◌, String, ◌≡◌, refl, ap, sym, ◌∙◌, subst, true, false, List, [], ◌∷◌, ◌++◌, leb, arith,
  In, here, there, inl, inr, ◌==◌, keys, string_eq, Bool-cases, Entries,
}
use mathlib.Core.List.{append_assoc}
use exact_surface.Playground.Order.{is_empty, Deps, Edge, sort_ids, release}
use exact_surface.Playground.Counting.{
  times, times-append, times-sort_ids, times-empty, times-In, release-keys, release_once,
  keys-release,
}
use exact_surface.Playground.Waiting.{Entry, Entries-map, Entries-In, release-Entries}

-- The node stands in the list before that position of the other.
abbrev pub Precedes : String → String → List String → Type 0
Precedes s n order =
    (pre : List String) × (post : List String) × (order ≡ pre ++ (n ∷ post)) × In s pre

pub In-keys_entry :
    (deps : Deps) {n : String} → In n (keys deps) → (d : List String) × In (n, d) deps
In-keys_entry [] m = elim m [ ]
In-keys_entry ((k, d) ∷ deps) (here e) = (d, here (ap (λ z. (z, d)) e))
In-keys_entry ((k, d) ∷ deps) (there m) = let r = In-keys_entry deps m in (r.0, there r.1)

module _ (nodes : List String) (edges : List Edge) where
  -- The loop's invariant.
  pub record IsSorting (deps : Deps) (order ready : List String) : Type 0 where
    pub single : (x : String) → times x nodes ≤ 1
    pub keyed : keys deps ≡ nodes
    pub entries : Entries (λ n d. Entry edges order (times n order + times n ready) n d) deps
    pub once : (x : String) → times x order + times x ready ≤ 1
    pub inside : (x : String) → times x order + times x ready ≤ times x nodes
    pub placed :
        (n : String)
        → 1 ≤ times n order
        → (e : Edge) → In e edges
        → e.dst ≡ n
        → Precedes e.src n order

  -- What is promised of the order.
  pub record IsOrder (order : List String) : Type 0 where
    pub once : (x : String) → times x order ≤ times x nodes
    pub placed : (e : Edge) → In e edges → 1 ≤ times e.dst order → Precedes e.src e.dst order
    pub loops :
        (n : String)
        → 1 ≤ times n nodes
        → times n order ≡ 0
        → (e : Edge) × In e edges × (e.dst ≡ n) × (times e.src order ≡ 0)

  Entry-of :
      (deps : Deps) (order ready : List String) (n : String)
      → IsSorting deps order ready
      → 1 ≤ times n nodes
      → (d : List String) × Entry edges order (times n order + times n ready) n d
  Entry-of deps order ready n h k =
      let r =
        In-keys_entry deps
          (times-In n (keys deps) (subst (λ ks. 1 ≤ times n ks) (sym h.keyed) k)) in
      (
        r.0,
        Entries-In (λ n d. Entry edges order (times n order + times n ready) n d) deps h.entries
            r.1,
      )

  pub IsSorting-IsOrder :
      (deps : Deps) (order : List String) → IsSorting deps order [] → IsOrder order
  unfolding times
  IsSorting-IsOrder deps order h = record {
    once = λ x. omega (arith, h.inside x);
    placed = λ e m k. h.placed e.dst k e m refl;
    loops = λ n k z.
        let r = Entry-of deps order [] n h k in
        elim (Bool-cases (is_empty r.0)) [
          | inl t ↦ absurd (omega (arith, r.1.freed t, z))
          | inr f ↦
              let s = first r.0 f in
              let o = r.1.origin s.0 s.1 in
              (o.0, o.1, o.3, ap (λ x. times x order) o.2 ∙ r.1.pending s.0 s.1)
        ];
  }
    where
      first : (d : List String) → is_empty d ≡ false → (s : String) × (1 ≤ times s d)
      first [] f = cc
      first (s ∷ d) f = (s, ground (arith, string_eq.beq_iff s s))

  placed_step :
      (deps : Deps) (order ready : List String) (node n : String)
      → IsSorting deps order (node ∷ ready)
      → 1 ≤ times n (order ++ (node ∷ []))
      → (e : Edge) → In e edges
      → e.dst ≡ n
      → Precedes e.src n (order ++ (node ∷ []))
  unfolding times
  placed_step deps order ready node n h k e m t = elim (Bool-cases (leb 1 (times n order))) [
    | inl old ↦
        let (pre, post, eq, i) = h.placed n (ground (arith, old)) e m t in
        (
          pre,
          post ++ (node ∷ []),
          ap (λ o. o ++ (node ∷ [])) eq ∙ append_assoc pre (n ∷ post) (node ∷ []),
          i,
        )
    | inr new ↦
        let b : (node == n) ≡ true = ground (arith, new, k, times-append n order (node ∷ [])) in
        let same = (string_eq.beq_iff node n).0 b in
        let r = Entry-of deps order (node ∷ ready) n h (ground (arith, h.inside n, b)) in
        let vacant = r.1.vacant (ground (arith, b)) in
        let source = r.1.known e m t in
        (
          order,
          [],
          ap (λ z. order ++ (z ∷ [])) same,
          times-In e.src order (omega (arith, source, times-empty e.src r.0 vacant)),
        )
  ]

  pub IsSorting-step :
      (deps : Deps) (order ready : List String) (node : String)
      → IsSorting deps order (node ∷ ready)
      → IsSorting
          (release node (order ++ (node ∷ [])) ready deps).0
          (order ++ (node ∷ []))
          (sort_ids (ready ++ (release node (order ++ (node ∷ [])) ready deps).1))
  unfolding times
  IsSorting-step deps order ready node h =
      let done = order ++ (node ∷ []) in
      let next = release node done ready deps in
      let sum : (x : String)
          → times x done + times x ready ≡ times x order + times x (node ∷ ready) =
        (λ x. omega (arith, times-append x order (node ∷ []))) in
      let total : (x : String)
          → times x (sort_ids (ready ++ next.1)) ≡ times x ready + times x next.1 =
        (λ x. times-sort_ids x (ready ++ next.1) ∙ times-append x ready next.1) in
      let distinct : (x : String) → times x (keys deps) ≤ 1 =
        (λ x. subst (λ ks. times x ks ≤ 1) (sym h.keyed) (h.single x)) in
      record {
        single = h.single;
        keyed = keys-release node done ready deps ∙ h.keyed;
        entries =
            Entries-map next.0
              (λ n d k e. subst (λ q. Entry edges done q n d) (omega (arith, total n)) e)
              (release-Entries edges node order ready deps distinct (
                Entries-map deps (λ n d k e. subst (λ q. Entry edges order q n d) (sym (sum n)) e)
                  h.entries));
        once = λ x. omega (
          arith,
          total x,
          sum x,
          h.once x,
          release_once x node done ready deps (omega (arith, sum x, h.once x)),
        );
        inside = λ x.
            let one = release_once x node done ready deps (omega (arith, sum x, h.once x)) in
            let new =
              subst (λ ks. times x next.1 ≤ times x ks) h.keyed
                (release-keys x node done ready deps) in
            omega (arith, total x, sum x, h.inside x, one, new);
        placed = λ n k e m t. placed_step deps order ready node n h k e m t;
      }
