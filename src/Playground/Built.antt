-- ===== src/Playground/Built.antt =====
-- core/playground.py `_toposort`: what each node waits for before the first round.
use exact_surface.Prelude.{
  ◌≤◌, String, ◌≡◌, refl, ap, sym, ◌∙◌, subst, true, List, [], ◌∷◌, arith, ◌≢◌, In, here, there,
  inl, inr, ◌⊎◌, if◌then◌else◌, ◌==◌, keys, contains, insert, contains-insert, string_eq,
  Bool-cases, Entries,
}
use exact_surface.Playground.Order.{is_empty, Deps, Edge, no_deps, add_dep, add_deps, free_nodes}
use exact_surface.Playground.Counting.{times}
use exact_surface.Playground.Waiting.{Entries-map}

-- Where a node waits for `d` by the edges of `M`.
pub record Built (M : Edge → Type 0) (n : String) (d : List String) : Type 0 where
  pub known : (e : Edge) → M e → e.dst ≡ n → contains e.src d ≡ true
  pub origin : (s : String) → contains s d ≡ true → (e : Edge) × M e × (e.src ≡ s) × (e.dst ≡ n)

Built-map :
    {M N : Edge → Type 0} (n : String) (d : List String)
    → ((e : Edge) → M e → N e)
    → ((e : Edge) → N e → e.dst ≡ n → M e)
    → Built M n d
    → Built N n d
Built-map n d f g h = record {
  known = λ e m t. h.known e (g e m t) t;
  origin = λ s c. let r = h.origin s c in (r.0, f r.0 r.1, r.2, r.3);
}

apart : (m n : String) (deps : Deps) → times m (keys deps) ≡ 0 → 1 ≤ times n (keys deps) → n ≡ m → ⊥
apart m n deps z k e = omega (arith, z, k, ap (λ x. times x (keys deps)) e)

pub keys-no_deps : (nodes : List String) → keys (no_deps nodes) ≡ nodes
unfolding no_deps
keys-no_deps [] = refl
keys-no_deps (n ∷ ns) = ap (λ ks. n ∷ ks) (keys-no_deps ns)

pub Built-no_deps : (nodes : List String) → Entries (Built (λ e. ⊥)) (no_deps nodes)
unfolding no_deps contains
Built-no_deps [] = tt
Built-no_deps (n ∷ ns) =
    (record { known = λ e m t. elim m [ ]; origin = λ s c. cc }, Built-no_deps ns)

keys-add_dep : (src dst : String) (deps : Deps) → keys (add_dep src dst deps) ≡ keys deps
unfolding add_dep
keys-add_dep src dst [] = refl
keys-add_dep src dst ((n, d) ∷ deps) = elim (Bool-cases (n == dst)) [
  | inl t ↦ rw (t, add_dep) refl
  | inr f ↦ rw (f, add_dep) (ap (λ ks. n ∷ ks) (keys-add_dep src dst deps))
]

pub keys-add_deps : (es : List Edge) (deps : Deps) → keys (add_deps es deps) ≡ keys deps
unfolding add_deps
keys-add_deps [] deps = refl
keys-add_deps (e ∷ es) deps =
    keys-add_deps es (add_dep e.src e.dst deps) ∙ keys-add_dep e.src e.dst deps

module _ (M : Edge → Type 0) (e : Edge) where
  Built-insert :
      (n : String) (d : List String)
      → n ≡ e.dst
      → Built M n d
      → Built (λ x. M x ⊎ (x ≡ e)) n (insert e.src d)
  Built-insert n d q h = record {
    known = λ x m t. elim m [
      | inl old ↦ ground (arith, contains-insert e.src x.src d, h.known x old t)
      | inr new ↦
          ground (
            arith,
            contains-insert e.src x.src d,
            ap (λ z. z.src) new,
            string_eq.beq_iff e.src x.src,
          )
    ];
    origin = λ s c. elim (Bool-cases (e.src == s)) [
      | inl t ↦ (e, inr refl, (string_eq.beq_iff e.src s).0 t, sym q)
      | inr f ↦
          let r = h.origin s (ground (arith, f, c, contains-insert e.src s d)) in
          (r.0, inl r.1, r.2, r.3)
    ];
  }

  Built-add_dep :
      (deps : Deps)
      → ((x : String) → times x (keys deps) ≤ 1)
      → Entries (Built M) deps
      → Entries (Built (λ x. M x ⊎ (x ≡ e))) (add_dep e.src e.dst deps)
  unfolding add_dep times
  Built-add_dep [] once h = tt
  Built-add_dep ((n, d) ∷ deps) once h =
      let other : (m : String) (c : List String)
          → (m ≡ e.dst → ⊥)
          → Built M m c
          → Built (λ x. M x ⊎ (x ≡ e)) m c =
        (λ m c k.
          Built-map m c (λ x old. inl old)
            (λ x new t. elim new [
              | inl old ↦ old
              | inr same ↦ absurd (k (sym t ∙ ap (λ z. z.dst) same))
            ])) in
      elim (Bool-cases (n == e.dst)) [
        | inl t ↦
            let q = (string_eq.beq_iff n e.dst).0 t in
            let alone : times n (keys deps) ≡ 0 = ground (arith, once n, string_eq.beq_iff n n) in
            rw (t, add_dep)
              (
                Built-insert n d q h.0,
                Entries-map deps (λ m c k. other m c (λ r. apart n m deps alone k (r ∙ sym q))) h.1,
              )
        | inr f ↦
            rw (f, add_dep)
              (
                other n d (λ q. ground (arith, f, string_eq.beq_iff n e.dst, q)) h.0,
                Built-add_dep deps (λ x. omega (arith, once x)) h.1,
              )
      ]

pub Built-add_deps :
    (M : Edge → Type 0) (es : List Edge) (deps : Deps)
    → ((x : String) → times x (keys deps) ≤ 1)
    → Entries (Built M) deps
    → Entries (Built (λ e. M e ⊎ In e es)) (add_deps es deps)
unfolding add_deps
Built-add_deps M [] deps once h =
    Entries-map deps
      (λ n d k.
        Built-map n d (λ e m. inl m) (λ e m t. elim m [ inl old ↦ old | inr i ↦ elim i [ ] ]))
      h
Built-add_deps M (e ∷ es) deps once h =
    let next = add_dep e.src e.dst deps in
    let ih =
      Built-add_deps (λ x. M x ⊎ (x ≡ e)) es next
        (λ x. subst (λ ks. times x ks ≤ 1) (sym (keys-add_dep e.src e.dst deps)) (once x))
        (Built-add_dep M e deps once h) in
    Entries-map (add_deps es next)
      (λ n d k.
        Built-map n d
          (λ x m. elim m [
            | inl o ↦ elim o [ inl old ↦ inl old | inr same ↦ inr (here same) ]
            | inr i ↦ inr (there i)
          ])
          (λ x m t. elim m [ inl old ↦ inl (inl old) | inr i ↦ split x i ]))
      ih
  where
    split : (x : Edge) → In x (e ∷ es) → (M x ⊎ (x ≡ e)) ⊎ In x es
    split x (here q) = inl (inr q)
    split x (there i) = inr i

pub free_nodes-keys : (x : String) (deps : Deps) → times x (free_nodes deps) ≤ times x (keys deps)
unfolding free_nodes times
free_nodes-keys x [] = omega arith
free_nodes-keys x ((n, d) ∷ deps) = ground (arith, free_nodes-keys x deps)

pub free_nodes-Entries :
    (deps : Deps)
    → ((x : String) → times x (keys deps) ≤ 1)
    → Entries (λ n d. times n (free_nodes deps) ≡ (if is_empty d then 1 else 0)) deps
unfolding free_nodes times
free_nodes-Entries [] once = tt
free_nodes-Entries ((n, d) ∷ deps) once =
    let self = string_eq.beq_iff n n in
    let alone : times n (keys deps) ≡ 0 = ground (arith, once n, self) in
    (
      ground (arith, free_nodes-keys n deps, alone, self),
      Entries-map deps
          (λ m c k q.
            let differ : m ≢ n = (λ e. apart n m deps alone k e) in
            elim (Bool-cases (n == m)) [
              | inl t ↦ absurd (differ (sym ((string_eq.beq_iff n m).0 t)))
              | inr f ↦ ground (arith, q, f)
            ])
          (free_nodes-Entries deps (λ x. omega (arith, once x))),
    )

pub Entries-both :
    (P Q : String → List String → Type 0) (deps : Deps)
    → Entries P deps
    → Entries Q deps
    → Entries (λ n d. P n d × Q n d) deps
Entries-both P Q [] h k = tt
Entries-both P Q ((n, d) ∷ deps) h k = ((h.0, k.0), Entries-both P Q deps h.1 k.1)
