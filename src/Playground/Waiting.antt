-- ===== src/Playground/Waiting.antt =====
-- core/playground.py `_toposort`: what each node still waits for, from round to round.
use exact_surface.Prelude.{
  ℕ, ◌+◌, ◌≤◌, String, ◌≡◌, refl, ap, sym, ◌∙◌, subst, true, false, List, [], ◌∷◌, ◌++◌, leb, arith,
  In, here, there, inl, inr, if◌then◌else◌, ◌==◌, keys, contains, discard, string_eq, Bool-cases,
  Entries,
}
use exact_surface.Playground.Order.{is_empty, Deps, frees, grown, release, Edge}
use exact_surface.Playground.Counting.{
  times, times-append, contains-times, times-discard, is_empty-discard, release-keys, keys-release,
}

pub Entries-map :
    {P Q : String → List String → Type 0} (deps : Deps)
    → ((n : String) (d : List String) → 1 ≤ times n (keys deps) → P n d → Q n d)
    → Entries P deps
    → Entries Q deps
unfolding times
Entries-map [] f h = tt
Entries-map ((n, d) ∷ deps) f h = (
  f n d (ground (arith, string_eq.beq_iff n n)) h.0,
  Entries-map deps (λ m c k. f m c (ground (arith, k))) h.1,
)

pub Entries-In :
    (P : String → List String → Type 0) (deps : Deps) {n : String} {d : List String}
    → Entries P deps
    → In (n, d) deps
    → P n d
Entries-In P [] h m = elim m [ ]
Entries-In P ((k, c) ∷ deps) h (here e) =
    subst (λ (p : String × List String). P p.0 p.1) (sym e) h.0
Entries-In P ((k, c) ∷ deps) h (there m) = Entries-In P deps h.1 m

empty_discard : (n : String) (d : List String) → is_empty d ≡ true → is_empty (discard n d) ≡ true
unfolding discard
empty_discard n [] h = refl
empty_discard n (x ∷ d) h = cc

module _ (edges : List Edge) where
  -- Where a node waits for `d`, and stands `q` times among the nodes that are through or ready.
  pub record Entry (order : List String) (q : ℕ) (n : String) (d : List String) : Type 0 where
    pub known : (e : Edge) → In e edges → e.dst ≡ n → 1 ≤ times e.src d + times e.src order
    pub freed : is_empty d ≡ true → 1 ≤ q
    pub vacant : 1 ≤ q → is_empty d ≡ true
    pub pending : (s : String) → 1 ≤ times s d → times s order ≡ 0
    pub origin : (s : String) → 1 ≤ times s d → (e : Edge) × In e edges × (e.src ≡ s) × (e.dst ≡ n)

  Entry-step :
      (node : String) (order ready : List String) (g : ℕ) (n : String) (d : List String)
      → Entry order (times n (order ++ (node ∷ [])) + times n ready) n d
      → g ≡ (if frees node (order ++ (node ∷ [])) ready n d then 1 else 0)
      → Entry
          (order ++ (node ∷ []))
          (times n (order ++ (node ∷ [])) + times n ready + g)
          n
          (discard node d)
  unfolding times
  Entry-step node order ready g n d h eg =
      let done = order ++ (node ∷ []) in
      let split = λ (s : String). times-append s order (node ∷ []) in
      record {
        known = λ e m t. ground (arith, h.known e m t, split e.src, times-discard e.src node d);
        freed = λ v. elim (Bool-cases (contains node d)) [
          | inr f ↦ omega (arith, h.freed (sym (is_empty-discard node d f) ∙ v))
          | inl t ↦ ground (arith, t, v, eg, contains-times n done, contains-times n ready)
        ];
        vacant = λ p. elim (Bool-cases (leb 1 (times n done + times n ready))) [
          | inl t ↦ empty_discard node d (h.vacant (ground (arith, t)))
          | inr f ↦ ground (arith, eg, f, p)
        ];
        pending = λ s p. ground (arith, split s, times-discard s node d, p, h.pending s);
        origin = λ s p. h.origin s (ground (arith, times-discard s node d, p));
      }

  -- The inner loop keeps the entries, for the nodes that it adds to `ready`.
  pub release-Entries :
      (node : String) (order ready : List String) (deps : Deps)
      → ((x : String) → times x (keys deps) ≤ 1)
      → Entries (λ n d. Entry order (times n (order ++ (node ∷ [])) + times n ready) n d) deps
      → Entries
          (λ n d.
            Entry
              (order ++ (node ∷ []))
              (times n (order ++ (node ∷ []))
                + times n ready
                + times n (release node (order ++ (node ∷ [])) ready deps).1)
              n
              d)
          (release node (order ++ (node ∷ [])) ready deps).0
  unfolding release times
  release-Entries node order ready [] once h = tt
  release-Entries node order ready ((other, d) ∷ deps) once h =
      let done = order ++ (node ∷ []) in
      let b = frees node done ready other d in
      let next = grown b ready other in
      let rest = release node done next deps in
      let alone : times other (keys deps) ≡ 0 =
        ground (arith, once other, string_eq.beq_iff other other) in
      let apart : (n : String) → 1 ≤ times n (keys deps) → (other == n) ≡ false = (λ n k.
        elim (Bool-cases (other == n)) [
          | inl t ↦ absurd (
              omega
                (arith, alone, k, ap (λ z. times z (keys deps)) ((string_eq.beq_iff other n).0 t)))
          | inr f ↦ f
        ]) in
      let same : (n : String) → (other == n) ≡ false → times n next ≡ times n ready =
        (λ n f. ground (arith, f, times-append n ready (other ∷ []))) in
      let total : (n : String)
          → (other == n) ≡ false
          → times n done + times n next + times n rest.1
            ≡ times n done + times n ready + times n (if b then other ∷ rest.1 else rest.1) =
        (λ n f. ground (arith, f, same n f)) in
      let ih =
        release-Entries node order next deps (λ x. omega (arith, once x))
          (Entries-map deps
            (λ n c k e.
              subst (λ q. Entry order (times n done + q) n c) (sym (same n (apart n k))) e)
            h.1) in
      (
        Entry-step node order ready _ other d h.0 (
            ground (
              arith,
              release-keys other node done next deps,
              alone,
              string_eq.beq_iff other other,
            )),
        Entries-map rest.0
            (λ n c k e.
              let k' = subst (λ ks. 1 ≤ times n ks) (keys-release node done next deps) k in
              subst (λ q. Entry done q n c) (total n (apart n k')) e)
            ih,
      )
