-- ===== src/Playground/Counting.antt =====
-- How often a node stands in a list, through the operations of core/playground.py `_toposort`.
use exact_surface.Prelude.{
  ℕ, ◌+◌, ◌-◌, ◌≤◌, ◌<◌, String, ◌≡◌, refl, ap, sym, true, false, List, [], ◌∷◌, ◌++◌, leb, length,
  arith, In, here, there, inl, inr, if◌then◌else◌, ◌==◌, keys, contains, discard, string_eq,
  Bool-cases,
}
use exact_surface.Playground.Order.{insert_id, sort_ids, is_empty, Deps, frees, grown, release}

unfoldable pub times : String → List String → ℕ
times x [] = 0
times x (y ∷ ys) = (if y == x then 1 else 0) + times x ys

pub times-append : (x : String) (ys zs : List String) → times x (ys ++ zs) ≡ times x ys + times x zs
unfolding times
times-append x [] zs = omega arith
times-append x (y ∷ ys) zs = omega (arith, times-append x ys zs)

times-insert_id : (x n : String) (ys : List String) → times x (insert_id n ys) ≡ times x (n ∷ ys)
unfolding times insert_id
times-insert_id x n [] = refl
times-insert_id x n (y ∷ ys) = ground (arith, times-insert_id x n ys)

pub times-sort_ids : (x : String) (ys : List String) → times x (sort_ids ys) ≡ times x ys
unfolding times sort_ids
times-sort_ids x [] = refl
times-sort_ids x (y ∷ ys) = ground (arith, times-insert_id x y (sort_ids ys), times-sort_ids x ys)

pub contains-times : (x : String) (ys : List String) → contains x ys ≡ leb 1 (times x ys)
unfolding times contains
contains-times x [] = refl
contains-times x (y ∷ ys) = ground (arith, contains-times x ys)

pub times-discard :
    (x n : String) (ys : List String) → times x (discard n ys) ≡ (if n == x then 0 else times x ys)
unfolding times discard
times-discard x n [] = ground arith
times-discard x n (y ∷ ys) = elim (Bool-cases (y == n)) [
  | inl t ↦
      let e = (string_eq.beq_iff y n).0 t in
      rw (t, discard) (ground (arith, times-discard x n ys, ap (λ z. z == x) e))
  | inr f ↦ ground (
    arith,
    times-discard x n ys,
    f,
    string_eq.beq_iff y n,
    string_eq.beq_iff y x,
    string_eq.beq_iff n x,
  )
]

pub is_empty-discard :
    (n : String) (ys : List String) → contains n ys ≡ false → is_empty (discard n ys) ≡ is_empty ys
unfolding contains discard
is_empty-discard n [] h = refl
is_empty-discard n (y ∷ ys) h = ground (arith, h)

pub times-empty : (x : String) (ys : List String) → is_empty ys ≡ true → times x ys ≡ 0
unfolding times
times-empty x [] h = refl
times-empty x (y ∷ ys) h = cc

pub times-In : (x : String) (ys : List String) → 1 ≤ times x ys → In x ys
unfolding times
times-In x [] h = absurd (omega arith)
times-In x (y ∷ ys) h = elim (Bool-cases (y == x)) [
  | inl t ↦ here (sym ((string_eq.beq_iff y x).0 t))
  | inr f ↦ there (times-In x ys (ground (arith, h, f)))
]

pub In-times : (x : String) (ys : List String) → In x ys → 1 ≤ times x ys
unfolding times
In-times x [] m = elim m [ ]
In-times x (y ∷ ys) (here e) = ground (arith, string_eq.beq_iff y x)
In-times x (y ∷ ys) (there m) = ground (arith, In-times x ys m)

-- The list without the first of the nodes of that name.
without : String → List String → List String
without n [] = []
without n (y ∷ ys) = let rest = without n ys in if y == n then ys else y ∷ rest

length-without :
    (n : String) (ys : List String) → 1 ≤ times n ys → length (without n ys) + 1 ≡ length ys
unfolding times without
length-without n [] h = absurd (omega arith)
length-without n (y ∷ ys) h = ground (arith, length-without n ys)

times-without :
    (x n : String) (ys : List String)
    → times x (without n ys) ≡ times x ys - (if n == x then 1 else 0)
unfolding times without
times-without x n [] = ground arith
times-without x n (y ∷ ys) = elim (Bool-cases (y == n)) [
  | inl t ↦
      let e = ap (λ z. z == x) ((string_eq.beq_iff y n).0 t) in rw (t, without) (ground (arith, e))
  | inr f ↦ ground (
    arith,
    times-without x n ys,
    f,
    string_eq.beq_iff y n,
    string_eq.beq_iff y x,
    string_eq.beq_iff n x,
  )
]

-- A list that holds nothing more often than another is no longer.
pub length-times :
    (xs ys : List String) → ((x : String) → times x xs ≤ times x ys) → length xs ≤ length ys
unfolding times
length-times [] ys h = omega arith
length-times (x ∷ xs) ys h =
    let one : 1 ≤ times x ys = ground (arith, h x, string_eq.beq_iff x x) in
    let ih = length-times xs (without x ys) (λ z. ground (arith, h z, times-without z x ys)) in
    omega (arith, length-without x ys one, ih)

-- It is shorter where it holds one of them less often.
pub length-times_strict :
    (n : String) (xs ys : List String)
    → ((x : String) → times x xs ≤ times x ys)
    → times n xs < times n ys
    → length xs < length ys
length-times_strict n xs ys h k =
    let less : (x : String) → times x xs ≤ times x (without n ys) = (λ x.
      elim (Bool-cases (n == x)) [
        | inl t ↦
            let q = (string_eq.beq_iff n x).0 t in
            ground
              (arith, t, times-without x n ys, k, ap (λ z. times z xs) q, ap (λ z. times z ys) q)
        | inr f ↦ ground (arith, f, times-without x n ys, h x)
      ]) in
    omega (arith, length-times xs (without n ys) less, length-without n ys (omega arith))

-- What `release` adds to the ready nodes are nodes of the graph.
pub release-keys :
    (x node : String) (order ready : List String) (deps : Deps)
    → times x (release node order ready deps).1 ≤ times x (keys deps)
unfolding times release
release-keys x node order ready [] = omega arith
release-keys x node order ready ((other, d) ∷ deps) =
    let free = frees node order ready other d in
    let ih = release-keys x node order (grown free ready other) deps in
    elim (Bool-cases free) [
      | inl t ↦ rw (t, release) (omega (arith, rw t at ih))
      | inr f ↦ rw (f, release) (omega (arith, rw f at ih))
    ]

-- No node is ready twice.
pub release_once :
    (x node : String) (order ready : List String) (deps : Deps)
    → times x order + times x ready ≤ 1
    → times x order + times x ready + times x (release node order ready deps).1 ≤ 1
unfolding times release
release_once x node order ready [] h = omega arith
release_once x node order ready ((other, d) ∷ deps) h =
    let free = frees node order ready other d in
    elim (Bool-cases free) [
      | inr f ↦ rw (f, release) (release_once x node order ready deps h)
      | inl t ↦ elim (Bool-cases (other == x)) [
        | inr n ↦
            let ih =
              release_once x node order (ready ++ (other ∷ [])) deps
                (ground (arith, h, n, times-append x ready (other ∷ []))) in
            rw (t, release) (ground (arith, ih, n, times-append x ready (other ∷ [])))
        | inl e ↦
            let q = (string_eq.beq_iff other x).0 e in
            let free : (times other order ≡ 0) × (times other ready ≡ 0) =
              ground (arith, t, contains-times other order, contains-times other ready) in
            let same : times x order + times x ready ≡ 0 =
              ground (arith, free, ap (λ z. times z order) q, ap (λ z. times z ready) q) in
            let ih =
              release_once x node order (ready ++ (other ∷ [])) deps
                (ground (arith, same, e, times-append x ready (other ∷ []))) in
            rw (t, release) (ground (arith, ih, e, same, times-append x ready (other ∷ [])))
      ]
    ]

pub keys-release :
    (node : String) (order ready : List String) (deps : Deps)
    → keys (release node order ready deps).0 ≡ keys deps
unfolding release
keys-release node order ready [] = refl
keys-release node order ready ((other, d) ∷ deps) =
    ap (λ ks. other ∷ ks)
      (keys-release node order (grown (frees node order ready other d) ready other) deps)

-- A list that holds each node at most once, behind a node that it does not hold.
pub times-once :
    (n : String) (ns : List String)
    → times n ns ≡ 0
    → ((x : String) → times x ns ≤ 1)
    → (x : String) → times x (n ∷ ns) ≤ 1
unfolding times
times-once n ns z h x = elim (Bool-cases (n == x)) [
  | inl t ↦ let q = ap (λ y. times y ns) ((string_eq.beq_iff n x).0 t) in ground (arith, t, z, q)
  | inr f ↦ ground (arith, f, h x)
]
