-- ===== src/Playground/Run/Ends.antt =====
-- pipelines/playground.py: how the nodes of a canvas end, in the state of `run_workflow`.
use exact_surface.Prelude.{
  String, ◌≡◌, refl, sym, ◌∙◌, subst, true, false, some, List, [], ◌∷◌, ◌++◌, arith, In, here,
  there, In-cons, inl, inr, ◌⊎◌, ◌==◌, get, contains, string_eq, Bool-cases, Dict,
}
use exact_surface.Playground.Order.{Edge}
use exact_surface.Playground.Run.{success, failed, skipped, State}

In-snoc : {n m : String} (xs : List String) → In n (xs ++ (m ∷ [])) → In n xs ⊎ (n ≡ m)
In-snoc [] i = elim (In-cons i) [ inl q ↦ inr q | inr k ↦ elim k [ ] ]
In-snoc (x ∷ xs) i = elim (In-cons i) [
  | inl q ↦ inl (here q)
  | inr k ↦ elim (In-snoc xs k) [ inl o ↦ inl (there o) | inr q ↦ inr q ]
]

In-append_left : {n : String} (xs ys : List String) → In n xs → In n (xs ++ ys)
In-append_left [] ys i = elim i [ ]
In-append_left (x ∷ xs) ys i = elim (In-cons i) [
  | inl q ↦ here q
  | inr k ↦ there (In-append_left xs ys k)
]

In-append_last : (xs : List String) (n : String) → In n (xs ++ (n ∷ []))
In-append_last [] n = here refl
In-append_last (x ∷ xs) n = there (In-append_last xs n)

module _ {V : Type 0} where
  -- The node has run, and handed its result on.
  pub record Well (s : State V) (n : String) : Type 0 where
    pub status : get n s.report ≡ some success
    pub made : Dict String V
    pub outputs : get n s.outputs ≡ some made
    pub kept : contains n s.passed_over ≡ false

  -- The node has failed, or was not run.
  pub record Unwell (s : State V) (n : String) : Type 0 where
    pub status : (get n s.report ≡ some failed) ⊎ (get n s.report ≡ some skipped)
    pub dropped : contains n s.passed_over ≡ true

  -- What the states say of a node is the same.
  pub record Agrees (s t : State V) (n : String) : Type 0 where
    pub report : get n t.report ≡ get n s.report
    pub outputs : get n t.outputs ≡ get n s.outputs
    pub dropped : contains n t.passed_over ≡ contains n s.passed_over

  pub Well-Agrees : (s t : State V) (n : String) → Agrees s t n → Well s n → Well t n
  Well-Agrees s t n a w = record {
    status = a.report ∙ w.status;
    made = w.made;
    outputs = a.outputs ∙ w.outputs;
    kept = a.dropped ∙ w.kept;
  }

  pub Unwell-Agrees : (s t : State V) (n : String) → Agrees s t n → Unwell s n → Unwell t n
  Unwell-Agrees s t n a u = record {
    status = elim u.status [ inl f ↦ inl (a.report ∙ f) | inr k ↦ inr (a.report ∙ k) ];
    dropped = a.dropped ∙ u.dropped;
  }

  module _ (edges : List Edge) where
    -- How a node ends: it runs once all that is wired into it has succeeded, and is skipped where
    -- something has not.
    pub data NodeEnd (s : State V) (n : String) : Type 0 where
      succeeded : Well s n → ((e : Edge) → In e edges → e.dst ≡ n → Well s e.src) → NodeEnd s n
      failed_alone :
          get n s.report ≡ some failed
          → contains n s.passed_over ≡ true
          → ((e : Edge) → In e edges → e.dst ≡ n → Well s e.src)
          → NodeEnd s n
      passed_by :
          get n s.report ≡ some skipped
          → contains n s.passed_over ≡ true
          → (e : Edge) → In e edges
          → e.dst ≡ n
          → Unwell s e.src
          → NodeEnd s n

    pub NodeEnd-Agrees :
        (s t : State V) (n : String)
        → Agrees s t n
        → ((e : Edge) → In e edges → e.dst ≡ n → Agrees s t e.src)
        → NodeEnd s n
        → NodeEnd t n
    NodeEnd-Agrees s t n a f (succeeded w up) =
        succeeded (Well-Agrees s t n a w) (λ e m q. Well-Agrees s t e.src (f e m q) (up e m q))
    NodeEnd-Agrees s t n a f (failed_alone r d up) =
        failed_alone (a.report ∙ r) (a.dropped ∙ d)
          (λ e m q. Well-Agrees s t e.src (f e m q) (up e m q))
    NodeEnd-Agrees s t n a f (passed_by r d e m q u) =
        passed_by (a.report ∙ r) (a.dropped ∙ d) e m q (Unwell-Agrees s t e.src (f e m q) u)

    pub Well-kept :
        (s : State V) (n : String) → NodeEnd s n → contains n s.passed_over ≡ false → Well s n
    Well-kept s n (succeeded w up) k = w
    Well-kept s n (failed_alone r d up) k = absurd (ground (arith, d, k))
    Well-kept s n (passed_by r d e m q u) k = absurd (ground (arith, d, k))

    pub Unwell-dropped :
        (s : State V) (n : String) → NodeEnd s n → contains n s.passed_over ≡ true → Unwell s n
    Unwell-dropped s n (succeeded w up) k = absurd (ground (arith, w.kept, k))
    Unwell-dropped s n (failed_alone r d up) k = record { status = inl r; dropped = k }
    Unwell-dropped s n (passed_by r d e m q u) k = record { status = inr r; dropped = k }

    -- The loop's invariant, when `done` are through.
    pub record IsUnderWay (done : List String) (s : State V) : Type 0 where
      pub ends : (n : String) → In n done → NodeEnd s n
      pub fresh : (n : String) → contains n s.passed_over ≡ true → In n done
      pub closed : (n : String) → In n done → (e : Edge) → In e edges → e.dst ≡ n → In e.src done

    -- A round that settles a node that was not through.
    pub IsUnderWay-step :
        (done : List String) (s t : State V) (id : String)
        → IsUnderWay done s
        → (In id done → ⊥)
        → ((e : Edge) → In e edges → e.dst ≡ id → In e.src done)
        → ((n : String) → (id ≡ n → ⊥) → Agrees s t n)
        → (((n : String) → In n done → Agrees s t n) → NodeEnd t id)
        → IsUnderWay (done ++ (id ∷ [])) t
    IsUnderWay-step done s t id h new ready agrees ended =
        let old : (n : String) → In n done → Agrees s t n =
          (λ n i. agrees n (λ q. new (subst (λ z. In z done) (sym q) i))) in
        record {
          ends = λ n i. elim (In-snoc done i) [
            | inl k ↦
                NodeEnd-Agrees s t n (old n k) (λ e m q. old e.src (h.closed n k e m q))
                  (h.ends n k)
            | inr q ↦ subst (NodeEnd t) (sym q) (ended old)
          ];
          fresh = λ n c. elim (Bool-cases (id == n)) [
            | inl b ↦
                subst (λ z. In z (done ++ (id ∷ []))) ((string_eq.beq_iff id n).0 b)
                  (In-append_last done id)
            | inr f ↦
                let k : id ≡ n → ⊥ = (λ q. ground (arith, f, q, string_eq.beq_iff id n)) in
                In-append_left done (id ∷ []) (h.fresh n (sym (agrees n k).dropped ∙ c))
          ];
          closed = λ n i e m q.
              In-append_left done (id ∷ [])
                (elim (In-snoc done i) [ inl k ↦ h.closed n k e m q | inr r ↦ ready e m (q ∙ r) ]);
        }
