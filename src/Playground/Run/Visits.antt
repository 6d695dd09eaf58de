-- ===== src/Playground/Run/Visits.antt =====
-- pipelines/playground.py: one round of the loop of `run_workflow`.
use exact_surface.Prelude.{
  String, ◌≡◌, refl, ap, sym, ◌∙◌, subst, Bool, true, false, Option, some, List, [], ◌∷◌, ◌++◌, any,
  arith, In, here, there, inl, inr, ◌⊎◌, get, get-put_same, get-put_other, contains, insert,
  contains-insert, any-true, any-false, string_eq, Bool-cases, Dict,
}
use exact_surface.Scope.Confirm.{Program as ScopeFields}
use exact_surface.Playground.Order.{Edge}
use exact_surface.Playground.{NodeSpec, Node, Graph}
use exact_surface.Playground.Run.{
  Wires, get_or_empty, Values, Task, Result, produced, timed_out, refused, raised, Status, running,
  success, failed, skipped, State, gather, input, conclude, drop_node, emit, result_of, run_node,
  visit_found, visit, goes_on, escapes, timeout_error,
}
use exact_surface.Playground.Run.Rounds.{is_finite, with_budget-cases}
use exact_surface.Playground.Run.Wired.{IsWired}
use exact_surface.Playground.Run.Ends.{
  Well, Agrees, Well-Agrees, Unwell-Agrees, NodeEnd, Well-kept, Unwell-dropped, IsUnderWay,
  IsUnderWay-step, succeeded, failed_alone, passed_by,
}

module _ {V : Type 0} where
  drop_node-Agrees :
      (s : State V) (id n : String) (status : Status)
      → (id ≡ n → ⊥)
      → Agrees s (drop_node id status s) n
  drop_node-Agrees s id n status k = record {
    report = get-put_other id n status s.report k;
    outputs = refl;
    dropped = ground (arith, contains-insert id n s.passed_over, string_eq.beq_iff id n, k);
  }

  emit-Agrees :
      (s : State V) (id n : String) (status : Status) → (id ≡ n → ⊥) → Agrees s (emit id status s) n
  emit-Agrees s id n status k = record {
    report = get-put_other id n status s.report k;
    outputs = refl;
    dropped = refl;
  }

  Agrees-trans : (s t u : State V) (n : String) → Agrees s t n → Agrees t u n → Agrees s u n
  Agrees-trans s t u n a b = record {
    report = b.report ∙ a.report;
    outputs = b.outputs ∙ a.outputs;
    dropped = b.dropped ∙ a.dropped;
  }

  conclude-Agrees :
      (s : State V) (id n : String) (r : Result V) → (id ≡ n → ⊥) → Agrees s (conclude id r s) n
  conclude-Agrees s id n (produced made) k = record {
    report = get-put_other id n success s.report k;
    outputs = get-put_other id n made s.outputs k;
    dropped = refl;
  }
  conclude-Agrees s id n timed_out k = drop_node-Agrees s id n failed k
  conclude-Agrees s id n refused k = drop_node-Agrees s id n failed k
  conclude-Agrees s id n raised k = drop_node-Agrees s id n failed k

  module _ (edges : List Edge) where
    dropped_lem : (s : State V) (id : String) → contains id (insert id s.passed_over) ≡ true
    dropped_lem s id = ground (arith, contains-insert id id s.passed_over, string_eq.beq_iff id id)

    conclude-NodeEnd :
        (s : State V) (id : String) (r : Result V)
        → contains id s.passed_over ≡ false
        → ((e : Edge) → In e edges → e.dst ≡ id → Well s e.src)
        → ((e : Edge) → In e edges → e.dst ≡ id → id ≡ e.src → ⊥)
        → NodeEnd edges (conclude id r s) id
    conclude-NodeEnd s id r f up apart = go r (λ e m q.
        Well-Agrees s (conclude id r s) e.src (conclude-Agrees s id e.src r (apart e m q))
          (up e m q))
      where
        go :
            (r : Result V)
            → ((e : Edge) → In e edges → e.dst ≡ id → Well (conclude id r s) e.src)
            → NodeEnd edges (conclude id r s) id
        go (produced made) up' =
            succeeded
              (record {
                status = get-put_same id success s.report;
                made = made;
                outputs = get-put_same id made s.outputs;
                kept = f;
              })
              up'
        go timed_out up' = failed_alone (get-put_same id failed s.report) (dropped_lem s id) up'
        go refused up' = failed_alone (get-put_same id failed s.report) (dropped_lem s id) up'
        go raised up' = failed_alone (get-put_same id failed s.report) (dropped_lem s id) up'

module _ {V : Type 0} (values : Values V) (routes : String → Bool) (program : Option ScopeFields)
    (g : Graph) where
  gather-some :
      (outputs : Dict String (Dict String V)) (upstream : Dict String (String × String))
      → ((p : String × (String × String))
          → In p upstream
          → (made : Dict String V) × (get p.1.0 outputs ≡ some made))
      → (inputs : Dict String V) × (gather values routes program g outputs upstream ≡ some inputs)
  unfolding gather
  gather-some outputs [] h = ([], refl)
  gather-some outputs ((port, src) ∷ rest) h =
      let (made, q) = h (port, src) (here refl) in
      let (inputs, r) = gather-some outputs rest (λ p m. h p (there m)) in
      ((port, input values routes program g src.1 made) ∷ inputs, rw (q, r, gather) refl)

  module _ (specs : Dict String NodeSpec) (perform : String → Task V → Result V) where
    -- A round of the loop settles its node, unless its timeout is not a finite number.
    pub visit-IsUnderWay :
        (w : Wires) (done : List String) (s : State V) (id : String) (node : Node) (spec : NodeSpec)
        → get id g.nodes ≡ some node
        → get node.type specs ≡ some spec
        → IsWired g.edges w
        → IsUnderWay g.edges done s
        → (In id done → ⊥)
        → ((e : Edge) → In e g.edges → e.dst ≡ id → In e.src done)
        → ((is_finite node.timeout ≡ false)
            × (visit values routes program g specs perform w id s ≡ escapes timeout_error))
          ⊎ ((t : State V) × (visit values routes program g specs perform w id s ≡ goes_on t)
              × IsUnderWay g.edges (done ++ (id ∷ [])) t)
    unfolding visit visit_found
    visit-IsUnderWay w done s id node spec has_node has_spec wired h new ready =
        let upstream = get_or_empty id w in
        elim (Bool-cases (any (λ p. contains p.1.0 s.passed_over) upstream)) [
          | inl t ↦
              let (p, m, c) = any-true (λ p. contains p.1.0 s.passed_over) upstream t in
              let (e, i, to, from) = wired.sources id p m in
              let unwell =
                Unwell-dropped g.edges s e.src (h.ends e.src (ready e i to))
                  (ap (λ z. contains z s.passed_over) from ∙ c) in
              let next = drop_node id skipped s in
              inr (
                next,
                rw (has_node, has_spec, t, visit, visit_found) refl,
                IsUnderWay-step g.edges done s next id h new ready
                    (λ n k. drop_node-Agrees s id n skipped k)
                    (λ old.
                      passed_by (get-put_same id skipped s.report) (dropped_lem g.edges s id) e i to
                        (Unwell-Agrees s next e.src (old e.src (ready e i to)) unwell)),
              )
          | inr f ↦
              let well : (e : Edge) → In e g.edges → e.dst ≡ id → Well s e.src = (λ e m q.
                Well-kept g.edges s e.src (h.ends e.src (ready e m q)) (
                  any-false (λ p. contains p.1.0 s.passed_over) upstream f
                    (subst (λ z. In (e.dst_port, (e.src, e.src_port)) (get_or_empty z w)) q
                      (wired.covered e m)))) in
              let (inputs, gathers) = gather-some s.outputs upstream (λ p m.
                let (e, i, to, from) = wired.sources id p m in
                let k = well e i to in
                (k.made, ap (λ z. get z s.outputs) (sym from) ∙ k.outputs)) in
              let task = run_node values routes program g spec node inputs upstream s.outputs in
              let begun : State V =
                emit id running (record s { started = (id, task) ∷ s.started }) in
              let r = result_of values routes program g specs perform id task in
              let next = conclude id r begun in
              let start : (n : String) → (id ≡ n → ⊥) → Agrees s begun n = (λ n k. record {
                report = get-put_other id n running s.report k;
                outputs = refl;
                dropped = refl;
              }) in
              let differ : (n : String) → In n done → id ≡ n → ⊥ =
                (λ n i q. new (subst (λ z. In z done) (sym q) i)) in
              let kept : contains id s.passed_over ≡ false =
                elim (Bool-cases (contains id s.passed_over)) [
                  | inl t ↦ absurd (new (h.fresh id t))
                  | inr k ↦ k
                ] in
              elim (with_budget-cases node.timeout r next) [
                | inl (odd, e) ↦
                    inl (odd, rw (has_node, has_spec, f, gathers, visit, visit_found) e)
                | inr e ↦ inr (
                  next,
                  rw (has_node, has_spec, f, gathers, visit, visit_found) e,
                  IsUnderWay-step g.edges done s next id h new ready
                      (λ n k.
                        Agrees-trans s begun next n (start n k) (conclude-Agrees begun id n r k))
                      (λ old.
                        conclude-NodeEnd g.edges begun id r kept
                          (λ e m q.
                            Well-Agrees s begun e.src (start e.src (differ e.src (ready e m q)))
                              (well e m q))
                          (λ e m q. differ e.src (ready e m q))),
                )
              ]
        ]
