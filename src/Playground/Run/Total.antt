-- ===== src/Playground/Run/Total.antt =====
-- pipelines/playground.py `run_workflow`: a call ends, and every node has its end.
use exact_surface.Prelude.{
  ◌≤◌, String, ◌≡◌, refl, sym, subst, Bool, true, false, not, ◌&&◌, Option, some, List, [], ◌∷◌,
  ◌++◌, any, arith, In, here, there, All-In, inl, inr, ◌⊎◌, get, keys, contains, In-keys-get,
  Entries, Entries-get, string_eq, Bool-cases, Dict,
}
use mathlib.Core.List.{append_assoc, append-nil}
use exact_surface.Scope.Confirm.{Program as ScopeFields}
use exact_surface.Playground.Counting.{times, times-append, times-In, In-times}
use exact_surface.Playground.{NodeSpec, Node, Graph, Fault, Checked, ok, graph_error, validate}
use exact_surface.Playground.Ready.{IsRunnable, IsReady, validate-IsRunnable}
use exact_surface.Playground.Run.{
  Wires, Values, Task, Result, State, new_state, is_target, Answer, invalid, owner_only, finished,
  visit_all, run_valid, run_workflow, incoming_of, crashed, goes_on, escapes, timeout_error,
}
use exact_surface.Playground.Run.Rounds.{is_finite}
use exact_surface.Playground.Run.Wired.{IsWired, incoming_of-IsWired}
use exact_surface.Playground.Run.Follows.{Follows, IsPlan-Follows}
use exact_surface.Playground.Run.Ends.{NodeEnd, IsUnderWay}
use exact_surface.Playground.Run.Visits.{visit-IsUnderWay}

module _ {V : Type 0} (values : Values V) (routes : String → Bool) (program : Option ScopeFields)
    (g : Graph) where
  module _ (specs : Dict String NodeSpec) (perform : String → Task V → Result V) where
    -- How a call of `run_workflow` ends.
    pub data Ends (is_owner : Bool) (answer : Answer V) : Type 0 where
      is_invalid :
          (fault : Fault) (id : String)
          → validate specs g ≡ graph_error fault id
          → answer ≡ invalid fault id
          → Ends is_owner answer
      is_refused :
          is_owner ≡ false
          → any (λ p. is_target p.1) g.nodes ≡ true
          → answer ≡ owner_only
          → Ends is_owner answer
      is_broken :
          (order : List String) (n : String) (node : Node)
          → IsRunnable specs g order
          → get n g.nodes ≡ some node
          → is_finite node.timeout ≡ false
          → answer ≡ crashed timeout_error
          → Ends is_owner answer
      is_finished :
          (order : List String) (s : State V) (freeform : Bool)
          → IsRunnable specs g order
          → (freeform ≡ true → is_owner ≡ true)
          → ((n : String) → In n (keys g.nodes) → NodeEnd g.edges s n)
          → answer ≡ finished order s freeform
          → Ends is_owner answer

    visit_all-IsUnderWay :
        (w : Wires) (done rest : List String) (s : State V)
        → Entries (λ id node. IsReady specs g.edges id node) g.nodes
        → ((x : String) → In x rest → In x (keys g.nodes))
        → ((x : String) → times x (done ++ rest) ≤ 1)
        → IsWired g.edges w
        → Follows g.edges done rest
        → IsUnderWay g.edges done s
        → ((n : String) × (node : Node) × (get n g.nodes ≡ some node)
            × (is_finite node.timeout ≡ false)
            × (visit_all values routes program g specs perform w rest s ≡ escapes timeout_error))
          ⊎ ((t : State V) × (visit_all values routes program g specs perform w rest s ≡ goes_on t)
              × IsUnderWay g.edges (done ++ rest) t)
    unfolding visit_all times
    visit_all-IsUnderWay w done [] s ready inside once wired f h =
        inr (s, refl, subst (λ d. IsUnderWay g.edges d s) (sym (append-nil done)) h)
    visit_all-IsUnderWay w done (id ∷ ids) s ready inside once wired f h =
        let (node, has_node) = In-keys-get id g.nodes (inside id (here refl)) in
        let r = Entries-get _ id node g.nodes ready has_node in
        let new : In id done → ⊥ = (λ m. absurd (
          ground (
            arith,
            once id,
            times-append id done (id ∷ ids),
            In-times id done m,
            string_eq.beq_iff id id,
          ))) in
        let same = append_assoc done (id ∷ []) ids in
        elim (visit-IsUnderWay values routes program g specs perform w done s id node r.spec
          has_node r.has_spec wired h new f.0) [
            | inl (odd, e) ↦ inl (id, node, has_node, odd, rw (e, visit_all) refl)
            | inr (t, returns, k) ↦
                elim (visit_all-IsUnderWay w (done ++ (id ∷ [])) ids t ready
                  (λ x m. inside x (there m)) (λ x. subst (λ d. times x d ≤ 1) (sym same) (once x))
                  wired f.1 k) [
                    | inl (n, other, has, odd, e) ↦
                        inl (n, other, has, odd, rw (returns, visit_all) e)
                    | inr (u, more, l) ↦ inr (
                      u,
                      rw (returns, visit_all) more,
                      subst (λ d. IsUnderWay g.edges d u) same l,
                    )
                  ]
          ]

    run_valid-Ends :
        (is_owner : Bool) (order : List String)
        → ((x : String) → times x (keys g.nodes) ≤ 1)
        → IsRunnable specs g order
        → Ends is_owner
            (run_valid values routes program g specs perform is_owner order (incoming_of g))
    unfolding run_valid contains
    run_valid-Ends is_owner order single h =
        let (w, returns, wired) =
          incoming_of-IsWired g h.once (λ e m. (All-In _ g.edges h.joined m).to_node) in
        let start = new_state values routes program g specs perform in
        let ran =
          visit_all-IsUnderWay w [] order start h.ready
            (λ x m.
              times-In x (keys g.nodes)
                (subst (λ q. 1 ≤ q) (h.plan.each_once x) (In-times x order m)))
            (λ x. subst (λ q. q ≤ 1) (sym (h.plan.each_once x)) (single x)) wired
            (IsPlan-Follows (keys g.nodes) g.edges order h.plan single)
            (record { ends = λ n m. elim m [ ]; fresh = λ n c. cc; closed = λ n m. elim m [ ] }) in
        let freeform = any (λ p. is_target p.1) g.nodes in
        elim (Bool-cases (freeform && not is_owner)) [
          | inl b ↦
              is_refused (ground (arith, b)) (ground (arith, b))
                (rw (returns, run_valid) (rw b refl))
          | inr f ↦ elim ran [
            | inl (n, node, has, odd, e) ↦
                is_broken order n node h has odd (rw (returns, run_valid) (rw (f, e) refl))
            | inr (t, e, k) ↦
                is_finished order t freeform h (λ b. ground (arith, f, b))
                  (λ n m. k.ends n (
                    times-In n order (
                      subst (λ q. 1 ≤ q) (sym (h.plan.each_once n)) (In-times n (keys g.nodes) m))))
                  (rw (returns, run_valid) (rw (f, e) refl))
          ]
        ]

    pub run_workflow-Ends :
        (is_owner : Bool)
        → ((x : String) → times x (keys g.nodes) ≤ 1)
        → Ends is_owner (run_workflow values routes program g specs perform is_owner)
    unfolding run_workflow
    run_workflow-Ends is_owner single = go (validate specs g) refl
      where
        go :
            (r : Checked (List String))
            → validate specs g ≡ r
            → Ends is_owner (run_workflow values routes program g specs perform is_owner)
        go (graph_error fault id) q = is_invalid fault id q (rw (q, run_workflow) refl)
        go (ok order) q =
            subst (Ends is_owner) (sym (rw (q, run_workflow) refl))
              (run_valid-Ends is_owner order single (validate-IsRunnable specs g order single q))
