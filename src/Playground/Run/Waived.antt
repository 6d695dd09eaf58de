-- ===== src/Playground/Run/Waived.antt =====
-- pipelines/playground.py `run_workflow`: what it starts under an ephemeral scope.
use exact_surface.Prelude.{
  String, ◌≡◌, refl, ap, ◌∙◌, subst, Bool, true, false, not, ◌&&◌, Option, none, some, List, [],
  ◌∷◌, any, any-false, arith, In, All-In, inl, inr, get, get-In, contains, string_eq, Bool-cases,
  Option-cases, Dict,
}
use mathlib.Core.Option.{some-injective}
use exact_surface.Scope.Host.{Text}
use exact_surface.Scope.Engine.{ProgramScope}
use exact_surface.Scope.Confirm.{Program as ScopeFields}
use exact_surface.Playground.{NodeSpec, Node, Graph, Checked, ok, graph_error, validate}
use exact_surface.Playground.Run.{
  Wires, get_or_empty, Values, Task, scans_freeform, Result, State, new_state, is_target, run_node,
  gather, running, emit, result_of, visit_found, visit, visit_all, Answer, finished, run_valid,
  run_workflow, incoming_of, goes_on,
}
use exact_surface.Playground.Run.Rounds.{goes_on-injective, Round-cases, with_budget-goes_on}
use exact_surface.Playground.Run.Freeform.{
  IsWaived, Grounded, IsCovered, run_node-Grounded, conclude-IsCovered,
}

module _ {V : Type 0} (values : Values V) (routes : String → Bool) (program : Option ScopeFields)
    (g : Graph) where
  module _ (specs : Dict String NodeSpec) (perform : String → Task V → Result V) where
    found-IsCovered :
        (w : Wires) (id : String) (spec : NodeSpec) (node : Node) (s t : State V)
        → IsCovered values routes program g w s
        → visit_found values routes program g specs perform id spec node (get_or_empty id w) s
          ≡ goes_on t
        → IsCovered values routes program g w t
    unfolding visit_found
    found-IsCovered w id spec node s t h q =
        let up = get_or_empty id w in
        elim (Bool-cases (any (λ p. contains p.1.0 s.passed_over) up)) [
          | inl b ↦
              subst (IsCovered values routes program g w)
                (goes_on-injective _ _ (rw (b, visit_found) at q)) h
          | inr f ↦ elim (Option-cases (gather values routes program g s.outputs up)) [
            | inl n ↦ let z = rw (f, n, visit_found) at q in cc
            | inr (inputs, e) ↦
                let task = run_node values routes program g spec node inputs up s.outputs in
                let begun : State V =
                  emit id running (record s { started = (id, task) ∷ s.started }) in
                subst (IsCovered values routes program g w)
                  (with_budget-goes_on node.timeout
                    (result_of values routes program g specs perform id task) _ t
                    (rw (f, e, visit_found) at q))
                  (conclude-IsCovered values routes program g w id
                    (result_of values routes program g specs perform id task) begun
                    (run_node-Grounded values routes program g spec node inputs up s.outputs, h))
          ]
        ]

    visit-IsCovered :
        (w : Wires) (id : String) (s t : State V)
        → IsCovered values routes program g w s
        → visit values routes program g specs perform w id s ≡ goes_on t
        → IsCovered values routes program g w t
    unfolding visit
    visit-IsCovered w id s t h q = elim (Option-cases (get id g.nodes)) [
      | inl n ↦ let z = rw (n, visit) at q in cc
      | inr (node, e) ↦ elim (Option-cases (get node.type specs)) [
        | inl n ↦ let z = rw (e, n, visit) at q in cc
        | inr (spec, k) ↦ found-IsCovered w id spec node s t h (rw (e, k, visit) at q)
      ]
    ]

    visit_all-IsCovered :
        (w : Wires) (ids : List String) (s t : State V)
        → IsCovered values routes program g w s
        → visit_all values routes program g specs perform w ids s ≡ goes_on t
        → IsCovered values routes program g w t
    unfolding visit_all
    visit_all-IsCovered w [] s t h q =
        subst (IsCovered values routes program g w) (goes_on-injective _ _ q) h
    visit_all-IsCovered w (id ∷ ids) s t h q =
        elim (Round-cases (visit values routes program g specs perform w id s)) [
          | inl (c, n) ↦ let z = rw (n, visit_all) at q in cc
          | inr (u, e) ↦
              visit_all-IsCovered w ids u t (visit-IsCovered w id s u h e) (rw (e, visit_all) at q)
        ]

    state_of : Answer V → Option (State V)
    state_of (finished order s freeform) = some s
    state_of _ = none

    run_valid-parts :
        (is_owner : Bool) (order : List String) (found : Option Wires) (s : State V)
        → state_of (run_valid values routes program g specs perform is_owner order found) ≡ some s
        → (w : Wires) × (found ≡ some w)
          × (visit_all values routes program g specs perform w order
                (new_state values routes program g specs perform)
              ≡ goes_on s)
          × ((any (λ p. is_target p.1) g.nodes && not is_owner) ≡ false)
    unfolding run_valid state_of
    run_valid-parts is_owner order none s h = cc
    run_valid-parts is_owner order (some w) s h =
        elim (Bool-cases (any (λ p. is_target p.1) g.nodes && not is_owner)) [
          | inl b ↦ let z = rw (b, run_valid, state_of) at h in cc
          | inr f ↦
              elim (Round-cases (
                visit_all values routes program g specs perform w order
                  (new_state values routes program g specs perform))) [
                    | inl (c, n) ↦ let z = rw (f, n, run_valid, state_of) at h in cc
                    | inr (t, e) ↦ (
                      w,
                      refl,
                      e ∙ ap goes_on (some-injective t s (rw (f, e, run_valid, state_of) at h)),
                      f,
                    )
                  ]
        ]

    -- What a run shows of a task that it started under an ephemeral scope.
    pub record IsDrawn (is_owner : Bool) (id : String) (scope : ProgramScope) : Type 0 where
      pub owner : is_owner ≡ true
      pub wires : Wires
      pub drawn : incoming_of g ≡ some wires
      pub waived : IsWaived values routes program g (get_or_empty id wires) scope

    pub run_workflow-IsDrawn :
        (is_owner : Bool) (order : List String) (s : State V) (freeform : Bool)
        → (id name : String) (scope : ProgramScope) (targets : List Text)
        → run_workflow values routes program g specs perform is_owner ≡ finished order s freeform
        → In (id, scans_freeform name scope targets) s.started
        → IsDrawn is_owner id scope
    unfolding run_workflow state_of
    run_workflow-IsDrawn is_owner order s freeform id name scope targets h m =
        go (validate specs g) refl
      where
        go : (r : Checked (List String)) → validate specs g ≡ r → IsDrawn is_owner id scope
        go (graph_error fault n) q = let z = rw (q, run_workflow) at h in cc
        go (ok found) q =
            let state : state_of (run_workflow values routes program g specs perform is_owner)
                ≡ some s =
              ap state_of h in
            let (w, drawn, ran, owner) =
              run_valid-parts is_owner found (incoming_of g) s
                (rw (q, run_workflow, state_of) at state) in
            let covered =
              visit_all-IsCovered w found (new_state values routes program g specs perform) s tt
                ran in
            let waived =
              All-In (λ p. Grounded values routes program g (get_or_empty p.0 w) p.1) s.started
                covered m in
            record {
              owner = elim (Option-cases (get waived.wire.1.0 g.nodes)) [
                | inl n ↦ let z = rw n at waived.from_target in cc
                | inr (node, e) ↦
                    let target : is_target node ≡ true = rw e at waived.from_target in
                    elim (Bool-cases (any (λ p. is_target p.1) g.nodes)) [
                      | inl t ↦ ground (arith, t, owner)
                      | inr f ↦ absurd (
                          ground (
                            arith,
                            target,
                            any-false (λ p. is_target p.1) g.nodes f
                                (get-In waived.wire.1.0 g.nodes e),
                          ))
                    ]
              ];
              wires = w;
              drawn = drawn;
              waived = waived;
            }
