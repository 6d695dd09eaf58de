-- ===== src/Playground/Run/Follows.antt =====
-- pipelines/playground.py: the order of a canvas as the loop of `run_workflow` meets it.
use exact_surface.Prelude.{
  ◌≤◌, String, ◌≡◌, refl, ap, sym, ◌∙◌, subst, List, [], ◌∷◌, ◌++◌, arith, In, here, there, In-cons,
  inl, inr, string_eq,
}
use mathlib.Core.List.{append_assoc, head-eq_of_cons-eq, tail-eq_of_cons-eq}
use exact_surface.Playground.Order.{Edge}
use exact_surface.Playground.Counting.{times, times-append}
use exact_surface.Playground.Acyclic.{IsPlan}

-- Each node comes when all that it is wired to are through.
abbrev pub Follows : List Edge → List String → List String → Type 0
Follows edges done [] = Unit
Follows edges done (n ∷ ns) =
    ((e : Edge) → In e edges → e.dst ≡ n → In e.src done) × Follows edges (done ++ (n ∷ [])) ns

-- A node stands at one place only.
In-prefix :
    (done rest pre post : List String) (n s : String)
    → done ++ (n ∷ rest) ≡ pre ++ (n ∷ post)
    → times n (done ++ (n ∷ rest)) ≤ 1
    → In s pre
    → In s done
unfolding times
In-prefix done rest [] post n s q h m = elim m [ ]
In-prefix [] rest (p ∷ pre) post n s q h m =
    let twice : times n (n ∷ rest) ≡ times n (p ∷ (pre ++ (n ∷ post))) = ap (times n) q in
    let head : n ≡ p = head-eq_of_cons-eq q in
    absurd (
      ground (
        arith,
        h,
        twice,
        string_eq.beq_iff p n,
        sym head,
        string_eq.beq_iff n n,
        times-append n pre (n ∷ post),
      ))
In-prefix (d ∷ done) rest (p ∷ pre) post n s q h m = elim (In-cons m) [
  | inl e ↦ here (e ∙ sym (head-eq_of_cons-eq q))
  | inr i ↦ there (In-prefix done rest pre post n s (tail-eq_of_cons-eq q) (omega (arith, h)) i)
]

module _ (nodes : List String) (edges : List Edge) (order : List String)
    (plan : IsPlan nodes edges order) where
  Follows_lem :
      (done rest : List String)
      → ((x : String) → times x nodes ≤ 1)
      → order ≡ done ++ rest
      → Follows edges done rest
  Follows_lem done [] single q = tt
  Follows_lem done (n ∷ ns) single q = (
    λ e m t.
        let (pre, post, eq, i) = plan.placed e m in
        let once : times n (done ++ (n ∷ ns)) ≤ 1 =
          subst (λ o. times n o ≤ 1) q (omega (arith, plan.each_once n, single n)) in
        In-prefix done ns pre post n e.src (sym q ∙ eq ∙ ap (λ z. pre ++ (z ∷ post)) t) once i,
    Follows_lem (done ++ (n ∷ [])) ns single (q ∙ sym (append_assoc done (n ∷ []) ns)),
  )

  pub IsPlan-Follows : ((x : String) → times x nodes ≤ 1) → Follows edges [] order
  IsPlan-Follows single = Follows_lem [] order single refl
