-- ===== src/Playground/Acyclic.antt =====
-- core/playground.py `_toposort` with its error: a workflow is ordered exactly where it has no loop.
use exact_surface.Prelude.{
  ℕ, zero, suc, ◌≤◌, ◌<◌, String, ◌≡◌, refl, ap, not, keep, contains, List, leb, nat_beq, length,
  arith, In, inl, inr, keys, string_eq, Bool-cases,
}
use exact_surface.Playground.Order.{Edge, stuck_node, first_id, sort_ids}
use exact_surface.Playground.Counting.{times, In-times, length-times, length-times_strict}
use exact_surface.Playground.Topological.{Precedes, IsOrder}
use exact_surface.Playground.Ordered.{toposort-IsOrder}
use exact_surface.Playground.{Graph, Checked, ok, graph_error, loops, check_order}

-- A number for each node that grows along every edge.
abbrev pub IsRanking : List Edge → (String → ℕ) → Type 0
IsRanking edges rank = (e : Edge) → In e edges → rank e.src < rank e.dst

-- The order of a whole workflow.
pub record IsPlan (nodes : List String) (edges : List Edge) (order : List String) : Type 0 where
  pub each_once : (n : String) → times n order ≡ times n nodes
  pub placed : (e : Edge) → In e edges → Precedes e.src e.dst order

-- The answer, and what it shows of the workflow.
pub data Sorted (nodes : List String) (edges : List Edge) (answer : Checked (List String))
    : Type 0 where
  planned :
      (order : List String)
      → answer ≡ ok order
      → IsPlan nodes edges order
      → Sorted nodes edges answer
  looped :
      (id : String)
      → answer ≡ graph_error loops id
      → ((rank : String → ℕ) → IsRanking edges rank → ⊥)
      → Sorted nodes edges answer

module _ (nodes : List String) (edges : List Edge) (single : (x : String) → times x nodes ≤ 1) where
  full_lem :
      (order : List String)
      → IsOrder nodes edges order
      → length order ≡ length nodes
      → (n : String) → times n order ≡ times n nodes
  full_lem order h q n = elim (Bool-cases (leb (times n nodes) (times n order))) [
    | inl t ↦ ground (arith, t, h.once n)
    | inr f ↦
        absurd
          (omega (arith, q, length-times_strict n order nodes (λ x. h.once x) (ground (arith, f))))
  ]

  ranked_lem :
      (order : List String)
      → IsOrder nodes edges order
      → ((e : Edge) → In e edges → In e.src nodes)
      → (rank : String → ℕ) → IsRanking edges rank
      → (fuel : ℕ) (n : String) → rank n < fuel
      → 1 ≤ times n nodes
      → 1 ≤ times n order
  ranked_lem order h ends rank r zero n k m = absurd (omega arith)
  ranked_lem order h ends rank r (suc fuel) n k m = elim (Bool-cases (leb 1 (times n order))) [
    | inl t ↦ ground (arith, t)
    | inr f ↦
        let (e, i, q, z) = h.loops n m (ground (arith, f)) in
        let lower : rank e.src < fuel = omega (arith, r e i, k, ap rank q) in
        let ih =
          ranked_lem order h ends rank r fuel e.src lower (In-times e.src nodes (ends e i)) in
        absurd (omega (arith, ih, z))
  ]

  ranked_length :
      (order : List String)
      → IsOrder nodes edges order
      → ((e : Edge) → In e edges → In e.src nodes)
      → (rank : String → ℕ) → IsRanking edges rank
      → length order ≡ length nodes
  ranked_length order h ends rank r =
      let some_times : (x : String) → times x nodes ≤ times x order = (λ x.
        elim (Bool-cases (leb 1 (times x nodes))) [
          | inl t ↦ ground (
            arith,
            single x,
            ranked_lem order h ends rank r (suc (rank x)) x (omega arith) (ground (arith, t)),
          )
          | inr f ↦ ground (arith, f)
        ]) in
      omega (arith, length-times nodes order some_times, length-times order nodes (λ x. h.once x))

-- For a workflow whose nodes have different names and whose edges join its nodes, `_toposort` returns: either
-- with a list that holds each node exactly once and each behind all that it is wired to, or, and
-- only where the edges loop, with the error.
pub check_order-Sorted :
    (g : Graph)
    → ((x : String) → times x (keys g.nodes) ≤ 1)
    → ((e : Edge) → In e g.edges → In e.src (keys g.nodes) × In e.dst (keys g.nodes))
    → Sorted (keys g.nodes) g.edges (check_order g)
unfolding check_order stuck_node
check_order-Sorted g single ends =
    let nodes = keys g.nodes in
    let (order, returns, h) = toposort-IsOrder nodes g.edges single in
    elim (Bool-cases (nat_beq (length order) (length nodes))) [
      | inl t ↦
          let each = full_lem nodes g.edges single order h (ground (arith, t)) in
          planned order (rw (returns, t, check_order, stuck_node) refl) (record {
            each_once = each;
            placed =
                λ e m. h.placed e m (omega (arith, each e.dst, In-times e.dst nodes (ends e m).1));
          })
      | inr f ↦
          looped (first_id (sort_ids (keep (λ n. not (contains n order)) nodes)))
            (rw (returns, f, check_order, stuck_node) refl)
            (λ rank r. absurd (
              ground (
                arith,
                f,
                ranked_length nodes g.edges single order h (λ e m. (ends e m).0) rank r,
              )))
    ]
