-- ===== src/Playground/Ordered.antt =====
-- core/playground.py `_toposort`: what the rounds start from, and that they end.
use exact_surface.Prelude.{
  ℕ, zero, suc, ◌+◌, ◌≤◌, ◌<◌, String, ◌≡◌, refl, sym, ◌∙◌, subst, some, List, [], ◌∷◌, ◌++◌,
  length, length-append, arith, In, inl, inr, ◌⊎◌, keys, string_eq, Entries,
}
use exact_surface.Playground.Order.{
  Deps, Edge, sort_ids, release, kahn, no_deps, add_deps, free_nodes, toposort,
}
use exact_surface.Playground.Counting.{times, times-sort_ids, contains-times, length-times}
use exact_surface.Playground.Waiting.{Entry, Entries-map}
use exact_surface.Playground.Topological.{IsSorting, IsOrder, IsSorting-IsOrder, IsSorting-step}
use exact_surface.Playground.Built.{
  Built, keys-no_deps, Built-no_deps, keys-add_deps, Built-add_deps, free_nodes-keys,
  free_nodes-Entries, Entries-both,
}

abbrev waits : List String → List Edge → Deps
waits nodes edges = add_deps edges (no_deps nodes)

module _ (nodes : List String) (edges : List Edge) (single : (x : String) → times x nodes ≤ 1) where
  keys_lem : keys (waits nodes edges) ≡ nodes
  keys_lem = keys-add_deps edges (no_deps nodes) ∙ keys-no_deps nodes

  single_keys : (x : String) → times x (keys (waits nodes edges)) ≤ 1
  single_keys x = subst (λ ks. times x ks ≤ 1) (sym keys_lem) (single x)

  ready_times :
      (x : String)
      → times x (sort_ids (free_nodes (waits nodes edges)))
        ≡ times x (free_nodes (waits nodes edges))
  ready_times x = times-sort_ids x (free_nodes (waits nodes edges))

  free_bound : (x : String) → times x (free_nodes (waits nodes edges)) ≤ times x nodes
  free_bound x =
      subst (λ ks. times x (free_nodes (waits nodes edges)) ≤ times x ks) keys_lem
        (free_nodes-keys x (waits nodes edges))

  built : Entries (Built (λ e. ⊥ ⊎ In e edges)) (waits nodes edges)
  built =
      Built-add_deps (λ e. ⊥) edges (no_deps nodes)
        (λ x. subst (λ ks. times x ks ≤ 1) (sym (keys-no_deps nodes)) (single x))
        (Built-no_deps nodes)

  real : (e : Edge) → ⊥ ⊎ In e edges → In e edges
  real e (inl z) = elim z [ ]
  real e (inr m) = m

  Entries-start :
      Entries
        (λ n d.
          Entry edges [] (times n [] + times n (sort_ids (free_nodes (waits nodes edges)))) n d)
        (waits nodes edges)
  unfolding times
  Entries-start =
      Entries-map (waits nodes edges)
        (λ n d k b.
          let c = λ (s : String). contains-times s d in
          let r = ready_times n in
          record {
            known = λ e m t. ground (arith, b.0.known e (inr m) t, c e.src);
            freed = λ v. ground (arith, b.1, v, r);
            vacant = λ p. ground (arith, b.1, p, r);
            pending = λ s p. refl;
            origin = λ s p.
                let o = b.0.origin s (ground (arith, c s, p)) in (o.0, real o.0 o.1, o.2, o.3);
          })
        (Entries-both _ _ (waits nodes edges) built
          (free_nodes-Entries (waits nodes edges) single_keys))

  IsSorting-start :
      IsSorting nodes edges (waits nodes edges) [] (sort_ids (free_nodes (waits nodes edges)))
  unfolding times
  IsSorting-start = record {
    single = single;
    keyed = keys_lem;
    entries = Entries-start;
    once = λ x. omega (arith, ready_times x, free_bound x, single x);
    inside = λ x. omega (arith, ready_times x, free_bound x);
    placed = λ n k e m t. absurd (omega (arith, k));
  }

  kahn-IsOrder :
      (fuel : ℕ) (deps : Deps) (order ready : List String)
      → IsSorting nodes edges deps order ready
      → length nodes < fuel + length order
      → (result : List String) × (kahn fuel deps order ready ≡ some result)
        × IsOrder nodes edges result
  unfolding kahn
  kahn-IsOrder zero deps order ready h k =
      absurd (omega (arith, k, length-times order nodes (λ x. omega (arith, h.inside x))))
  kahn-IsOrder (suc fuel) deps order [] h k =
      (order, refl, IsSorting-IsOrder nodes edges deps order h)
  kahn-IsOrder (suc fuel) deps order (node ∷ ready) h k =
      let done = order ++ (node ∷ []) in
      let next = release node done ready deps in
      kahn-IsOrder fuel next.0 done (sort_ids (ready ++ next.1))
        (IsSorting-step nodes edges deps order ready node h)
        (omega (arith, k, length-append order (node ∷ [])))

  -- `_toposort` ends, and its list is an order of the nodes.
  pub toposort-IsOrder :
      (order : List String) × (toposort nodes edges ≡ some order) × IsOrder nodes edges order
  unfolding toposort
  toposort-IsOrder =
      kahn-IsOrder (suc (length nodes)) (waits nodes edges) []
        (sort_ids (free_nodes (waits nodes edges))) IsSorting-start (omega arith)
