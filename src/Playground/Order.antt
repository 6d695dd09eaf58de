-- ===== src/Playground/Order.antt =====
-- core/playground.py: `_toposort`, Kahn's algorithm with the ready nodes kept sorted.
use Prim.Native.Char.{code}
use exact_surface.Prelude.{
  ℕ, zero, suc, String, Bool, true, false, not, ◌&&◌, ◌||◌, Option, none, some, List, [], ◌∷◌, ◌++◌,
  keep, ltb, nat_beq, length, if◌then◌else◌, ◌==◌, Dict, contains, insert, discard, string_eq,
}

-- (from_node, from_port, to_node, to_port)
pub record Edge : Type 0 where
  pub src : String
  pub src_port : String
  pub dst : String
  pub dst_port : String

-- `<=` on texts, by their code points.
abbrev pub codes : String → List ℕ
codes String.[] = []
codes (String.◌∷◌ c s) = code c ∷ codes s

abbrev pub codes_leb : List ℕ → List ℕ → Bool
codes_leb [] ys = true
codes_leb (x ∷ xs) [] = false
codes_leb (x ∷ xs) (y ∷ ys) = ltb x y || (nat_beq x y && codes_leb xs ys)

-- sorted(ids)
unfoldable pub insert_id : String → List String → List String
insert_id n [] = n ∷ []
insert_id n (x ∷ xs) = if codes_leb (codes n) (codes x) then n ∷ x ∷ xs else x ∷ insert_id n xs

unfoldable pub sort_ids : List String → List String
unfolding insert_id
sort_ids [] = []
sort_ids (n ∷ ns) = insert_id n (sort_ids ns)

-- node -> the nodes that it still waits for
abbrev pub Deps : Type 0
Deps = Dict String (List String)

-- {n: set() for n in graph.nodes}
unfoldable pub no_deps : List String → Deps
no_deps [] = []
no_deps (n ∷ ns) = (n, []) ∷ no_deps ns

-- deps[n].add(src), for a node n that is a key
unfoldable pub add_dep : String → String → Deps → Deps
unfolding insert
add_dep src dst [] = []
add_dep src dst ((n, d) ∷ deps) =
    if n == dst then (n, insert src d) ∷ deps else (n, d) ∷ add_dep src dst deps

unfoldable pub add_deps : List Edge → Deps → Deps
unfolding add_dep
add_deps [] deps = deps
add_deps (e ∷ es) deps = add_deps es (add_dep e.src e.dst deps)

abbrev pub is_empty : List String → Bool
is_empty [] = true
is_empty (x ∷ xs) = false

-- [n for n, d in deps.items() if not d]
unfoldable pub free_nodes : Deps → List String
free_nodes [] = []
free_nodes ((n, d) ∷ deps) = let rest = free_nodes deps in if is_empty d then n ∷ rest else rest

-- `node in d`, and the test after the discard
abbrev pub frees : String → List String → List String → String → List String → Bool
frees node order ready other d =
    contains node d
    && (is_empty (discard node d) && (not (contains other order) && not (contains other ready)))

-- `ready` after one round.
abbrev pub grown : Bool → List String → String → List String
grown b ready other = if b then ready ++ (other ∷ []) else ready

-- The inner loop: the new dict, and the nodes that `ready` gains.
unfoldable pub release : String → List String → List String → Deps → Deps × List String
unfolding discard contains
release node order ready [] = ([], [])
release node order ready ((other, d) ∷ deps) =
    let free = frees node order ready other d in
    let rest = release node order (grown free ready other) deps in
    ((other, discard node d) ∷ rest.0, if free then other ∷ rest.1 else rest.1)

-- `while ready` on fuel; `none` means that the fuel ran out.
unfoldable pub kahn : ℕ → Deps → List String → List String → Option (List String)
unfolding release sort_ids
kahn zero deps order ready = none
kahn (suc fuel) deps order [] = some order
kahn (suc fuel) deps order (node ∷ ready) =
    let done = order ++ (node ∷ []) in
    let next = release node done ready deps in kahn fuel next.0 done (sort_ids (ready ++ next.1))

-- `_toposort` up to the test of the length.
unfoldable pub toposort : List String → List Edge → Option (List String)
unfolding kahn no_deps add_deps free_nodes
toposort nodes edges =
    let deps = add_deps edges (no_deps nodes) in
    kahn (suc (length nodes)) deps [] (sort_ids (free_nodes deps))

abbrev pub first_id : List String → String
first_id [] = ""
first_id (n ∷ ns) = n

-- The node of the error, `sorted(set(graph.nodes) - set(order))[0]`; none where the lengths agree.
unfoldable pub stuck_node : List String → List String → Option String
unfolding sort_ids contains
stuck_node nodes order =
    if nat_beq (length order) (length nodes)
    then none
    else some (first_id (sort_ids (keep (λ n. not (contains n order)) nodes)))
