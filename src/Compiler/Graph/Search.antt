-- ===== src/Compiler/Graph/Search.antt =====
-- `_reachable` and `_can_reach_end` of compiler/graph.py. The stack is a list with its top first;
-- the result, a set, is the list of its elements. Each round of the loop takes one of the fuel.
pub mod Loop
pub mod Exact
use multiverse.Base.{
  ℕ, zero, suc, ◌+◌, String, List, [], ◌∷◌, Option, none, some, Bool, true, false, length,
  if◌then◌else◌,
}
use multiverse.Base.Member.{has}
use multiverse.Compiler.Graph.Edges.{Adjacency, targets}

-- `stack.extend(ts)`
pub extend : List String → List String → List String
extend [] stack = stack
extend (t ∷ ts) stack = extend ts (t ∷ stack)

-- the number of edges
unfoldable pub edge_count : Adjacency → ℕ
edge_count [] = 0
edge_count ((k, ts) ∷ m) = length ts + edge_count m

module _ (m : Adjacency) where
  -- `none` means that the fuel is used up.
  unfoldable pub search_loop : ℕ → List String → List String → Option (List String)
  unfolding has targets extend
  search_loop fuel [] result = some result
  search_loop zero (v ∷ stack) result = none
  search_loop (suc fuel) (v ∷ stack) result = elim (has result v) [
    | true ↦ search_loop fuel stack result
    | false ↦ search_loop fuel (extend (targets m v) stack) (v ∷ result)
  ]

  unfoldable pub reachable : String → Option (List String)
  unfolding search_loop edge_count
  reachable entry = search_loop (suc (edge_count m)) (entry ∷ []) []

-- `bool(result & end_nodes)`
unfoldable pub meets : List String → List String → Bool
unfolding has
meets [] ends = false
meets (v ∷ vs) ends = if has ends v then true else meets vs ends

unfoldable pub can_reach_end : Adjacency → String → List String → Option Bool
unfolding reachable meets
can_reach_end m v ends = elim (reachable m v) [ none ↦ none | some vs ↦ some (meets vs ends) ]
