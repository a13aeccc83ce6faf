-- ===== src/Compiler/Graph/Cycle.antt =====
-- `_find_cycle` of compiler/graph.py: the depth-first search with its three collections. Sets are
-- lists with the newest element first, the path has its newest node at the end. The fuel bounds the
-- depth of the recursion.
pub mod Walk
pub mod Order
pub mod Fuel
pub mod Closed
pub mod Exact
use multiverse.Base.{
  ℕ, zero, suc, String, List, [], ◌∷◌, ◌++◌, true, false, length, str_eq, if◌then◌else◌,
}
use multiverse.Base.Member.{has}
use multiverse.Compiler.Graph.Edges.{Adjacency, targets, keys}

pub record Dfs : Type 0 where
  pub visiting : List String
  pub visited : List String
  pub path : List String

-- `cleared` is the result None, with the state that the call leaves.
pub data Outcome : Type 0 where
  cleared : Dfs → Outcome
  found : List String → Outcome
  out_of_fuel : Outcome

-- `path[path.index(v):]`; `v` is in the path wherever this is called.
unfoldable pub from : String → List String → List String
from v [] = []
from v (x ∷ xs) = if str_eq x v then x ∷ xs else from v xs

-- `visiting.remove(v)`
unfoldable pub remove : String → List String → List String
remove v [] = []
remove v (x ∷ xs) = if str_eq x v then xs else x ∷ remove v xs

-- `path.pop()`
unfoldable pub drop_last : List String → List String
drop_last [] = []
drop_last (x ∷ []) = []
drop_last (x ∷ y ∷ xs) = x ∷ drop_last (y ∷ xs)

abbrev pub enter : String → Dfs → Dfs
enter v s = record s { visiting = v ∷ s.visiting; path = s.path ++ v ∷ [] }

unfoldable pub leave : String → Dfs → Dfs
unfolding remove drop_last
leave v s = record {
  visiting = remove v s.visiting;
  visited = v ∷ s.visited;
  path = drop_last s.path;
}

-- a loop over nodes that returns the first cycle
unfoldable pub scan : (String → Dfs → Outcome) → List String → Dfs → Outcome
scan visit [] s = cleared s
scan visit (t ∷ ts) s = elim (visit t s) [
  | cleared s' ↦ scan visit ts s'
  | found c ↦ found c
  | out_of_fuel ↦ out_of_fuel
]

-- the end of `visit`, after its loop
unfoldable pub finish : String → Outcome → Outcome
unfolding leave
finish v (cleared s) = cleared (leave v s)
finish v (found c) = found c
finish v out_of_fuel = out_of_fuel

module _ (m : Adjacency) where
  unfoldable pub visit : ℕ → String → Dfs → Outcome
  unfolding has from scan finish targets
  visit zero v s = out_of_fuel
  visit (suc fuel) v s = elim (has s.visiting v) [
    | true ↦ found (from v s.path ++ v ∷ [])
    | false ↦ elim (has s.visited v) [
      | true ↦ cleared s
      | false ↦ finish v (scan (visit fuel) (targets m v) (enter v s))
    ]
  ]

  unfoldable pub find_cycle : Outcome
  unfolding visit scan
  find_cycle =
      scan (visit (suc (length m))) (keys m) (record { visiting = []; visited = []; path = [] })
