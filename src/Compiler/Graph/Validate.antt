-- ===== src/Compiler/Graph/Validate.antt =====
-- `validate_graph` of compiler/graph.py, and `_escape`. A diagnostic has its code, its file and its
-- pointer, and the nodes that its message names; the wording of messages and suggestions is left out.
-- `none` means that a search has used up its fuel.
use Prim.Native.Char.{code}
use multiverse.Base.{ℕ, String, List, [], ◌∷◌, ◌++◌, Option, none, some, if◌then◌else◌, ◌==◌}
use multiverse.Base.Member.{has}
use multiverse.Compiler.Graph.Edges.{Nodes, is_end, Adjacency, keys, graph_edges, adjacency}
use multiverse.Compiler.Graph.Search.{reachable, can_reach_end}
use multiverse.Compiler.Graph.Cycle.{Outcome, cleared, found, out_of_fuel, find_cycle}

-- the text `s` followed by `t`
unfoldable pub append : String → String → String
append String.[] t = t
append (String.◌∷◌ c s) t = String.◌∷◌ c (append s t)

-- `value.replace(c, by)`, where `c` is one character, given by its code point
unfoldable pub replace : ℕ → String → String → String
unfolding append
replace c by String.[] = String.[]
replace c by (String.◌∷◌ d s) =
    let rest = replace c by s in if code d == c then append by rest else String.◌∷◌ d rest

unfoldable pub escape : String → String
unfolding replace
escape value = replace 47 "~1" (replace 126 "~0" value)

pub data Code : Type 0 where
  invalid_edge invalid_entry unreachable_node graph_cycle no_terminal_node path_without_end : Code

pub record Diagnostic : Type 0 where
  pub code : Code
  pub file : String
  pub pointer : String
  pub about : List String

-- the pointer to a node
unfoldable pub at_node : String → String
unfolding append escape
at_node v = append "/spec/nodes/" (escape v)

-- the second result behind the first
unfoldable pub also : Option (List Diagnostic) → Option (List Diagnostic) → Option (List Diagnostic)
also none _ = none
also (some ds) none = none
also (some ds) (some es) = some (ds ++ es)

-- the ids of the end nodes
unfoldable pub end_nodes : Nodes → List String
end_nodes [] = []
end_nodes ((v, n) ∷ ns) = if is_end n then v ∷ end_nodes ns else end_nodes ns

module _ (file : String) where
  -- the loop over the edges, as far as it reports
  unfoldable pub edge_problems : Nodes → List (String × String) → List Diagnostic
  unfolding has at_node
  edge_problems ns [] = []
  edge_problems ns ((s, t) ∷ es) =
      let rest = edge_problems ns es in
      if has (keys ns) t
      then rest
      else record {
        code = invalid_edge;
        file = file;
        pointer = append (at_node s) "/next";
        about = s ∷ t ∷ [];
      }
        ∷ rest

  unfoldable pub unreachable_problems : List String → List String → List Diagnostic
  unfolding has at_node
  unreachable_problems reached [] = []
  unreachable_problems reached (v ∷ vs) =
      if has reached v
      then unreachable_problems reached vs
      else record { code = unreachable_node; file = file; pointer = at_node v; about = v ∷ [] } ∷ []

  -- a cycle is never empty, so that `if cycle` holds where one is found
  unfoldable pub cycle_problems : Outcome → Option (List Diagnostic)
  unfolding at_node
  cycle_problems (cleared s) = some []
  cycle_problems (found []) = some []
  cycle_problems (found (v ∷ vs)) =
      some (record { code = graph_cycle; file = file; pointer = at_node v; about = v ∷ vs } ∷ [])
  cycle_problems out_of_fuel = none

  -- the loop over the reachable nodes
  unfoldable pub path_problems : Adjacency → List String → List String → Option (List Diagnostic)
  unfolding can_reach_end at_node
  path_problems m ends [] = some []
  path_problems m ends (v ∷ vs) = elim (can_reach_end m v ends) [
    | none ↦ none
    | some ok ↦
        if ok
        then path_problems m ends vs
        else some (
            record { code = path_without_end; file = file; pointer = at_node v; about = v ∷ [] }
            ∷ [])
  ]

  unfoldable pub end_problems : Adjacency → List String → List String → Option (List Diagnostic)
  unfolding path_problems
  end_problems m [] vs =
      some
        (record { code = no_terminal_node; file = file; pointer = "/spec/nodes"; about = [] } ∷ [])
  end_problems m (e ∷ es) vs = path_problems m (e ∷ es) vs

  -- `arrange` gives the order in which a set of nodes is iterated over, which Python leaves open.
  unfoldable pub validate_graph :
      (List String → List String) → Nodes → String → Option (List Diagnostic)
  unfolding edge_problems graph_edges unreachable_problems cycle_problems end_problems adjacency
      reachable find_cycle also end_nodes has
  validate_graph arrange ns entry =
      let m = adjacency ns in
      also (some (edge_problems ns (graph_edges ns))) (
        if has (keys ns) entry
        then elim (reachable m entry) [
          | none ↦ none
          | some vs ↦
              also (some (unreachable_problems vs (keys ns)))
                (also (cycle_problems (find_cycle m)) (end_problems m (end_nodes ns) (arrange vs)))
        ]
        else some (
            record {
              code = invalid_entry;
              file = file;
              pointer = "/spec/entry";
              about = entry ∷ [];
            }
            ∷ []))
