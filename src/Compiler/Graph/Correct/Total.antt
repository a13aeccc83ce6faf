-- ===== src/Compiler/Graph/Correct/Total.antt =====
-- The checks of `validate_graph` end on every graph.
use multiverse.Base.{
  String, List, [], ◌∷◌, ◌++◌, Option, none, some, ◌≡◌, refl, inl, inr, arith, Bool-cases,
}
use multiverse.Base.Member.{has}
use multiverse.Compiler.Graph.Edges.{Nodes, Adjacency, keys, adjacency}
use multiverse.Compiler.Graph.Search.Loop.{reachable_ends}
use multiverse.Compiler.Graph.Cycle.{Outcome, cleared, found, out_of_fuel, find_cycle}
use multiverse.Compiler.Graph.Cycle.Fuel.{find_cycle-ends}
use multiverse.Compiler.Graph.Validate.{
  Diagnostic, also, end_nodes, cycle_problems, path_problems, end_problems, validate_graph,
}
use multiverse.Compiler.Graph.Correct.Reports.{can_reach_end-exact}

-- A result is there.
abbrev pub Returns : Option (List Diagnostic) → Type 0
Returns o = (ds : List Diagnostic) × (o ≡ some ds)

also-Returns : (a b : Option (List Diagnostic)) → Returns a → Returns b → Returns (also a b)
unfolding also
also-Returns none b p q = absurd (ground arith)
also-Returns (some ds) none p q = absurd (ground arith)
also-Returns (some ds) (some es) p q = (ds ++ es, refl)

module _ (file : String) where
  cycle-Returns : (o : Outcome) → ¬ (o ≡ out_of_fuel) → Returns (cycle_problems file o)
  unfolding cycle_problems
  cycle-Returns (cleared s) h = ([], refl)
  cycle-Returns (found []) h = ([], refl)
  cycle-Returns (found (v ∷ vs)) h = (_, refl)
  cycle-Returns out_of_fuel h = absurd (h refl)

  path-Returns : (m : Adjacency) (ends vs : List String) → Returns (path_problems file m ends vs)
  unfolding path_problems
  path-Returns m ends [] = ([], refl)
  path-Returns m ends (v ∷ vs) = elim (can_reach_end-exact m ends v) [
    | inl (e, out) ↦ rw (e, path_problems) (path-Returns m ends vs)
    | inr (e, stuck) ↦ rw (e, path_problems) (_, refl)
  ]

  end-Returns : (m : Adjacency) (ends vs : List String) → Returns (end_problems file m ends vs)
  unfolding end_problems
  end-Returns m [] vs = (_, refl)
  end-Returns m (e ∷ es) vs = path-Returns m (e ∷ es) vs

  -- `validate_graph` ends on every list of nodes, in whatever order sets are iterated over: neither
  -- the searches for reachable nodes, nor that for a cycle, uses up the fuel that it is given.
  pub validate_graph-returns :
      (arrange : List String → List String) (ns : Nodes) (entry : String)
      → (ds : List Diagnostic) × (validate_graph file arrange ns entry ≡ some ds)
  unfolding validate_graph
  validate_graph-returns arrange ns entry =
      also-Returns _ _ (_, refl)
        (elim (Bool-cases (has (keys ns) entry)) [
          | inl known ↦
              let (vs, e) = reachable_ends (adjacency ns) entry in
              rw (known, e)
                (also-Returns _ _ (_, refl)
                  (also-Returns _ _
                    (cycle-Returns (find_cycle (adjacency ns)) (find_cycle-ends (adjacency ns)))
                    (end-Returns (adjacency ns) (end_nodes ns) (arrange vs))))
          | inr unknown ↦ rw unknown (_, refl)
        ])
