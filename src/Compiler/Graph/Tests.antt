-- ===== src/Compiler/Graph/Tests.antt =====
-- The theorems on compiler/graph.py at a workflow with a switch, and runs of the checks.
use multiverse.Base.{String, List, [], ◌∷◌, none, some, ◌≡◌, refl, ◌↔◌, ◌⊎◌}
use multiverse.Base.Member.{In}
use multiverse.Compiler.Graph.Paths.{Reach, Plus}
use multiverse.Compiler.Graph.Edges.{
  Node, NodeType, Nodes, call, workflow, switch, end, adjacency, Next,
}
use multiverse.Compiler.Graph.Search.{reachable}
use multiverse.Compiler.Graph.Cycle.{Dfs, cleared, found, find_cycle}
use multiverse.Compiler.Graph.Cycle.Walk.{IsCycle}
use multiverse.Compiler.Graph.Cycle.Exact.{find_cycle-exact}
use multiverse.Compiler.Graph.Validate.{
  Diagnostic, invalid_edge, graph_cycle, path_without_end, unreachable_node, invalid_entry, escape,
  validate_graph,
}
use multiverse.Compiler.Graph.Search.Exact.{reachable-exact}
use multiverse.Compiler.Graph.Correct.Accepts.{IsWellFormed, validate_graph-accepts}
use multiverse.Compiler.Graph.Correct.Total.{validate_graph-returns}

abbrev as_is : List String → List String
as_is vs = vs

abbrev plain : NodeType → Node
plain t = record { type = t; on_error = none }

-- plan, then either work or stop; an error of work goes to stop
abbrev good : Nodes
good =
    ("plan", plain (switch ("work" ∷ []) "stop"))
    ∷ ("work", record { type = call "done"; on_error = some "stop" })
    ∷ ("done", plain end)
    ∷ ("stop", plain end)
    ∷ []

abbrev bad : Nodes
bad =
    ("a/b", plain (call "b"))
    ∷ ("b", record { type = workflow "a/b"; on_error = some "lost" })
    ∷ ("far", plain end)
    ∷ []

good_clean : validate_graph "w.yaml" as_is good "plan" ≡ some []
unfolding validate_graph
good_clean = refl

bad_problems :
    validate_graph "w.yaml" as_is bad "a/b"
    ≡ some (
        record {
          code = invalid_edge;
          file = "w.yaml";
          pointer = "/spec/nodes/b/next";
          about = "b" ∷ "lost" ∷ [];
        }
        ∷ record {
          code = unreachable_node;
          file = "w.yaml";
          pointer = "/spec/nodes/far";
          about = "far" ∷ [];
        }
        ∷ record {
          code = graph_cycle;
          file = "w.yaml";
          pointer = "/spec/nodes/a~1b";
          about = "a/b" ∷ "b" ∷ "a/b" ∷ [];
        }
        ∷ record {
          code = path_without_end;
          file = "w.yaml";
          pointer = "/spec/nodes/b";
          about = "b" ∷ [];
        }
        ∷ [])
unfolding validate_graph
bad_problems = refl

no_entry :
    validate_graph "w.yaml" as_is [] "x"
    ≡ some (
        record { code = invalid_entry; file = "w.yaml"; pointer = "/spec/entry"; about = "x" ∷ [] }
        ∷ [])
unfolding validate_graph
no_entry = refl

escape_both : escape "a~/b" ≡ "a~0~1b"
unfolding escape
escape_both = refl

validate_graph-accepts_example :
    (validate_graph "w.yaml" as_is good "plan" ≡ some []) ↔ IsWellFormed good "plan"
validate_graph-accepts_example =
    validate_graph-accepts "w.yaml" as_is (λ vs a. ((λ i. i), λ i. i)) good "plan"

bad_cycle : find_cycle (adjacency bad) ≡ found ("a/b" ∷ "b" ∷ "a/b" ∷ [])
unfolding find_cycle adjacency
bad_cycle = refl

reachable-exact_example :
    (vs : List String) × (reachable (adjacency bad) "b" ≡ some vs)
    × ((v : String) → In v vs ↔ Reach (Next (adjacency bad)) "b" v)
reachable-exact_example = reachable-exact (adjacency bad) "b"

find_cycle-exact_example :
    ((s : Dfs) × (find_cycle (adjacency bad) ≡ cleared s)
      × ((v : String) → ¬ Plus (Next (adjacency bad)) v v))
    ⊎ ((c : List String) × (find_cycle (adjacency bad) ≡ found c)
        × IsCycle (Next (adjacency bad)) c)
find_cycle-exact_example = find_cycle-exact (adjacency bad)

validate_graph-returns_example :
    (ds : List Diagnostic) × (validate_graph "w.yaml" as_is bad "a/b" ≡ some ds)
validate_graph-returns_example = validate_graph-returns "w.yaml" as_is bad "a/b"
