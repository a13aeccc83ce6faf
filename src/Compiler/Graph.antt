-- ===== src/Compiler/Graph.antt =====
-- compiler/graph.py: the nodes of a workflow with their edges, the adjacency lists of the graph,
-- and the checks of `validate_graph`. `_reachable` and `_find_cycle` have modules of their own.
--
-- A dict is the list of its entries in the order of insertion. `protocol/models.py` has a class for
-- each type of node; the fields that no edge comes from are left out.
pub mod Paths
pub mod Edges
pub mod Search
pub mod Cycle
pub mod Validate
pub mod Correct
pub mod Tests
