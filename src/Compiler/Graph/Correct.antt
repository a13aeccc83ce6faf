-- ===== src/Compiler/Graph/Correct.antt =====
-- `validate_graph` against the meaning of a workflow graph.
pub mod Adjacency
pub mod Reports
pub mod Total
pub mod Accepts
