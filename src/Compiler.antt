-- ===== src/Compiler.antt =====
-- The compiler: src/multiverse_workflow/compiler. Modelled is compiler/graph.py.
pub mod Graph
