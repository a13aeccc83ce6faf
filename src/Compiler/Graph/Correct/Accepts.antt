-- ===== src/Compiler/Graph/Correct/Accepts.antt =====
-- `validate_graph` accepts exactly the well-formed workflow graphs.
use multiverse.Base.{
  String, List, [], ◌∷◌, some, ◌≡◌, refl, inl, inr, arith, ◌↔◌, Bool-cases, true, false, sym, ◌∙◌,
  ap,
}
use multiverse.Base.Member.{In, has, has_iff}
use multiverse.Compiler.Graph.Paths.{Reach, here, step, Plus, map-Reach, map-Plus}
use multiverse.Compiler.Graph.Edges.{Nodes, Adjacency, keys, Next, adjacency, graph_edges}
use multiverse.Compiler.Graph.Search.{reachable}
use multiverse.Compiler.Graph.Search.Exact.{reachable-exact}
use multiverse.Compiler.Graph.Cycle.{find_cycle}
use multiverse.Compiler.Graph.Cycle.Walk.{IsCycle-Plus}
use multiverse.Compiler.Graph.Cycle.Exact.{find_cycle-exact}
use multiverse.Compiler.Graph.Validate.{
  Diagnostic, invalid_entry, also, end_nodes, edge_problems, unreachable_problems, cycle_problems,
  end_problems, validate_graph,
}
use multiverse.Compiler.Graph.Correct.Adjacency.{Edge, adjacency-Next}
use multiverse.Compiler.Graph.Correct.Reports.{
  also-clean, edge_problems-clean, unreachable_problems-clean, end_problems-clean, Escapes,
}

-- What a workflow graph has to be.
pub record IsWellFormed (ns : Nodes) (entry : String) : Type 0 where
  pub targets_exist : (u w : String) → Edge ns u w → In w (keys ns)
  pub entry_exists : In entry (keys ns)
  pub all_reached : (v : String) → In v (keys ns) → Reach (Edge ns) entry v
  pub acyclic : (v : String) → ¬ Plus (Edge ns) v v
  pub ends : (v : String) → In v (keys ns) → Escapes (Edge ns) (end_nodes ns) v

cycle_problems-clean :
    (file : String) (m : Adjacency)
    → (cycle_problems file (find_cycle m) ≡ some []) ↔ ((v : String) → ¬ Plus (Next m) v v)
unfolding cycle_problems
cycle_problems-clean file m = elim (find_cycle-exact m) [
  | inl (s, e, free) ↦ ((λ q. free), λ h. rw (e, cycle_problems) refl)
  | inr (c, e, (v, q, shape, walk)) ↦
      let (u, p) = IsCycle-Plus (Next m) c (v, q, shape, walk) in
      ((λ clean. absurd (ground (arith, e, shape))), λ h. absurd (h u p))
]

module _ (file : String) (arrange : List String → List String)
    (same_set : (vs : List String) (a : String) → In a (arrange vs) ↔ In a vs) (ns : Nodes)
    (entry : String) where
  -- The checks behind that of the entry.
  rest_clean :
      (vs : List String)
      → In entry vs
      → (also (some (unreachable_problems file vs (keys ns))) (
            also
              (cycle_problems file (find_cycle (adjacency ns)))
              (end_problems file (adjacency ns) (end_nodes ns) (arrange vs)))
          ≡ some [])
        ↔ (((v : String) → In v (keys ns) → In v vs)
            × ((v : String) → ¬ Plus (Next (adjacency ns)) v v)
            × ((v : String) → In v (arrange vs) → Escapes (Next (adjacency ns)) (end_nodes ns) v))
  rest_clean vs i =
      let outer = also-clean (some (unreachable_problems file vs (keys ns))) (
        also (cycle_problems file (find_cycle (adjacency ns)))
          (end_problems file (adjacency ns) (end_nodes ns) (arrange vs))) in
      let inner =
        also-clean (cycle_problems file (find_cycle (adjacency ns)))
          (end_problems file (adjacency ns) (end_nodes ns) (arrange vs)) in
      let reach = unreachable_problems-clean file vs (keys ns) in
      let cycle = cycle_problems-clean file (adjacency ns) in
      let stop =
        end_problems-clean file (adjacency ns) (end_nodes ns) (arrange vs) entry
          ((same_set vs entry).1 i) in
      (
        (λ e.
            let (a, b) = outer.0 e in
            let (c, d) = inner.0 b in (reach.0 (ground arith), cycle.0 c, stop.0 d)),
        λ (a, b, c). outer.1 (ground (arith, reach.1 a), inner.1 (cycle.1 b, stop.1 c)),
      )

  -- With every target defined, the adjacency lists are the edges.
  Next-Edge : (u w : String) → Next (adjacency ns) u w → Edge ns u w
  Next-Edge u w e = ((adjacency-Next ns u w).0 e).0

  Edge-Next :
      ((u w : String) → Edge ns u w → In w (keys ns))
      → (u w : String) → Edge ns u w
      → Next (adjacency ns) u w
  Edge-Next h u w e = (adjacency-Next ns u w).1 (e, h u w e)

  reached-key : (u v : String) → In u (keys ns) → Reach (Next (adjacency ns)) u v → In v (keys ns)
  reached-key u v i here = i
  reached-key u v i (step {v = x} r e) = ((adjacency-Next ns x v).0 e).1

  -- `validate_graph` where the entry is a node, and where it is not.
  with_entry :
      (vs : List String)
      → has (keys ns) entry ≡ true
      → reachable (adjacency ns) entry ≡ some vs
      → validate_graph file arrange ns entry
        ≡ also (some (edge_problems file ns (graph_edges ns))) (
            also (some (unreachable_problems file vs (keys ns))) (
              also
                (cycle_problems file (find_cycle (adjacency ns)))
                (end_problems file (adjacency ns) (end_nodes ns) (arrange vs))))
  unfolding validate_graph
  with_entry vs known e = rw (known, e) refl

  without_entry :
      has (keys ns) entry ≡ false
      → (d : Diagnostic) × (validate_graph file arrange ns entry
          ≡ also (some (edge_problems file ns (graph_edges ns))) (some (d ∷ [])))
  unfolding validate_graph
  without_entry unknown = (
    record { code = invalid_entry; file = file; pointer = "/spec/entry"; about = entry ∷ [] },
    rw unknown refl,
  )

  accepted : validate_graph file arrange ns entry ≡ some [] → IsWellFormed ns entry
  accepted e = elim (Bool-cases (has (keys ns) entry)) [
    | inr unknown ↦
        let (d, shape) = without_entry unknown in
        let (_, clean) = (also-clean _ _).0 (sym shape ∙ e) in absurd (cc clean)
    | inl known ↦
        let (vs, found_vs, exact) = reachable-exact (adjacency ns) entry in
        let (edges, rest) =
          (also-clean (some (edge_problems file ns (graph_edges ns))) _).0
            (sym (with_entry vs known found_vs) ∙ e) in
        let (reached, free, out) = (rest_clean vs ((exact entry).1 here)).0 rest in
        let exist = (edge_problems-clean file ns (graph_edges ns)).0 (ground arith) in
        record {
          targets_exist = exist;
          entry_exists = (has_iff (keys ns) entry).0 known;
          all_reached = λ v i. map-Reach Next-Edge ((exact v).0 (reached v i));
          acyclic = λ v p. free v (map-Plus (Edge-Next exist) p);
          ends = λ v i.
              let (w, r, j) = out v ((same_set vs v).1 (reached v i)) in
              (w, map-Reach Next-Edge r, j);
        }
  ]

  accepts : IsWellFormed ns entry → validate_graph file arrange ns entry ≡ some []
  accepts h =
      let (vs, found_vs, exact) = reachable-exact (adjacency ns) entry in
      let known = (has_iff (keys ns) entry).1 h.entry_exists in
      let to_next = Edge-Next h.targets_exist in
      let edges = (edge_problems-clean file ns (graph_edges ns)).1 h.targets_exist in
      let rest = (rest_clean vs ((exact entry).1 here)).1 (
        (λ v i. (exact v).1 (map-Reach to_next (h.all_reached v i))),
        (λ v p. h.acyclic v (map-Plus Next-Edge p)),
        λ v i.
            let key = reached-key entry v h.entry_exists ((exact v).0 ((same_set vs v).0 i)) in
            let (w, r, j) = h.ends v key in (w, map-Reach to_next r, j),
      ) in
      with_entry vs known found_vs ∙ (also-clean _ _).1 (ap some edges, rest)

  -- `validate_graph` reports nothing exactly if the graph is well formed: the target of each edge is
  -- a node, the entry is one, a path leads from the entry to every node, no path of at least one
  -- edge leads from a node to itself, and from every node a path leads to an end node. The order in
  -- which a set is iterated over may be any that gives the elements of the set.
  pub validate_graph-accepts :
      (validate_graph file arrange ns entry ≡ some []) ↔ IsWellFormed ns entry
  validate_graph-accepts = (accepted, accepts)
