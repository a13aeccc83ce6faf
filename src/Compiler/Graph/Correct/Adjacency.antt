-- ===== src/Compiler/Graph/Correct/Adjacency.antt =====
-- The adjacency lists hold the edges whose target is a node.
use multiverse.Base.{
  String, List, [], ◌∷◌, ◌++◌, map, Option, none, some, ◌≡◌, refl, inl, inr, arith, ◌⊎◌, ◌↔◌,
  eq_iff, str_eq, Bool-cases, subst, sym, ap,
}
use multiverse.Base.Member.{In, has, has_iff, In-append}
use multiverse.Compiler.Graph.Edges.{
  Node, Nodes, NodeType, call, workflow, parallel, repeat, switch, end, type_edges, error_edges,
  Adjacency, keys, targets, add_edge, no_edges, add_edges, node_edges, graph_edges, adjacency, Next,
}

-- An edge among a list of them, and of a workflow, by the ids of its nodes.
abbrev pub Joins : List (String × String) → String → String → Type 0
Joins es u w = In {A = String × String} (u, w) es

abbrev pub Edge : Nodes → String → String → Type 0
Edge ns u w = Joins (graph_edges ns) u w

edges-append :
    (s t : String) (es fs : List (String × String))
    → Joins (es ++ fs) s t ↔ (Joins es s t ⊎ Joins fs s t)
edges-append s t es fs = In-append {A = String × String} (s, t) es fs

keys-add_edge : (s t : String) (m : Adjacency) → keys (add_edge s t m) ≡ keys m
unfolding add_edge
keys-add_edge s t [] = refl
keys-add_edge s t ((k, ts) ∷ m) = ground (arith, keys-add_edge s t m)

targets-add_edge :
    (s t u w : String) (m : Adjacency)
    → In s (keys m)
    → Next (add_edge s t m) u w ↔ (Next m u w ⊎ ((s ≡ u) × (w ≡ t)))
unfolding add_edge targets
targets-add_edge s t u w [] i = absurd i
targets-add_edge s t u w ((k, ts) ∷ m) i = elim (Bool-cases (str_eq k s)) [
  | inl same ↦ ground (arith, eq_iff k s, eq_iff k u, In-append w ts (t ∷ []))
  | inr other ↦
      ground
        (arith, eq_iff k s, eq_iff k u, targets-add_edge s t u w m (ground (arith, eq_iff k s)))
]

add_edges-Next :
    (ns : Nodes) (es : List (String × String)) (m : Adjacency) (u w : String)
    → ((s t : String) → Joins es s t → In s (keys m))
    → Next (add_edges ns es m) u w ↔ (Next m u w ⊎ (Joins es u w × In w (keys ns)))
unfolding add_edges
add_edges-Next ns [] m u w h = ground arith
add_edges-Next ns ((s, t) ∷ es) m u w h = elim (Bool-cases (has (keys ns) t)) [
  | inl known ↦
      let rest =
        add_edges-Next ns es (add_edge s t m) u w
          (λ a b i. subst (λ ks. In a ks) (sym (keys-add_edge s t m)) (h a b (inr i))) in
      ground (arith, rest, targets-add_edge s t u w m (h s t (inl refl)), has_iff (keys ns) t)
  | inr unknown ↦
      let rest = add_edges-Next ns es m u w (λ a b i. h a b (inr i)) in
      ground (arith, rest, has_iff (keys ns) t)
]

keys-no_edges : (ns : Nodes) → keys (no_edges ns) ≡ keys ns
unfolding no_edges
keys-no_edges [] = refl
keys-no_edges ((v, n) ∷ ns) = ap (λ ks. v ∷ ks) (keys-no_edges ns)

no_edges-Next : (ns : Nodes) (u w : String) → ¬ Next (no_edges ns) u w
unfolding no_edges targets
no_edges-Next [] u w i = absurd i
no_edges-Next ((v, n) ∷ ns) u w i = ground (arith, no_edges-Next ns u w)

map-source : (v s t : String) (cs : List String) → Joins (map (λ next. (v, next)) cs) s t → s ≡ v
map-source v s t [] i = absurd i
map-source v s t (c ∷ cs) i = elim i [ inl e ↦ ap (λ p. p.0) e | inr j ↦ map-source v s t cs j ]

node_edges-source : (v s t : String) (n : Node) → Joins (node_edges v n) s t → s ≡ v
unfolding node_edges
node_edges-source v s t n i =
    elim ((edges-append s t (type_edges v n.type) (error_edges v n.on_error)).0 i) [
      | inl a ↦ of_type n.type a
      | inr b ↦ of_error n.on_error b
    ]
  where
    of_type : (k : NodeType) → Joins (type_edges v k) s t → s ≡ v
    of_type (call x) i = ground arith
    of_type (workflow x) i = ground arith
    of_type (parallel x) i = ground arith
    of_type (repeat x) i = ground arith
    of_type (switch cs x) i =
        ground
          (arith, map-source v s t cs, edges-append s t (map (λ next. (v, next)) cs) ((v, x) ∷ []))
    of_type end i = absurd i

    of_error : (o : Option String) → Joins (error_edges v o) s t → s ≡ v
    of_error none i = absurd i
    of_error (some x) i = ground arith

pub graph_edges-source : (ns : Nodes) (s t : String) → Edge ns s t → In s (keys ns)
unfolding graph_edges
graph_edges-source [] s t i = absurd i
graph_edges-source ((v, n) ∷ ns) s t i = ground (
  arith,
  edges-append s t (node_edges v n) (graph_edges ns),
  node_edges-source v s t n,
  graph_edges-source ns s t,
)

pub adjacency-Next :
    (ns : Nodes) (u w : String) → Next (adjacency ns) u w ↔ (Edge ns u w × In w (keys ns))
unfolding adjacency
adjacency-Next ns u w =
    let h =
      add_edges-Next ns (graph_edges ns) (no_edges ns) u w
        (λ s t i. subst (λ ks. In s ks) (sym (keys-no_edges ns)) (graph_edges-source ns s t i)) in
    ground (arith, h, no_edges-Next ns u w)
