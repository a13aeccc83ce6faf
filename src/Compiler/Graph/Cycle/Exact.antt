-- ===== src/Compiler/Graph/Cycle/Exact.antt =====
-- `_find_cycle` finds a cycle exactly if there is one.
use multiverse.Base.{suc, String, List, [], ◌∷◌, ◌≡◌, inl, inr, arith, ◌⊎◌, length, eq_iff}
use multiverse.Base.Member.{In, In-All, All-In}
use multiverse.Compiler.Graph.Paths.{Plus, Reach, here, step}
use multiverse.Compiler.Graph.Edges.{Adjacency, targets, keys, Next}
use multiverse.Compiler.Graph.Cycle.{Dfs, cleared, found, visit, find_cycle}
use multiverse.Compiler.Graph.Cycle.Walk.{IsCycle}
use multiverse.Compiler.Graph.Cycle.Order.{
  Outcome-cases, visit-Visits, scan-Clears, Ordered-acyclic,
}
use multiverse.Compiler.Graph.Cycle.Closed.{visit-Finds, scan-Finds}
use multiverse.Compiler.Graph.Cycle.Fuel.{find_cycle-ends}

pub Next-keys : (m : Adjacency) (u w : String) → Next m u w → In u (keys m)
unfolding targets
Next-keys [] u w e = absurd e
Next-keys ((k, ts) ∷ m) u w e = ground (arith, eq_iff k u, Next-keys m u w)

module _ (m : Adjacency) where
  starts : (u w : String) → Reach (Next m) u w → In w (keys m) → In u (keys m)
  starts u w here i = i
  starts u w (step {v} r e) i = starts u v r (Next-keys m v w e)

  find_cycle-cleared : (s : Dfs) → find_cycle m ≡ cleared s → (v : String) → ¬ Plus (Next m) v v
  unfolding find_cycle
  find_cycle-cleared s e v (w, r, last) =
      let start : Dfs = record { visiting = []; visited = []; path = [] } in
      let f = visit m (suc (length m)) in
      let (h, all) = scan-Clears m f (visit-Visits m (suc (length m))) (keys m) start s e in
      let at = starts v w r (Next-keys m w v last) in
      Ordered-acyclic m s.visited (h.ordered tt) v (In-All (λ t. In t s.visited) (keys m) v all at)
        (w, r, last)

  find_cycle-found : (c : List String) → find_cycle m ≡ found c → IsCycle (Next m) c
  unfolding find_cycle
  find_cycle-found c e =
      let start : Dfs = record { visiting = []; visited = []; path = [] } in
      let fuel = suc (length m) in
      scan-Finds m (visit m fuel) (visit-Visits m fuel) (visit-Finds m fuel) (keys m) start c
        (All-In _ (keys m) (λ t i. record { agree = λ u. ground arith; walk = tt })) e

  -- `_find_cycle` ends. Either it returns None, and no path of at least one edge leads from a node
  -- to itself; or it returns a list of nodes, each with an edge to the next, whose first and last
  -- are the same.
  pub find_cycle-exact :
      ((s : Dfs) × (find_cycle m ≡ cleared s) × ((v : String) → ¬ Plus (Next m) v v))
      ⊎ ((c : List String) × (find_cycle m ≡ found c) × IsCycle (Next m) c)
  find_cycle-exact = elim (Outcome-cases (find_cycle m)) [
    | inl (s, e) ↦ inl (s, e, find_cycle-cleared s e)
    | inr (inl (c, e)) ↦ inr (c, e, find_cycle-found c e)
    | inr (inr e) ↦ absurd (find_cycle-ends m e)
  ]
