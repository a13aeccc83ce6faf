-- ===== src/Compiler/Graph/Cycle/Closed.antt =====
-- A cycle that `visit` finds is a closed walk.
use multiverse.Base.{
  ℕ, zero, suc, String, List, [], ◌∷◌, ◌++◌, ◌≡◌, inl, inr, arith, Bool-cases, All, subst, ◌↔◌,
}
use multiverse.Base.Member.{In, has, has_iff, In-All, All-In, In-append}
use multiverse.Compiler.Graph.Edges.{Adjacency, targets, Next}
use multiverse.Compiler.Graph.Cycle.{
  Dfs, Outcome, cleared, found, out_of_fuel, from, enter, scan, finish, visit,
}
use multiverse.Compiler.Graph.Cycle.Walk.{Walk, IsCycle, Walk-snoc, from-IsCycle}
use multiverse.Compiler.Graph.Cycle.Order.{Outcome-cases, Visits, visit-Visits}

module _ (m : Adjacency) where
  -- What a call of `visit` needs: the path and the set of it agree, and the path leads to the node.
  pub record Ready (v : String) (s : Dfs) : Type 0 where
    pub agree : (u : String) → In u s.visiting ↔ In u s.path
    pub walk : Walk (Next m) (s.path ++ v ∷ [])

  Ready-moves :
      (v : String) (s u : Dfs) → u.path ≡ s.path → u.visiting ≡ s.visiting → Ready v s → Ready v u
  Ready-moves v s u p q h = record { agree = λ w. rw (p, q) (h.agree w); walk = rw p h.walk }

  -- Every cycle that `f` finds at a node that is ready is closed.
  abbrev pub Finds : (String → Dfs → Outcome) → Type 0
  Finds f =
      (v : String) (s : Dfs) (c : List String) → Ready v s → f v s ≡ found c → IsCycle (Next m) c

  pub scan-Finds :
      (f : String → Dfs → Outcome)
      → Visits m f
      → Finds f
      → (ts : List String) (s : Dfs) (c : List String) → All (λ t. Ready t s) ts
      → scan f ts s ≡ found c
      → IsCycle (Next m) c
  unfolding scan
  scan-Finds f k h [] s c r e = absurd (ground arith)
  scan-Finds f k h (t ∷ ts) s c r e = elim (Outcome-cases (f t s)) [
    | inl (u, q) ↦
        let (first, _) = k t s u q in
        let again =
          All-In (λ t. Ready t u) ts
            (λ t i.
              Ready-moves t s u first.same_path first.same_visiting
                (In-All (λ t. Ready t s) ts t r.1 i)) in
        scan-Finds f k h ts u c again (rw (q, scan) at e)
    | inr (inl (d, q)) ↦ h t s c r.0 (ground arith)
    | inr (inr q) ↦ absurd (ground arith)
  ]

  Ready-enter : (v : String) (s : Dfs) → Ready v s → All (λ t. Ready t (enter v s)) (targets m v)
  Ready-enter v s h =
      All-In (λ t. Ready t (enter v s)) (targets m v)
        λ t i. record {
          agree = λ u. ground (arith, h.agree u, In-append u s.path (v ∷ []));
          walk = Walk-snoc (Next m) s.path v t h.walk i;
        }

  finish-found : (v : String) (o : Outcome) (c : List String) → finish v o ≡ found c → o ≡ found c
  unfolding finish
  finish-found v (cleared s) c e = absurd (ground arith)
  finish-found v (found d) c e = e
  finish-found v out_of_fuel c e = absurd (ground arith)

  pub visit-Finds : (fuel : ℕ) → Finds (visit m fuel)
  unfolding visit
  visit-Finds zero v s c h e = absurd (ground arith)
  visit-Finds (suc fuel) v s c h e = elim (Bool-cases (has s.visiting v)) [
    | inl old ↦
        let e' : from v s.path ++ v ∷ [] ≡ c = ground arith in
        subst (λ c. IsCycle (Next m) c) e'
          (from-IsCycle (Next m) s.path v ((h.agree v).0 ((has_iff s.visiting v).0 old)) h.walk)
    | inr new ↦ elim (Bool-cases (has s.visited v)) [
      | inl old ↦ absurd (ground arith)
      | inr new' ↦
          scan-Finds (visit m fuel) (visit-Visits m fuel) (visit-Finds fuel) (targets m v)
            (enter v s) c (Ready-enter v s h)
            (finish-found v (scan (visit m fuel) (targets m v) (enter v s)) c
              (rw (new, new', visit) at e))
    ]
  ]
