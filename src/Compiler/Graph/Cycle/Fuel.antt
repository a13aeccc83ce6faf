-- ===== src/Compiler/Graph/Cycle/Fuel.antt =====
-- The recursion of `visit` is no deeper than the graph has nodes: each call that goes on has put
-- one more node on the path.
use multiverse.Base.{
  ℕ, zero, suc, ◌+◌, ◌≤◌, ◌<◌, String, List, [], ◌∷◌, ◌≡◌, refl, ◌∙◌, inl, inr, eq_iff, arith,
  Bool-cases, false, ◌⊎◌, ◌≢◌, length, if◌then◌else◌,
}
use multiverse.Base.Member.{has}
use multiverse.Compiler.Graph.Edges.{Adjacency, targets, keys}
use multiverse.Compiler.Graph.Cycle.{
  Dfs, Outcome, cleared, found, out_of_fuel, enter, scan, finish, visit, find_cycle,
}
use multiverse.Compiler.Graph.Cycle.Order.{Outcome-cases, Visits, visit-Visits}

-- the nodes that are not on the path
free : Adjacency → List String → ℕ
unfolding has
free [] vs = 0
free ((k, ts) ∷ m) vs = (if has vs k then 0 else 1) + free m vs

free-le : (m : Adjacency) (vs : List String) → free m vs ≤ length m
unfolding free
free-le [] vs = omega arith
free-le ((k, ts) ∷ m) vs = ground (arith, free-le m vs)

free_mono : (m : Adjacency) (v : String) (vs : List String) → free m (v ∷ vs) ≤ free m vs
unfolding free
free_mono [] v vs = omega arith
free_mono ((k, ts) ∷ m) v vs = ground (arith, free_mono m v vs)

free-enter :
    (m : Adjacency) (v : String) (vs : List String)
    → has vs v ≡ false
    → (targets m v ≡ []) ⊎ (free m (v ∷ vs) < free m vs)
unfolding free targets
free-enter [] v vs h = inl refl
free-enter ((k, ts) ∷ m) v vs h =
    ground (arith, free-enter m v vs h, free_mono m v vs, eq_iff k v, eq_iff v k)

finish-ends : (v : String) (o : Outcome) → o ≢ out_of_fuel → finish v o ≢ out_of_fuel
unfolding finish
finish-ends v (cleared s) h e = absurd (ground arith)
finish-ends v (found c) h e = absurd (ground arith)
finish-ends v out_of_fuel h e = h refl

scan-nil-ends : (f : String → Dfs → Outcome) (s : Dfs) → scan f [] s ≢ out_of_fuel
unfolding scan
scan-nil-ends f s e = absurd (ground arith)

module _ (m : Adjacency) where
  scan-ends :
      (f : String → Dfs → Outcome)
      → Visits m f
      → (vs : List String) → ((t : String) (s : Dfs) → s.visiting ≡ vs → f t s ≢ out_of_fuel)
      → (ts : List String) (s : Dfs) → s.visiting ≡ vs
      → scan f ts s ≢ out_of_fuel
  unfolding scan
  scan-ends f k vs h [] s same e = absurd (ground arith)
  scan-ends f k vs h (t ∷ ts) s same e = elim (Outcome-cases (f t s)) [
    | inl (u, q) ↦
        let (first, _) = k t s u q in
        scan-ends f k vs h ts u (first.same_visiting ∙ same) (rw (q, scan) at e)
    | inr (inl (c, q)) ↦ absurd (ground arith)
    | inr (inr q) ↦ h t s same q
  ]

  visit-ends :
      (fuel : ℕ) (v : String) (s : Dfs) → free m s.visiting < fuel → visit m fuel v s ≢ out_of_fuel
  unfolding visit
  visit-ends zero v s h e = absurd (omega arith)
  visit-ends (suc fuel) v s h e = elim (Bool-cases (has s.visiting v)) [
    | inl old ↦ absurd (ground arith)
    | inr new ↦ elim (Bool-cases (has s.visited v)) [
      | inl old ↦ absurd (ground arith)
      | inr new' ↦
          finish-ends v (scan (visit m fuel) (targets m v) (enter v s))
            (elim (free-enter m v s.visiting new) [
              | inl leaf ↦ rw leaf (scan-nil-ends (visit m fuel) (enter v s))
              | inr less ↦
                  scan-ends (visit m fuel) (visit-Visits m fuel) (v ∷ s.visiting)
                    (λ t u same. visit-ends fuel t u (rw same (omega arith))) (targets m v)
                    (enter v s) refl
            ])
            (rw (new, new', visit) at e)
    ]
  ]

  pub find_cycle-ends : find_cycle m ≢ out_of_fuel
  unfolding find_cycle
  find_cycle-ends =
      scan-ends (visit m (suc (length m))) (visit-Visits m (suc (length m))) []
        (λ t s same. visit-ends (suc (length m)) t s (rw same (omega (arith, free-le m []))))
        (keys m) (record { visiting = []; visited = []; path = [] }) refl
