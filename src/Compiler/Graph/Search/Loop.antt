-- ===== src/Compiler/Graph/Search/Loop.antt =====
-- The loop of `_reachable` ends: a round either drops one element of the stack, or uses up the
-- edges of a node for good.
use multiverse.Base.{
  ℕ, zero, suc, ◌+◌, ◌≤◌, String, List, [], ◌∷◌, some, true, false, Bool-cases, length, str_eq,
  eq_iff, ◌≡◌, refl, inl, inr, arith, if◌then◌else◌,
}
use multiverse.Base.Member.{has}
use multiverse.Compiler.Graph.Edges.{Adjacency, targets}
use multiverse.Compiler.Graph.Search.{extend, edge_count, search_loop, reachable}

length-extend : (ts stack : List String) → length (extend ts stack) ≡ length ts + length stack
unfolding extend
length-extend [] stack = omega arith
length-extend (t ∷ ts) stack = omega (arith, length-extend ts (t ∷ stack))

-- the edges of the nodes that are not in the result
work : Adjacency → List String → ℕ
work [] result = 0
work ((k, ts) ∷ m) result = (if has result k then 0 else length ts) + work m result

work-blank : (m : Adjacency) → work m [] ≡ edge_count m
unfolding work has edge_count
work-blank [] = refl
work-blank ((k, ts) ∷ m) = omega (arith, work-blank m)

has-cons :
    (v k : String) (vs : List String) → has (v ∷ vs) k ≡ (if str_eq v k then true else has vs k)
unfolding has
has-cons v k vs = refl

work_mono : (m : Adjacency) (v : String) (vs : List String) → work m (v ∷ vs) ≤ work m vs
unfolding work
work_mono [] v vs = omega arith
work_mono ((k, ts) ∷ m) v vs = ground (arith, work_mono m v vs, has-cons v k vs)

work-cons :
    (m : Adjacency) (v : String) (vs : List String)
    → has vs v ≡ false
    → length (targets m v) + work m (v ∷ vs) ≤ work m vs
unfolding work targets
work-cons [] v vs h = omega arith
work-cons ((k, ts) ∷ m) v vs h =
    ground (arith, work-cons m v vs h, work_mono m v vs, has-cons v k vs, eq_iff v k, eq_iff k v)

search_loop_ends :
    (m : Adjacency) (fuel : ℕ) (stack result : List String)
    → length stack + work m result ≤ fuel
    → (vs : List String) × (search_loop m fuel stack result ≡ some vs)
unfolding search_loop
search_loop_ends m fuel [] result h = (result, refl)
search_loop_ends m zero (v ∷ stack) result h = absurd (omega arith)
search_loop_ends m (suc fuel) (v ∷ stack) result h = elim (Bool-cases (has result v)) [
  | inl old ↦
      let (vs, e) = search_loop_ends m fuel stack result (omega arith) in
      (vs, rw (old, search_loop) e)
  | inr new ↦
      let (vs, e) =
        search_loop_ends m fuel (extend (targets m v) stack) (v ∷ result)
          (omega (arith, length-extend (targets m v) stack, work-cons m v result new)) in
      (vs, rw (new, search_loop) e)
]

pub reachable_ends :
    (m : Adjacency) (entry : String) → (vs : List String) × (reachable m entry ≡ some vs)
unfolding reachable
reachable_ends m entry =
    search_loop_ends m (suc (edge_count m)) (entry ∷ []) [] (omega (arith, work-blank m))
