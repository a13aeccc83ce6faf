-- ===== src/Compiler/Graph/Search/Exact.antt =====
-- `_reachable` returns exactly the nodes that a path leads to.
use multiverse.Base.{
  ℕ, zero, suc, String, List, [], ◌∷◌, some, Bool-cases, ◌≡◌, refl, ◌⊎◌, inl, inr, ◌↔◌, arith,
  subst, sym,
}
use multiverse.Base.Member.{In, has, has_iff}
use multiverse.Compiler.Graph.Paths.{Reach, here, step}
use multiverse.Compiler.Graph.Edges.{Adjacency, targets, Next}
use multiverse.Compiler.Graph.Search.{extend, edge_count, search_loop, reachable}
use multiverse.Compiler.Graph.Search.Loop.{reachable_ends}

In-extend : (a : String) (ts stack : List String) → In a (extend ts stack) ↔ (In a ts ⊎ In a stack)
unfolding extend
In-extend a [] stack = ground arith
In-extend a (t ∷ ts) stack = ground (arith, In-extend a ts (t ∷ stack))

module _ (m : Adjacency) (entry : String) where
  -- What holds of the stack and the result at the head of the loop.
  record Inv (stack result : List String) : Type 0 where
    source : In entry stack ⊎ In entry result
    sound : (v : String) → In v stack ⊎ In v result → Reach (Next m) entry v
    closed : (u v : String) → In u result → Next m u v → In v stack ⊎ In v result

  Inv-old :
      (v : String) (stack result : List String)
      → In v result
      → Inv (v ∷ stack) result
      → Inv stack result
  Inv-old v stack result old h = record {
    source = ground (arith, h.source);
    sound = λ w i. h.sound w (ground arith);
    closed = λ u w i e. ground (arith, h.closed u w i e);
  }

  Inv-new :
      (v : String) (stack result : List String)
      → Inv (v ∷ stack) result
      → Inv (extend (targets m v) stack) (v ∷ result)
  Inv-new v stack result h = record {
    source = ground (arith, h.source, In-extend entry (targets m v) stack);
    sound = λ w i.
        let split = (In-extend w (targets m v) stack).0 in
        elim i [
          | inl i ↦ elim (split i) [
            | inl e ↦ step (h.sound v (inl (inl refl))) e
            | inr i ↦ h.sound w (inl (inr i))
          ]
          | inr i ↦ elim i [ inl e ↦ h.sound w (inl (inl e)) | inr i ↦ h.sound w (inr i) ]
        ];
    closed = λ u w i e. elim i [
      | inl same ↦ inl ((In-extend w (targets m v) stack).1 (inl (subst (λ x. Next m x w) same e)))
      | inr i ↦ ground (arith, h.closed u w i e, In-extend w (targets m v) stack)
    ];
  }

  search_loop-Inv :
      (fuel : ℕ) (stack result vs : List String)
      → Inv stack result
      → search_loop m fuel stack result ≡ some vs
      → Inv [] vs
  unfolding search_loop
  search_loop-Inv fuel [] result vs h e = ground arith
  search_loop-Inv zero (v ∷ stack) result vs h e = absurd (ground arith)
  search_loop-Inv (suc fuel) (v ∷ stack) result vs h e = elim (Bool-cases (has result v)) [
    | inl old ↦
        search_loop-Inv fuel stack result vs (Inv-old v stack result ((has_iff result v).0 old) h)
          (rw (old, search_loop) at e)
    | inr new ↦
        search_loop-Inv fuel (extend (targets m v) stack) (v ∷ result) vs (Inv-new v stack result h)
          (rw (new, search_loop) at e)
  ]

  at_entry : (v : String) → In v (entry ∷ []) ⊎ In v [] → Reach (Next m) entry v
  at_entry v (inl (inl e)) = subst (λ x. Reach (Next m) entry x) (sym e) here
  at_entry v (inl (inr i)) = absurd i
  at_entry v (inr i) = absurd i

  Inv-start : Inv (entry ∷ []) []
  Inv-start = record { source = inl (inl refl); sound = at_entry; closed = λ u w i e. absurd i }

  reaches : (vs : List String) → Inv [] vs → (v : String) → Reach (Next m) entry v → In v vs
  reaches vs h v here = ground (arith, h.source)
  reaches vs h v (step {v = u} r e) = ground (arith, h.closed u v (reaches vs h u r) e)

  pub reachable-members :
      (vs : List String)
      → reachable m entry ≡ some vs
      → (v : String) → In v vs ↔ Reach (Next m) entry v
  unfolding reachable
  reachable-members vs e v =
      let inv = search_loop-Inv (suc (edge_count m)) (entry ∷ []) [] vs Inv-start e in
      ((λ i. inv.sound v (inr i)), reaches vs inv v)

-- `_reachable` ends, with a set of nodes, and a node is in it exactly if a path of the adjacency
-- lists leads from the entry to it; the entry itself is.
pub reachable-exact :
    (m : Adjacency) (entry : String)
    → (vs : List String) × (reachable m entry ≡ some vs)
      × ((v : String) → In v vs ↔ Reach (Next m) entry v)
reachable-exact m entry =
    let (vs, e) = reachable_ends m entry in (vs, e, reachable-members m entry vs e)
