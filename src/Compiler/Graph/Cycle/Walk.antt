-- ===== src/Compiler/Graph/Cycle/Walk.antt =====
-- Walks along a list of nodes, as the search keeps them, and closed walks.
use multiverse.Base.{
  String, List, [], ◌∷◌, ◌++◌, ◌≡◌, refl, ap, inl, inr, eq_iff, arith, Bool-cases, str_eq, subst,
}
use multiverse.Base.Member.{In}
use multiverse.Compiler.Graph.Paths.{Reach, here, step, Plus}
use multiverse.Compiler.Graph.Cycle.{from, drop_last}

-- Each node of the list has an edge to the next one.
abbrev pub Walk : (String → String → Type 0) → List String → Type 0
Walk E [] = Unit
Walk E (x ∷ []) = Unit
Walk E (x ∷ y ∷ xs) = E x y × Walk E (y ∷ xs)

-- A walk of at least one edge that ends where it starts.
abbrev pub IsCycle : (String → String → Type 0) → List String → Type 0
IsCycle E c = (v : String) × (q : List String) × (c ≡ v ∷ q ++ v ∷ []) × Walk E c

module _ (E : String → String → Type 0) where
  pub Walk-snoc :
      (p : List String) (v t : String)
      → Walk E (p ++ v ∷ [])
      → E v t
      → Walk E ((p ++ v ∷ []) ++ t ∷ [])
  Walk-snoc [] v t w e = (e, tt)
  Walk-snoc (x ∷ []) v t w e = (w.0, (e, tt))
  Walk-snoc (x ∷ y ∷ p) v t w e = (w.0, Walk-snoc (y ∷ p) v t w.1 e)

  tail-Walk : (x : String) (xs : List String) → Walk E (x ∷ xs) → Walk E xs
  tail-Walk x [] w = tt
  tail-Walk x (y ∷ xs) w = w.1

  pub from-IsCycle :
      (p : List String) (v : String)
      → In v p
      → Walk E (p ++ v ∷ [])
      → IsCycle E (from v p ++ v ∷ [])
  unfolding from
  from-IsCycle [] v i w = absurd i
  from-IsCycle (x ∷ p) v i w = elim (Bool-cases (str_eq x v)) [
    | inl same ↦ let e = (eq_iff x v).0 same in rw same (v, p, ap (λ u. u ∷ p ++ v ∷ []) e, w)
    | inr other ↦
        rw other (from-IsCycle p v (ground (arith, eq_iff x v)) (tail-Walk x (p ++ v ∷ []) w))
  ]

  cons-Reach : {u v w : String} → E u v → Reach E v w → Reach E u w
  cons-Reach e here = step here e
  cons-Reach e (step r f) = step (cons-Reach e r) f

  Walk-Plus : (v w : String) (q : List String) → Walk E (v ∷ q ++ w ∷ []) → Plus E v w
  Walk-Plus v w [] p = (v, here, p.0)
  Walk-Plus v w (x ∷ q) p = let (y, r, e) = Walk-Plus x w q p.1 in (y, cons-Reach p.0 r, e)

  pub IsCycle-Plus : (c : List String) → IsCycle E c → (v : String) × Plus E v v
  IsCycle-Plus c (v, q, e, w) = (v, Walk-Plus v v q (subst (λ c. Walk E c) e w))

pub drop_last-snoc : (p : List String) (v : String) → drop_last (p ++ v ∷ []) ≡ p
unfolding drop_last
drop_last-snoc [] v = refl
drop_last-snoc (x ∷ []) v = refl
drop_last-snoc (x ∷ y ∷ p) v = ap (λ p. x ∷ p) (drop_last-snoc (y ∷ p) v)
