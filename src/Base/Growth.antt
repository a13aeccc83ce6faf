-- ===== src/Base/Growth.antt =====
-- How a table may change: every old row stays in its place and moves by a relation on rows, and
-- new rows come behind the old ones.
use mathlib.Core.Path.{◌≡◌, sym}
use mathlib.Core.Option.{some}
use Prim.Native.Nat.{ℕ}
use native.Mathlib.Omega.{arith}
use mathlib.Core.Bool.{Bool, true}
use mathlib.Core.Logic.{inl, inr}
use mathlib.Core.List.{List, [], ◌∷◌, ◌++◌}
use multiverse.Base.Tests.{◌==◌, if◌then◌else◌, Bool-cases}
use multiverse.Base.Tables.{select, exists_where, update_where, All}

module _ {A : Type 0} where
  abbrev pub Grows : (A → A → Type 0) → List A → List A → Type 0
  Grows R [] t = Unit
  Grows R (x ∷ xs) [] = ⊥
  Grows R (x ∷ xs) (y ∷ ys) = R x y × Grows R xs ys

module _ {A : Type 0} (R : A → A → Type 0) where
  pub Grows-refl : ((x : A) → R x x) → (t : List A) → Grows R t t
  Grows-refl r [] = tt
  Grows-refl r (x ∷ xs) = (r x, Grows-refl r xs)

  pub Grows-trans :
      ((x y z : A) → R x y → R y z → R x z)
      → (t u v : List A) → Grows R t u
      → Grows R u v
      → Grows R t v
  Grows-trans f [] u v g h = tt
  Grows-trans f (x ∷ t) [] v g h = absurd g
  Grows-trans f (x ∷ t) (y ∷ u) [] g h = absurd h
  Grows-trans f (x ∷ t) (y ∷ u) (z ∷ v) g h = (f x y z g.0 h.0, Grows-trans f t u v g.1 h.1)

  pub Grows-append : ((x : A) → R x x) → (t u : List A) → Grows R t (t ++ u)
  Grows-append r [] u = tt
  Grows-append r (x ∷ t) u = (r x, Grows-append r t u)

  pub Grows-update :
      (r : (x : A) → R x x) (p : A → Bool) (f : A → A)
      → ((x : A) → p x ≡ true → R x (f x))
      → (t : List A) → Grows R t (update_where p f t)
  Grows-update r p f h [] = tt
  Grows-update r p f h (x ∷ t) = (
    elim (Bool-cases (p x)) as (λ _. R x (if p x then f x else x)) [
      | inl e ↦ row e
      | inr e ↦ rw e (r x)
    ],
    Grows-update r p f h t,
  )
    where
      row : p x ≡ true → R x (if p x then f x else x)
      row e = rw e (h x e)

  -- A row that a key finds is found after the changes too, moved by the relation.
  pub Grows-select :
      (key : A → ℕ)
      → ((x y : A) → R x y → key y ≡ key x)
      → (k : ℕ) (t u : List A) (x : A) → Grows R t u
      → select (λ r. key r == k) t ≡ some x
      → (y : A) × (select (λ r. key r == k) u ≡ some y) × R x y
  Grows-select key h k [] u x g e = absurd (ground (arith, e))
  Grows-select key h k (z ∷ t) [] x g e = absurd g
  Grows-select key h k (z ∷ t) (y ∷ u) x g e = elim (Bool-cases (key z == k)) [
    | inl here ↦
        let same : z ≡ x = ground arith in
        let kept = h z y g.0 in (y, ground arith, rw (sym same) g.0)
    | inr there ↦
        let kept = h z y g.0 in
        let (w, found, moved) = Grows-select key h k t u x g.1 (ground arith) in
        (w, ground arith, moved)
  ]

  -- What the relation keeps, some row still has.
  pub Grows-exists :
      (p : A → Bool)
      → ((x y : A) → R x y → p x ≡ true → p y ≡ true)
      → (t u : List A) → Grows R t u
      → exists_where p t ≡ true
      → exists_where p u ≡ true
  Grows-exists p h [] u g e = absurd (ground (arith, e))
  Grows-exists p h (x ∷ t) [] g e = absurd g
  Grows-exists p h (x ∷ t) (y ∷ u) g e = ground (arith, h x y g.0, Grows-exists p h t u g.1)

module _ {A : Type 0} (P : A → Type 0) where
  pub All-append : (t u : List A) → All P t → All P u → All P (t ++ u)
  All-append [] u g h = h
  All-append (x ∷ t) u g h = (g.0, All-append t u g.1 h)

  pub All-update :
      (p : A → Bool) (f : A → A)
      → ((x : A) → p x ≡ true → P x → P (f x))
      → (t : List A) → All P t
      → All P (update_where p f t)
  All-update p f h [] g = tt
  All-update p f h (x ∷ t) g = (
    elim (Bool-cases (p x)) [ inl e ↦ rw e (h x e g.0) | inr e ↦ rw e g.0 ],
    All-update p f h t g.1,
  )
