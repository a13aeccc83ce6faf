-- ===== src/Base/Sorting.antt =====
-- ORDER BY, row by row, for any test of which row comes first; rows that neither comes before keep
-- their order. And pages of a list.
use Prim.Native.Nat.{ℕ, zero, suc, ◌≤◌}
use mathlib.Core.Path.{◌≡◌, refl, ap}
use mathlib.Core.Logic.{◌⊎◌, inl, inr}
use mathlib.Core.Bool.{Bool, true, false}
use mathlib.Core.List.{List, [], ◌∷◌, ◌++◌}
use native.Mathlib.Omega.{arith}
use multiverse.Base.Tests.{if◌then◌else◌, Bool-cases}
use multiverse.Base.Tables.{All, length, take, drop}

module _ {A : Type 0} (before : A → A → Bool) where
  abbrev pub insert_by : A → List A → List A
  insert_by w [] = w ∷ []
  insert_by w (x ∷ l) = let rest = insert_by w l in if before x w then x ∷ rest else w ∷ x ∷ l

  abbrev pub order_by : List A → List A
  order_by [] = []
  order_by (w ∷ l) = insert_by w (order_by l)

  -- No row comes before one that stands in front of it.
  abbrev pub SortedBy : List A → Type 0
  SortedBy [] = Unit
  SortedBy (x ∷ l) = All (λ (y : A). before y x ≡ false) l × SortedBy l

  module _ (asym : (x w : A) → before x w ≡ true → before w x ≡ false)
      (trans : (y x w : A) → before y x ≡ false → before x w ≡ false → before y w ≡ false) where
    All-insert_by :
        (x w : A) (l : List A)
        → before w x ≡ false
        → All (λ (y : A). before y x ≡ false) l
        → All (λ (y : A). before y x ≡ false) (insert_by w l)
    All-insert_by x w [] p a = (p, tt)
    All-insert_by x w (z ∷ l) p a = elim (Bool-cases (before z w)) [
      | inl e ↦ rw e (a.0, All-insert_by x w l p a.1)
      | inr e ↦ rw e (p, a)
    ]

    All-later :
        (x w : A) (l : List A)
        → before x w ≡ false
        → All (λ (y : A). before y x ≡ false) l
        → All (λ (y : A). before y w ≡ false) l
    All-later x w [] e a = tt
    All-later x w (y ∷ l) e a = (trans y x w a.0 e, All-later x w l e a.1)

    insert_by-SortedBy : (w : A) (l : List A) → SortedBy l → SortedBy (insert_by w l)
    insert_by-SortedBy w [] h = (tt, tt)
    insert_by-SortedBy w (x ∷ l) h = elim (Bool-cases (before x w)) [
      | inl e ↦ rw e (All-insert_by x w l (asym x w e) h.0, insert_by-SortedBy w l h.1)
      | inr e ↦ rw e ((e, All-later x w l e h.0), h)
    ]

    -- Sorting sorts.
    pub order_by-SortedBy : (l : List A) → SortedBy (order_by l)
    order_by-SortedBy [] = tt
    order_by-SortedBy (w ∷ l) = insert_by-SortedBy w (order_by l) (order_by-SortedBy l)

module _ {A : Type 0} where
  -- A page and what it leaves out.
  pub take-drop : (n : ℕ) (l : List A) → l ≡ take n l ++ drop n l
  take-drop zero l = refl
  take-drop (suc n) [] = refl
  take-drop (suc n) (x ∷ l) = ap (λ t. x ∷ t) (take-drop n l)

  pub length-take : (n : ℕ) (l : List A) → length (take n l) ≤ n
  length-take zero l = omega arith
  length-take (suc n) [] = omega arith
  length-take (suc n) (x ∷ l) = omega (arith, length-take n l)

  -- A page that leaves something out is full.
  pub full-take : (n : ℕ) (l : List A) → (drop n l ≡ []) ⊎ (length (take n l) ≡ n)
  full-take zero l = inr refl
  full-take (suc n) [] = inl refl
  full-take (suc n) (x ∷ l) = elim (full-take n l) [ inl e ↦ inl e | inr e ↦ inr (ap suc e) ]
