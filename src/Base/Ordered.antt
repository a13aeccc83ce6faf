-- ===== src/Base/Ordered.antt =====
-- What a sorted selection of a table with distinct keys holds, without the tests that compute it:
-- its rows by membership, and their order as a relation.
use Prim.Native.Nat.{ℕ}
use mathlib.Core.Path.{◌≡◌, refl, sym, subst}
use mathlib.Core.Logic.{◌⊎◌, inl, inr, ◌↔◌, ◌≢◌}
use mathlib.Core.Bool.{Bool, true, false}
use mathlib.Core.List.{List, [], ◌∷◌}
use native.Mathlib.Omega.{arith}
use multiverse.Base.Tests.{◌==◌, Bool-cases}
use multiverse.Base.Tables.{All, exists_where, select_all}
use multiverse.Base.Keyed.{Distinct}
use multiverse.Base.Member.{In}
use multiverse.Base.Sorting.{insert_by, order_by, SortedBy, order_by-SortedBy}

-- Every element is related to all that follow it.
abbrev pub Ordered : {A : Type 0} → (A → A → Type 0) → List A → Type 0
Ordered R [] = Unit
Ordered R (x ∷ l) = All (R x) l × Ordered R l

module _ {A : Type 0} where
  pub In-select_all :
      (p : A → Bool) (w : A) (l : List A) → In w (select_all p l) ↔ (In w l × (p w ≡ true))
  In-select_all p w [] = ((λ i. absurd i), (λ h. h.0))
  In-select_all p w (x ∷ l) =
      let ih = In-select_all p w l in
      elim (Bool-cases (p x)) [
        | inl e ↦ rw e (
          (λ i. elim i [
            | inl here ↦ (inl here, subst (λ z. p z ≡ true) (sym here) e)
            | inr there ↦ let (a, b) = ih.0 there in (inr a, b)
          ]),
          (λ h. elim h.0 [ inl here ↦ inl here | inr there ↦ inr (ih.1 (there, h.1)) ]),
        )
        | inr e ↦ rw e (
          (λ i. let (a, b) = ih.0 i in (inr a, b)),
          (λ h. elim h.0 [
            | inl here ↦ absurd (clash (sym (subst (λ z. p z ≡ true) here h.1)) e)
            | inr there ↦ ih.1 (there, h.1)
          ]),
        )
      ]
    where
      clash : true ≡ p x → p x ≡ false → ⊥
      clash a b = cc

  module _ (before : A → A → Bool) where
    In-insert_by : (v w : A) (l : List A) → In v (insert_by before w l) ↔ ((v ≡ w) ⊎ In v l)
    In-insert_by v w [] = ((λ i. i), (λ i. i))
    In-insert_by v w (x ∷ l) =
        let ih = In-insert_by v w l in
        elim (Bool-cases (before x w)) [
          | inl e ↦ rw e (
            (λ i. elim i [
              | inl here ↦ inr (inl here)
              | inr there ↦ elim (ih.0 there) [ inl new ↦ inl new | inr old ↦ inr (inr old) ]
            ]),
            (λ h. elim h [
              | inl new ↦ inr (ih.1 (inl new))
              | inr i ↦ elim i [ inl here ↦ inl here | inr old ↦ inr (ih.1 (inr old)) ]
            ]),
          )
          | inr e ↦ rw e ((λ i. i), (λ i. i))
        ]

    pub In-order_by : (v : A) (l : List A) → In v (order_by before l) ↔ In v l
    In-order_by v [] = ((λ i. i), (λ i. i))
    In-order_by v (w ∷ l) =
        let step = In-insert_by v w (order_by before l) in
        let ih = In-order_by v l in
        (
          (λ i. elim (step.0 i) [ inl new ↦ inl new | inr old ↦ inr (ih.0 old) ]),
          (λ i. elim i [ inl new ↦ step.1 (inl new) | inr old ↦ step.1 (inr (ih.1 old)) ]),
        )

    exists-insert_by :
        (p : A → Bool) (w : A) (l : List A)
        → exists_where p (insert_by before w l) ≡ exists_where p (w ∷ l)
    exists-insert_by p w [] = refl
    exists-insert_by p w (x ∷ l) = ground (arith, exists-insert_by p w l)

  module _ (key : A → ℕ) where
    exists-select_all :
        (p q : A → Bool) (l : List A)
        → exists_where q l ≡ false
        → exists_where q (select_all p l) ≡ false
    exists-select_all p q [] h = refl
    exists-select_all p q (x ∷ l) h = ground (arith, exists-select_all p q l)

    pub Distinct-select_all :
        (p : A → Bool) (l : List A) → Distinct key l → Distinct key (select_all p l)
    Distinct-select_all p [] d = tt
    Distinct-select_all p (x ∷ l) d =
        let ih = Distinct-select_all p l d.1 in
        elim (Bool-cases (p x)) [
          | inl e ↦ rw e (exists-select_all p (λ y. key y == key x) l d.0, ih)
          | inr e ↦ rw e ih
        ]

    module _ (before : A → A → Bool) where
      Distinct-insert_by :
          (w : A) (l : List A)
          → exists_where (λ y. key y == key w) l ≡ false
          → Distinct key l
          → Distinct key (insert_by before w l)
      Distinct-insert_by w [] h d = (refl, tt)
      Distinct-insert_by w (x ∷ l) h d = elim (Bool-cases (before x w)) [
        | inl e ↦ rw e (
          ground (arith, exists-insert_by before (λ y. key y == key x) w l, d.0, h),
          Distinct-insert_by w l (ground arith) d.1,
        )
        | inr e ↦ rw e (h, d)
      ]

      pub Distinct-order_by : (l : List A) → Distinct key l → Distinct key (order_by before l)
      Distinct-order_by [] d = tt
      Distinct-order_by (w ∷ l) d =
          Distinct-insert_by w (order_by before l) (same l d.0) (Distinct-order_by l d.1)
        where
          same :
              (t : List A)
              → exists_where (λ y. key y == key w) t ≡ false
              → exists_where (λ y. key y == key w) (order_by before t) ≡ false
          same [] h = refl
          same (y ∷ t) h =
              ground
                (arith, exists-insert_by before (λ z. key z == key w) y (order_by before t), same t)

      -- Where keys are distinct, a sorted list is in the order that decides between any two keys.
      module _ (R : A → A → Type 0)
          (decides : (x y : A) → before y x ≡ false → key y ≢ key x → R x y) where
        below :
            (x : A) (l : List A)
            → All (λ (y : A). before y x ≡ false) l
            → exists_where (λ y. key y == key x) l ≡ false
            → All (R x) l
        below x [] a h = tt
        below x (y ∷ l) a h = (decides x y a.0 (ground arith), below x l a.1 (ground arith))

        pub SortedBy-Ordered : (l : List A) → SortedBy before l → Distinct key l → Ordered R l
        SortedBy-Ordered [] s d = tt
        SortedBy-Ordered (x ∷ l) s d = (below x l s.0 d.0, SortedBy-Ordered l s.1 d.1)

-- `rows` lists the elements of `t` that satisfy `P`, and no others, in the strict order `R`.
abbrev pub Lists : {A : Type 0} → (A → A → Type 0) → (A → Type 0) → List A → List A → Type 0
Lists R P t rows = Ordered R rows × ((x : _) → In x rows ↔ (In x t × P x))

module _ {A : Type 0} (key : A → ℕ) (before : A → A → Bool) (R : A → A → Type 0) (p : A → Bool)
    (P : A → Type 0) where
  -- A selection that is sorted by a test lists by the relation and the predicate that the tests
  -- decide.
  pub order_by-Lists :
      ((x w : A) → before x w ≡ true → before w x ≡ false)
      → ((y x w : A) → before y x ≡ false → before x w ≡ false → before y w ≡ false)
      → ((x y : A) → before y x ≡ false → key y ≢ key x → R x y)
      → ((x : A) → (p x ≡ true) ↔ P x)
      → (t : List A) → Distinct key t
      → Lists R P t (order_by before (select_all p t))
  order_by-Lists asym trans decides fits t d = (
    SortedBy-Ordered key before R decides (order_by before (select_all p t))
        (order_by-SortedBy before asym trans (select_all p t))
        (Distinct-order_by key before (select_all p t) (Distinct-select_all key p t d)),
    λ x.
        let listed = In-order_by before x (select_all p t) in
        let chosen = In-select_all p x t in
        (
          (λ i. let (a, b) = chosen.0 (listed.0 i) in (a, (fits x).0 b)),
          (λ h. listed.1 (chosen.1 (h.0, (fits x).1 h.1))),
        ),
  )
