-- ===== src/Base/Member.antt =====
-- Membership in lists, and what holds of each element.
use mathlib.Core.Path.{◌≡◌, refl, subst, sym, ◌∙◌}
use mathlib.Core.Logic.{◌⊎◌, inl, inr, ◌↔◌}
use mathlib.Core.Bool.{Bool, true, false}
use mathlib.Core.List.{List, [], ◌∷◌, ◌++◌}
use Prim.Native.String.{String}
use text.Mathlib.Text.{◌==◌ as str_eq}
use text.Mathlib.TextEquality.{eq_iff}
use native.Mathlib.Omega.{arith}
use multiverse.Base.Tests.{if◌then◌else◌, Bool-cases}
use multiverse.Base.Tables.{All, exists_where, update_where}

-- `x in xs`, as a statement: the occurrence is kept.
abbrev pub In : {A : Type 0} → A → List A → Type 0
In a [] = ⊥
In a (x ∷ xs) = (a ≡ x) ⊎ In a xs

-- `a in xs`, as Python computes it
unfoldable pub has : List String → String → Bool
has [] a = false
has (x ∷ xs) a = if str_eq x a then true else has xs a

pub has_iff : (xs : List String) (a : String) → (has xs a ≡ true) ↔ In a xs
unfolding has
has_iff [] a = ground arith
has_iff (x ∷ xs) a = ground (arith, eq_iff x a, has_iff xs a)

module _ {A : Type 0} where
  pub In-append : (a : A) (xs ys : List A) → In a (xs ++ ys) ↔ (In a xs ⊎ In a ys)
  In-append a [] ys = (inr, λ h. elim h [ inl e ↦ absurd e | inr h ↦ h ])
  In-append a (x ∷ xs) ys = ground (arith, In-append a xs ys)

  pub All-In {κ} : (P : A → Type κ) (xs : List A) → ((a : A) → In a xs → P a) → All P xs
  All-In P [] h = tt
  All-In P (x ∷ xs) h = (h x (inl refl), All-In P xs (λ a i. h a (inr i)))

  pub In-All {κ} : (P : A → Type κ) (xs : List A) (a : A) → All P xs → In a xs → P a
  In-All P [] a h i = absurd i
  In-All P (x ∷ xs) a h i = elim i [ inl e ↦ subst P (sym e) h.0 | inr i ↦ In-All P xs a h.1 i ]

module _ {A : Type 0} where
  pub All-map : (P Q : A → Type 0) → ((x : A) → P x → Q x) → (t : List A) → All P t → All Q t
  All-map P Q f [] a = tt
  All-map P Q f (x ∷ t) a = (f x a.0, All-map P Q f t a.1)

  -- A test that no row passes, and one that some row passes.
  pub exists-All :
      (p : A → Bool) (t : List A) → exists_where p t ≡ false → All (λ (x : A). p x ≡ false) t
  exists-All p [] h = tt
  exists-All p (x ∷ t) h = (ground arith, exists-All p t (ground arith))

  pub exists-In :
      (p : A → Bool) (t : List A) → exists_where p t ≡ true → (x : A) × In x t × (p x ≡ true)
  exists-In p [] h = absurd (ground arith)
  exists-In p (x ∷ t) h = elim (Bool-cases (p x)) [
    | inl e ↦ (x, inl refl, e)
    | inr e ↦ let (y, i, k) = exists-In p t (rw e at h) in (y, inr i, k)
  ]

  -- What an update makes of the rows that it fits, where the other rows satisfy it already.
  pub All-settled :
      (P : A → Type 0) (p : A → Bool) (f : A → A) (t : List A)
      → All (λ (x : A). (p x ≡ true → P (f x)) × (p x ≡ false → P x)) t
      → All P (update_where p f t)
  All-settled P p f [] a = tt
  All-settled P p f (x ∷ t) a = elim (Bool-cases (p x)) [
    | inl e ↦ rw e (a.0.0 e, All-settled P p f t a.1)
    | inr e ↦ rw e (a.0.1 e, All-settled P p f t a.1)
  ]

  pub All-every : (P : A → Type 0) → ((x : A) → P x) → (t : List A) → All P t
  All-every P h [] = tt
  All-every P h (x ∷ t) = (h x, All-every P h t)

  -- A row that an update does not fit stays.
  pub In-update :
      (p : A → Bool) (f : A → A) (x : A) (t : List A)
      → p x ≡ false
      → In x t
      → In x (update_where p f t)
  In-update p f x [] e i = absurd i
  In-update p f x (y ∷ t) e i = elim i [
    | inl here ↦ inl (here ∙ sym (rw (subst (λ z. p z ≡ false) here e) refl))
    | inr there ↦ inr (In-update p f x t e there)
  ]
