-- ===== src/Base/Lookups.antt =====
-- Lookups by key and row counts, after an update.
use mathlib.Core.List.{List, [], ◌∷◌, ◌++◌}
use mathlib.Core.Option.{Option, some, none}
use mathlib.Core.Path.{◌≡◌, ap, refl}
use mathlib.Core.Bool.{Bool, true, false}
use mathlib.Core.Logic.{inl, inr}
use Prim.Native.Nat.{ℕ}
use native.Mathlib.Omega.{arith}
use multiverse.Base.Tests.{◌==◌, ==_iff, if◌then◌else◌, Bool-cases}
use multiverse.Base.Tables.{select, select_all, length, update_where, exists_where, count_where}
use multiverse.Base.Keyed.{Distinct, select-key}

-- What an update makes of a row that was read.
abbrev pub updated {ℓ} : {A : Type ℓ} → (A → Bool) → (A → A) → Option A → Option A
updated p f none = none
updated p f (some x) = some (if p x then f x else x)

module _ {A : Type 0} (key : A → ℕ) where
  pub select-update :
      (k : ℕ) (p : A → Bool) (f : A → A)
      → ((x : A) → key (f x) ≡ key x)
      → (t : List A)
      → select (λ r. key r == k) (update_where p f t) ≡ updated p f (select (λ r. key r == k) t)
  select-update k p f h [] = refl
  select-update k p f h (x ∷ t) = ground (arith, h x, select-update k p f h t)

  count_absent :
      (k : ℕ) (p : A → Bool)
      → ((x : A) → p x ≡ true → key x ≡ k)
      → (t : List A) → exists_where (λ y. key y == k) t ≡ false
      → count_where p t ≡ 0
  count_absent k p h [] e = refl
  count_absent k p h (x ∷ t) e = ground (arith, h x, count_absent k p h t)

  -- At most one row has the key `k`: the row count of an update at `k` says whether it fitted.
  pub count-update :
      (k : ℕ) (p : A → Bool)
      → ((x : A) → p x ≡ true → key x ≡ k)
      → (t : List A) (x : A) → Distinct key t
      → select (λ r. key r == k) t ≡ some x
      → count_where p t ≡ (if p x then 1 else 0)
  count-update k p h [] x d e = cc
  count-update k p h (y ∷ t) x d e = elim (Bool-cases (key y == k)) [
    | inl here ↦
        let same : y ≡ x = ground arith in
        let at : key y ≡ k = (==_iff (key y) k).0 here in
        ground (arith, count_absent k p h t (rw at at d.0), same)
    | inr there ↦ ground (arith, h y, count-update k p h t x d.1)
  ]

  -- A lookup that finds nothing counts nothing.
  pub count-missing :
      (k : ℕ) (p : A → Bool)
      → ((x : A) → p x ≡ true → key x ≡ k)
      → (t : List A) → select (λ r. key r == k) t ≡ none
      → count_where p t ≡ 0
  count-missing k p h [] e = refl
  count-missing k p h (y ∷ t) e = ground (arith, h y, count-missing k p h t)

module _ {A : Type 0} (key : A → ℕ) where
  -- The row at a key, in a table that was updated at that key.
  pub found-update :
      (k : ℕ) (f : A → A)
      → ((x : A) → key (f x) ≡ key x)
      → (t t' : List A) (x : A) → t' ≡ update_where (λ r. key r == k) f t
      → select (λ r. key r == k) t ≡ some x
      → select (λ r. key r == k) t' ≡ some (f x)
  found-update k f h t t' x e there = ground (
    arith,
    select-key key k t x there,
    ap (select (λ r. key r == k)) e,
    select-update key k (λ r. key r == k) f h t,
    ap (updated (λ r. key r == k) f) there,
  )

module _ {A : Type 0} where
  -- An update that fits no row changes nothing.
  pub update-none :
      (p : A → Bool) (f : A → A) (t : List A) → count_where p t ≡ 0 → update_where p f t ≡ t
  update-none p f [] e = refl
  update-none p f (x ∷ t) e = ground (arith, update-none p f t)

  -- The row count of an update is the number of rows that the query with its test returns.
  pub count-select_all : (p : A → Bool) (t : List A) → count_where p t ≡ length (select_all p t)
  count-select_all p [] = refl
  count-select_all p (x ∷ t) = ground (arith, count-select_all p t)

  -- After an update whose rows no longer fit, no row fits.
  pub count-cleared :
      (p : A → Bool) (f : A → A)
      → ((x : A) → p x ≡ true → p (f x) ≡ false)
      → (t : List A) → count_where p (update_where p f t) ≡ 0
  count-cleared p f h [] = refl
  count-cleared p f h (x ∷ t) = ground (arith, h x, count-cleared p f h t)

  -- The new row is among the rows.
  pub exists-appended :
      (p : A → Bool) (t : List A) (x : A) → p x ≡ true → exists_where p (t ++ x ∷ []) ≡ true
  exists-appended p [] x h = ground arith
  exists-appended p (y ∷ t) x h = ground (arith, exists-appended p t x h)

-- A lookup finds one row.
pub same_found : {A : Type 0} (o : Option A) (a b : A) → o ≡ some a → o ≡ some b → a ≡ b
same_found none a b e h = cc
same_found (some x) a b e h = cc
