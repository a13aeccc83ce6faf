-- ===== src/Base/Keyed.antt =====
-- A table whose rows have distinct keys, and what a lookup by key says of it.
use mathlib.Core.List.{List, [], ◌∷◌, ◌++◌}
use mathlib.Core.Option.{some}
use mathlib.Core.Path.{◌≡◌, refl, subst, sym}
use mathlib.Core.Bool.{Bool, true, false, ◌||◌, ◌&&◌}
use mathlib.Core.Logic.{inl, inr, ◌≢◌}
use Prim.Native.Nat.{ℕ}
use native.Mathlib.Omega.{arith}
use multiverse.Base.Tests.{◌==◌, ==_iff, if◌then◌else◌, Bool-cases}
use multiverse.Base.Tables.{select, update_where, exists_where}
use multiverse.Base.Growth.{Grows}

module _ {A : Type 0} (key : A → ℕ) where
  abbrev pub Distinct : List A → Type 0
  Distinct [] = Unit
  Distinct (x ∷ t) = (exists_where (λ y. key y == key x) t ≡ false) × Distinct t

  pub select-key : (k : ℕ) (t : List A) (x : A) → select (λ r. key r == k) t ≡ some x → key x ≡ k
  select-key k [] x e = cc
  select-key k (y ∷ t) x e = ground (arith, select-key k t x)

  not_among :
      (k : ℕ) (x : A) (t : List A)
      → key x ≡ k
      → exists_where (λ y. key y == k) t ≡ false
      → (R : A → A → Type 0) → ((a : A) → R a a)
      → (f : A → A) → Grows R t (update_where (λ r. key r == k) f t)
  not_among k x [] h n R r f = tt
  not_among k x (y ∷ t) h n R r f = elim (Bool-cases (key y == k)) [
    | inl e ↦ absurd (ground arith)
    | inr e ↦ rw e (r y, not_among k x t h (ground arith) R r f)
  ]

  -- Only the row that a lookup by key finds is changed by an update at that key.
  pub Grows-update_key :
      (R : A → A → Type 0)
      → ((a : A) → R a a)
      → (k : ℕ) (f : A → A) (t : List A) (x : A) → Distinct t
      → select (λ r. key r == k) t ≡ some x
      → R x (f x)
      → Grows R t (update_where (λ r. key r == k) f t)
  Grows-update_key R r k f [] x d e h = tt
  Grows-update_key R r k f (y ∷ t) x d e h = elim (Bool-cases (key y == k)) [
    | inl here ↦
        let same : y ≡ x = ground arith in
        let at : key y ≡ k = (==_iff (key y) k).0 here in
        rw here (rw same h, not_among k y t at (rw at at d.0) R r f)
    | inr there ↦ rw there (r y, Grows-update_key R r k f t x d.1 (rw there at e) h)
  ]

  update-guarded :
      (k : ℕ) (p : A → Bool) (f : A → A) (t : List A)
      → update_where (λ r. key r == k && p r) f t
        ≡ update_where (λ r. key r == k) (λ r. if p r then f r else r) t
  update-guarded k p f [] = refl
  update-guarded k p f (y ∷ t) = ground (arith, update-guarded k p f t)

  -- The same, where a further test decides on the row.
  pub Grows-update_guarded :
      (R : A → A → Type 0)
      → ((a : A) → R a a)
      → (k : ℕ) (p : A → Bool) (f : A → A) (t : List A) (x : A) → Distinct t
      → select (λ r. key r == k) t ≡ some x
      → (p x ≡ true → R x (f x))
      → Grows R t (update_where (λ r. key r == k && p r) f t)
  Grows-update_guarded R r k p f t x d e h = subst (Grows R t) (sym (update-guarded k p f t)) (
      Grows-update_key R r k (λ r. if p r then f r else r) t x d e
        (elim (Bool-cases (p x)) [ inl yes_p ↦ rw yes_p (h yes_p) | inr no_p ↦ rw no_p (r x) ]))

  exists-append :
      (k : ℕ) (t : List A) (x : A)
      → exists_where (λ y. key y == k) t ≡ false
      → key x ≢ k
      → exists_where (λ y. key y == k) (t ++ x ∷ []) ≡ false
  exists-append k [] x h n = ground arith
  exists-append k (y ∷ t) x h n = ground (arith, exists-append k t x)

  -- A row with a new key may come behind the others.
  pub Distinct-append :
      (t : List A) (x : A)
      → Distinct t
      → exists_where (λ y. key y == key x) t ≡ false
      → Distinct (t ++ x ∷ [])
  Distinct-append [] x d h = (refl, tt)
  Distinct-append (y ∷ t) x d h =
      let ne : key x ≢ key y = ground arith in
      (exists-append (key y) t x d.0 ne, Distinct-append t x d.1 (ground arith))

  exists-update :
      (k : ℕ) (p : A → Bool) (f : A → A)
      → ((x : A) → p x ≡ true → key (f x) ≡ key x)
      → (t : List A)
      → exists_where (λ y. key y == k) (update_where p f t) ≡ exists_where (λ y. key y == k) t
  exists-update k p f h [] = refl
  exists-update k p f h (y ∷ t) = ground (arith, h y, exists-update k p f h t)

  -- An update that leaves the keys alone.
  pub Distinct-update :
      (p : A → Bool) (f : A → A)
      → ((x : A) → p x ≡ true → key (f x) ≡ key x)
      → (t : List A) → Distinct t
      → Distinct (update_where p f t)
  Distinct-update p f h [] d = tt
  Distinct-update p f h (y ∷ t) d = (
    rw (exists-update (key (if p y then f y else y)) p f h t)
        (elim (Bool-cases (p y)) [ inl e ↦ rw (e, h y e) d.0 | inr e ↦ rw e d.0 ]),
    Distinct-update p f h t d.1,
  )

  exists_of_select :
      (p : A → Bool) (t : List A) (x : A)
      → select p t ≡ some x
      → exists_where (λ y. key y == key x) t ≡ true
  exists_of_select p [] x e = cc
  exists_of_select p (y ∷ t) x e = ground (arith, exists_of_select p t x)

  -- A row that some lookup finds is the one that its own key finds.
  pub select-own_key :
      (p : A → Bool) (t : List A) (x : A)
      → Distinct t
      → select p t ≡ some x
      → select (λ r. key r == key x) t ≡ some x
  select-own_key p [] x d e = cc
  select-own_key p (y ∷ t) x d e = ground (arith, select-own_key p t x d.1, exists_of_select p t x)

  -- The new row is found by its key.
  pub select-append_new :
      (k : ℕ) (t : List A) (x : A)
      → exists_where (λ y. key y == k) t ≡ false
      → key x ≡ k
      → select (λ r. key r == k) (t ++ x ∷ []) ≡ some x
  select-append_new k [] x h e = ground arith
  select-append_new k (y ∷ t) x h e = ground (arith, select-append_new k t x)

module _ {A : Type 0} (p q : A → Bool) where
  pub exists-false_or :
      (t : List A) → exists_where (λ x. p x || q x) t ≡ false → exists_where p t ≡ false
  exists-false_or [] h = refl
  exists-false_or (x ∷ t) h = ground (arith, exists-false_or t)

  pub exists-or_false :
      (t : List A) → exists_where (λ x. p x || q x) t ≡ false → exists_where q t ≡ false
  exists-or_false [] h = refl
  exists-or_false (x ∷ t) h = ground (arith, exists-or_false t)

module _ {A : Type 0} where
  -- What a lookup finds passes its test.
  pub select-holds : (p : A → Bool) (t : List A) (x : A) → select p t ≡ some x → p x ≡ true
  select-holds p [] x e = cc
  select-holds p (y ∷ t) x e = ground (arith, select-holds p t x)
