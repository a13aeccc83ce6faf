-- ===== src/Ledger/Tx/WaitKeys.antt =====
-- UNIQUE(namespace, wait_key): at most one wait has a key, so a lookup by key finds the only row.
use multiverse.Base.{
  ℕ, ◌≡◌, refl, Bool, true, false, ◌&&◌, some, List, [], ◌∷◌, ◌++◌, inl, inr, arith, ◌==◌, select,
  update_where, exists_where, Bool-cases, Grows,
}
use multiverse.Ledger.Schema.{Wait, WaitKey, key_eq, key_eq_sound, key_eq_refl}

-- `namespace = ? AND wait_key = ?`
abbrev pub at_key : ℕ → WaitKey → Wait → Bool
at_key ns key w = w.namespace == ns && key_eq w.wait_key key

abbrev pub DistinctKeys : List Wait → Type 0
DistinctKeys [] = Unit
DistinctKeys (w ∷ t) = (exists_where (at_key w.namespace w.wait_key) t ≡ false) × DistinctKeys t

pub at_key_sound :
    (ns : ℕ) (key : WaitKey) (w : Wait)
    → at_key ns key w ≡ true
    → (w.namespace ≡ ns) × (w.wait_key ≡ key)
at_key_sound ns key w h = (ground arith, key_eq_sound w.wait_key key (ground arith))

pub at_key_own : (w : Wait) → at_key w.namespace w.wait_key w ≡ true
at_key_own w = ground (arith, key_eq_refl w.wait_key)

-- A row at the key of another row: the two have one key.
at_key_swap :
    (w v : Wait) → at_key w.namespace w.wait_key v ≡ true → at_key v.namespace v.wait_key w ≡ true
at_key_swap w v h =
    let (n, k) = at_key_sound w.namespace w.wait_key v h in ground (arith, at_key_own w, n, k)

exists-append :
    (ns : ℕ) (key : WaitKey) (t : List Wait) (w : Wait)
    → exists_where (at_key ns key) t ≡ false
    → at_key ns key w ≡ false
    → exists_where (at_key ns key) (t ++ w ∷ []) ≡ false
exists-append ns key [] w h n = rw n
exists-append ns key (v ∷ t) w h n = elim (Bool-cases (at_key ns key v)) [
  | inl e ↦ absurd (false_true (rw e at h))
  | inr e ↦ rw e (exists-append ns key t w (rw e at h) n)
]
  where
    false_true : true ≡ false → ⊥
    false_true p = cc

pub DistinctKeys-append :
    (t : List Wait) (w : Wait)
    → DistinctKeys t
    → exists_where (at_key w.namespace w.wait_key) t ≡ false
    → DistinctKeys (t ++ w ∷ [])
DistinctKeys-append [] w d h = (refl, tt)
DistinctKeys-append (v ∷ t) w d h = elim (Bool-cases (at_key w.namespace w.wait_key v)) [
  | inl e ↦ absurd (clash (rw e at h))
  | inr e ↦ (
    exists-append v.namespace v.wait_key t w d.0 (other e),
    DistinctKeys-append t w d.1 (rw e at h),
  )
]
  where
    clash : true ≡ false → ⊥
    clash p = cc

    other : at_key w.namespace w.wait_key v ≡ false → at_key v.namespace v.wait_key w ≡ false
    other e = elim (Bool-cases (at_key v.namespace v.wait_key w)) [
      | inl same ↦ absurd (clash (cc (at_key_swap v w same)))
      | inr differ ↦ differ
    ]

exists-update :
    (ns : ℕ) (key : WaitKey) (p : Wait → Bool) (f : Wait → Wait)
    → ((w : Wait) → p w ≡ true → (((f w).namespace ≡ w.namespace) × ((f w).wait_key ≡ w.wait_key)))
    → (t : List Wait)
    → exists_where (at_key ns key) (update_where p f t) ≡ exists_where (at_key ns key) t
exists-update ns key p f h [] = refl
exists-update ns key p f h (w ∷ t) = elim (Bool-cases (p w)) [
  | inl e ↦ rw (e, (h w e).0, (h w e).1, exists-update ns key p f h t)
  | inr e ↦ rw (e, exists-update ns key p f h t)
]

pub DistinctKeys-update :
    (p : Wait → Bool) (f : Wait → Wait)
    → ((w : Wait) → p w ≡ true → (((f w).namespace ≡ w.namespace) × ((f w).wait_key ≡ w.wait_key)))
    → (t : List Wait) → DistinctKeys t
    → DistinctKeys (update_where p f t)
DistinctKeys-update p f h [] d = tt
DistinctKeys-update p f h (w ∷ t) d = elim (Bool-cases (p w)) [
  | inl e ↦ rw e (
    rw ((h w e).0, (h w e).1, exists-update w.namespace w.wait_key p f h t) d.0,
    DistinctKeys-update p f h t d.1,
  )
  | inr e ↦
      rw e (rw (exists-update w.namespace w.wait_key p f h t) d.0, DistinctKeys-update p f h t d.1)
]

module _ (R : Wait → Wait → Type 0) (r : (w : Wait) → R w w) (ns : ℕ) (key : WaitKey)
    (f : Wait → Wait) where
  not_among :
      (t : List Wait)
      → exists_where (at_key ns key) t ≡ false
      → Grows R t (update_where (at_key ns key) f t)
  not_among [] h = tt
  not_among (w ∷ t) h = elim (Bool-cases (at_key ns key w)) [
    | inl e ↦ absurd (clash (rw e at h))
    | inr e ↦ rw e (r w, not_among t (rw e at h))
  ]
    where
      clash : true ≡ false → ⊥
      clash p = cc

  -- An update at a key changes only the row that a lookup at the key finds.
  pub Grows-update_wait_key :
      (t : List Wait) (x : Wait)
      → DistinctKeys t
      → select (at_key ns key) t ≡ some x
      → R x (f x)
      → Grows R t (update_where (at_key ns key) f t)
  Grows-update_wait_key [] x d e h = tt
  Grows-update_wait_key (w ∷ t) x d e h = elim (Bool-cases (at_key ns key w)) [
    | inl here ↦
        let same : w ≡ x = found here in
        let k = at_key_sound ns key w here in
        rw here (rw same h, not_among t (rw (k.0, k.1) at d.0))
    | inr there ↦ rw there (r w, Grows-update_wait_key t x d.1 (rw there at e) h)
  ]
    where
      found : at_key ns key w ≡ true → w ≡ x
      found here = let e' : some w ≡ some x = rw here at e in cc
