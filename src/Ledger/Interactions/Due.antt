-- ===== src/Ledger/Interactions/Due.antt =====
-- After `expire_codex_interactions` no pending interaction is past its time.
use multiverse.Base.{
  ℕ, ◌≡◌, refl, true, ◌&&◌, ◌||◌, List, [], ◌∷◌, arith, ◌==◌, leb, ltb, select_all, count_where,
  update_where, All, ap, sym, subst, ◌∙◌, inl, inr, Bool-cases, ◌⊎◌,
}
use multiverse.Ledger.Status.InteractionStatus
use multiverse.Ledger.Schema.{Interaction}
use multiverse.Ledger.Tx.Monad.{ok}
use multiverse.Ledger.Tx.Database.{Db}
use multiverse.Ledger.Tx.Inversion.{bind-ok, gets-ok, pure-ok}
use multiverse.Ledger.Interactions.{expired}
use multiverse.Ledger.Interactions.Reply.{update_interactions-ok, event-kept}
use multiverse.Ledger.Interactions.Expiry.{
  insert_by, order_by, is_due, expire_rows, expire_codex_interactions,
}

-- Some row has the id.
abbrev Named : ℕ → List Interaction → Type 0
Named k [] = ⊥
Named k (i ∷ is) = (k ≡ i.id) ⊎ Named k is

Named-insert :
    (time : Interaction → ℕ) (k : ℕ) (i : Interaction) (is : List Interaction)
    → (k ≡ i.id) ⊎ Named k is
    → Named k (insert_by time i is)
unfolding insert_by
Named-insert time k i [] h = h
Named-insert time k i (j ∷ js) h =
    elim (Bool-cases (ltb (time i) (time j) || time i == time j && leb i.id j.id)) [
      | inl before ↦ rw before h
      | inr after ↦ rw after (ground (arith, Named-insert time k i js, h))
    ]

Named-order :
    (time : Interaction → ℕ) (k : ℕ) (is : List Interaction)
    → Named k is
    → Named k (order_by time is)
unfolding order_by
Named-order time k [] h = h
Named-order time k (i ∷ is) h =
    Named-insert time k i (order_by time is) (ground (arith, Named-order time k is))

-- Every due interaction of the table is among the rows that are left.
abbrev Listed : ℕ → List Interaction → Interaction → Type 0
Listed now rows i = is_due now i ≡ true → Named i.id rows

Listed-select : (now : ℕ) (t : List Interaction) → All (Listed now (select_all (is_due now) t)) t
Listed-select now [] = tt
Listed-select now (i ∷ t) = (λ due. rw due (inl refl), weaken t (Listed-select now t))
  where
    weaken :
        (u : List Interaction)
        → All (Listed now (select_all (is_due now) t)) u
        → All (Listed now (select_all (is_due now) (i ∷ t))) u
    weaken [] h = tt
    weaken (j ∷ u) h = ((λ due. ground (arith, h.0 due)), weaken u h.1)

Listed-update :
    (now : ℕ) (row : Interaction) (rows t : List Interaction)
    → All (Listed now (row ∷ rows)) t
    → All (Listed now rows) (
        update_where (λ i. i.id == row.id && InteractionStatus.is_pending i.status) (expired now) t)
Listed-update now row rows [] h = tt
Listed-update now row rows (i ∷ t) h = (
  elim (Bool-cases (i.id == row.id && InteractionStatus.is_pending i.status)) [
    | inl hit ↦ rw hit (λ due. absurd (ground (arith, due)))
    | inr miss ↦ rw miss (λ due. ground (arith, h.0 due, miss, due))
  ],
  Listed-update now row rows t h.1,
)

nothing_due :
    (now : ℕ) (t : List Interaction) → All (Listed now []) t → count_where (is_due now) t ≡ 0
nothing_due now [] h = refl
nothing_due now (i ∷ t) h = elim (Bool-cases (is_due now i)) [
  | inl due ↦ absurd (h.0 due)
  | inr later ↦ rw later (nothing_due now t h.1)
]

expire_rows-clears :
    (now : ℕ) (rows : List Interaction) (s : Db) (r : List ℕ × Db)
    → All (Listed now rows) s.dialogue.interactions
    → expire_rows now rows s ≡ ok r
    → count_where (is_due now) r.1.dialogue.interactions ≡ 0
unfolding expire_rows
expire_rows-clears now [] s r h e =
    subst (λ t. count_where (is_due now) t.dialogue.interactions ≡ 0) (pure-ok [] s r e)
      (nothing_due now s.dialogue.interactions h)
expire_rows-clears now (row ∷ rows) s r h e =
    let (n, s1, e1, f1) = bind-ok _ _ s r e in
    let (u, s2, e2, f2) = bind-ok _ _ s1 r f1 in
    let (ids, s3, e3, f3) = bind-ok _ _ s2 r f2 in
    let table =
      ap (λ d. d.interactions) (event-kept _ _ _ _ _ _ s1 (u, s2) e2).0
      ∙ (update_interactions-ok _ _ s (n, s1) e1).0 in
    let listed =
      subst (All (Listed now rows)) (sym table)
        (Listed-update now row rows s.dialogue.interactions h) in
    subst (λ t. count_where (is_due now) t.dialogue.interactions ≡ 0)
      (pure-ok (row.id ∷ ids) s3 r f3) (expire_rows-clears now rows s2 (ids, s3) listed e3)

Listed-order :
    (now : ℕ) (rows t : List Interaction)
    → All (Listed now rows) t
    → All (Listed now (order_by (λ i. i.expires_at) rows)) t
Listed-order now rows [] h = tt
Listed-order now rows (i ∷ t) h =
    ((λ due. Named-order (λ i. i.expires_at) i.id rows (h.0 due)), Listed-order now rows t h.1)

-- When `expire_codex_interactions` succeeds, no pending interaction is left whose time is up.
pub expire_codex_interactions-clears :
    (now : ℕ) (s : Db) (r : List ℕ × Db)
    → expire_codex_interactions now s ≡ ok r
    → count_where (is_due now) r.1.dialogue.interactions ≡ 0
unfolding expire_codex_interactions
expire_codex_interactions-clears now s r e =
    expire_rows-clears now
      (order_by (λ i. i.expires_at) (select_all (is_due now) s.dialogue.interactions)) s r
      (Listed-order now (select_all (is_due now) s.dialogue.interactions) s.dialogue.interactions
        (Listed-select now s.dialogue.interactions))
      (gets-ok _ _ s r e)
