-- ===== src/Ledger/Submit/Delivery.antt =====
-- The outbox of submissions: what is claimed is counted, what is delivered stays delivered.
use multiverse.Base.{
  ℕ, ◌+◌, String, ◌≡◌, ◌∙◌, ap, sym, subst, refl, Bool, true, false, ◌&&◌, Option, none, some, inl,
  inr, arith, ◌==◌, is_blank, select, select-key, select-update, count-update, update-none,
  found-update, update_where, count_where, updated, if◌then◌else◌, Bool-cases,
}
use text.Mathlib.TextPositions.{eq_refl}
use multiverse.Ledger.Status.OutboxStatus
use multiverse.Ledger.Status.OutboxStatus.{OutboxStatus}
use multiverse.Ledger.Schema.{Outbox, EventPayload}
use multiverse.Ledger.Tx.Monad.{Error, Conflict, ok, err, pure, ◌>>=◌}
use multiverse.Ledger.Tx.Inversion.{bind-ok, check-ok, read-ok, then-ok, else-ok}
use multiverse.Ledger.Tx.Database.{Db, update_outbox, update_attempts, event}
use multiverse.Ledger.Evolution.{IsValid}
use multiverse.Ledger.Queries.{outbox_of}
use multiverse.Ledger.Submit.{
  outbox_by_id, refers_to, claim_submit_outbox, mark_submit_outbox_submitted,
}
use multiverse.Ledger.Submit.Outcomes.{mark_submit_outbox_retryable}

-- The row of a claim.
abbrev pub submitting : ℕ → Outbox → Outbox
submitting now o = record o {
  status = OutboxStatus.submitting;
  attempt_count = o.attempt_count + 1;
  updated_at = now;
}

abbrev pub claimable : ℕ → Outbox → Bool
claimable k o = o.id == k && OutboxStatus.can_claim o.status

-- In a valid ledger, a claim of a submission answers the row as it is stored. If the row was
-- pending or unknown, it is now being submitted and counts one more attempt; otherwise, as after
-- another claim, nothing is written.
pub claim_submit_outbox_lem :
    (now k : ℕ) (s : Db) (o : Outbox)
    → IsValid s
    → outbox_of k s ≡ some o
    → claim_submit_outbox now k s ≡ (
        if OutboxStatus.can_claim o.status
        then ok (
          submitting now o,
          record s { outbox = update_where (claimable k) (submitting now) s.outbox },
        )
        else ok (o, s))
unfolding claim_submit_outbox update_outbox outbox_by_id ◌>>=◌
claim_submit_outbox_lem now k s o v there = elim (Bool-cases (OutboxStatus.can_claim o.status)) [
  | inl can ↦ ground (arith, fits, here, can)
  | inr cannot ↦ ground (
    arith,
    there,
    cannot,
    update-none (claimable k) (submitting now) s.outbox (ground (arith, counted, cannot, fits)),
  )
]
  where
    fits : o.id ≡ k
    fits = select-key (λ (x : Outbox). x.id) k s.outbox o there

    counted : count_where (claimable k) s.outbox ≡ (if claimable k o then 1 else 0)
    counted =
        count-update (λ (x : Outbox). x.id) k (claimable k) (λ x e. ground arith) s.outbox o
          v.outbox_ids there

    here :
        select (λ (x : Outbox). x.id == k) (update_where (claimable k) (submitting now) s.outbox)
        ≡ updated (claimable k) (submitting now) (some o)
    here =
        select-update (λ (x : Outbox). x.id) k (claimable k) (submitting now) (λ x. refl) s.outbox
        ∙ ap (updated (claimable k) (submitting now)) there

refers_to_refl : (r : String) → refers_to (some r) r ≡ true
refers_to_refl r = eq_refl r

event-outbox :
    (now k : ℕ) (payload : EventPayload) (scope invocation attempt : Option ℕ) (s : Db)
    (r : (Unit {0}) × Db)
    → event now k payload scope invocation attempt s ≡ ok r
    → r.1.outbox ≡ s.outbox
unfolding event
event-outbox now k payload scope invocation attempt s r e = ground arith

-- The row of a delivery.
abbrev submitted : ℕ → String → Outbox → Outbox
submitted now ref o = record o {
  status = OutboxStatus.submitted;
  external_ref = some ref;
  next_attempt_at = none;
  updated_at = now;
}

read_back :
    (k : ℕ) (s : Db) (o : Outbox) (r : Outbox × Db)
    → outbox_of k s ≡ some o
    → outbox_by_id k s ≡ ok r
    → (r.0 ≡ o) × (r.1 ≡ s)
unfolding outbox_by_id ◌>>=◌
read_back k s o r there e = ground arith

-- What a delivery that was recorded has stored.
submitted_row :
    (now k : ℕ) (ref : String) (s : Db) (r : Outbox × Db)
    → mark_submit_outbox_submitted now k ref s ≡ ok r
    → (outbox_of k r.1 ≡ some r.0)
      × (r.0.status ≡ OutboxStatus.submitted)
      × (refers_to r.0.external_ref ref ≡ true)
      × (is_blank ref ≡ false)
unfolding mark_submit_outbox_submitted update_outbox update_attempts pure
submitted_row now k ref s r e =
    let (named, f1) = check-ok _ _ _ s r e in
    let (row, there, f2) = read-ok _ _ _ s r f1 in
    elim (Bool-cases (OutboxStatus.is_submitted row.status && refers_to row.external_ref ref)) [
      | inl again ↦
          let f3 = then-ok _ _ _ s r again f2 in
          (ground (arith, there, f3), ground (arith, again, f3), ground (arith, again, f3), named)
      | inr fresh ↦
          let f3 = else-ok _ _ _ s r fresh f2 in
          let (_, f4) = check-ok _ _ _ s r f3 in
          let (_, s1, e1, f5) = bind-ok _ _ s r f4 in
          let (_, s2, e2, f6) = bind-ok _ _ s1 r f5 in
          let (_, s3, e3, f7) = bind-ok _ _ s2 r f6 in
          let kept = event-outbox _ _ _ _ _ _ s2 (_, s3) e3 in
          let stored : outbox_of k s3 ≡ some (submitted now ref row) =
            found-update (λ (x : Outbox). x.id) k (submitted now ref) (λ x. refl) s.outbox s3.outbox
              row (ground (arith, kept, e1, e2)) there in
          let (same, state) = read_back k s3 (submitted now ref row) r stored f7 in
          (
            subst (λ t. outbox_of k t ≡ some r.0) (sym state) (stored ∙ ap some (sym same)),
            ap (λ (o : Outbox). o.status) same,
            subst (λ (o : Outbox). refers_to o.external_ref ref ≡ true) (sym same)
                (refers_to_refl ref),
            named,
          )
    ]

repeated :
    (now k : ℕ) (ref : String) (t : Db) (o : Outbox)
    → outbox_of k t ≡ some o
    → o.status ≡ OutboxStatus.submitted
    → refers_to o.external_ref ref ≡ true
    → is_blank ref ≡ false
    → mark_submit_outbox_submitted now k ref t ≡ ok (o, t)
unfolding mark_submit_outbox_submitted ◌>>=◌
repeated now k ref t o there status refers named = ground arith

refused :
    (now k : ℕ) (ref : String) (t : Db) (o : Outbox)
    → outbox_of k t ≡ some o
    → o.status ≡ OutboxStatus.submitted
    → refers_to o.external_ref ref ≡ false
    → is_blank ref ≡ false
    → mark_submit_outbox_submitted now k ref t
      ≡ err (Error.conflict (Conflict.cannot_submit OutboxStatus.submitted))
unfolding mark_submit_outbox_submitted ◌>>=◌
refused now k ref t o there status refers named = ground arith

not_retried :
    (now k : ℕ) (t : Db) (o : Outbox)
    → IsValid t
    → outbox_of k t ≡ some o
    → o.status ≡ OutboxStatus.submitted
    → mark_submit_outbox_retryable now k t
      ≡ err (Error.conflict (Conflict.not_retryable OutboxStatus.submitted))
unfolding mark_submit_outbox_retryable update_outbox ◌>>=◌
not_retried now k t o v there status =
    let fits = select-key (λ (x : Outbox). x.id) k t.outbox o there in
    let counted =
      count-update (λ (x : Outbox). x.id) k
        (λ (x : Outbox). x.id == k && OutboxStatus.is_unknown x.status) (λ x h. ground arith)
        t.outbox o v.outbox_ids there in
    ground (arith, counted, fits, there, status)

-- A delivery that was recorded is final while its row stays: in any valid ledger that has the row,
-- recording the same reference again answers the row and writes nothing, another reference is
-- refused, the row cannot be made retryable, and a claim answers it without sending it again.
pub mark_submit_outbox_submitted-final :
    (now k : ℕ) (ref : String) (s : Db) (r : Outbox × Db) (t : Db)
    → mark_submit_outbox_submitted now k ref s ≡ ok r
    → IsValid t
    → outbox_of k t ≡ some r.0
    → (outbox_of k r.1 ≡ some r.0)
      × (r.0.status ≡ OutboxStatus.submitted)
      × ((now' : ℕ)
          → (mark_submit_outbox_submitted now' k ref t ≡ ok (r.0, t))
            × ((other : String)
                → is_blank other ≡ false
                → refers_to r.0.external_ref other ≡ false
                → mark_submit_outbox_submitted now' k other t
                  ≡ err (Error.conflict (Conflict.cannot_submit OutboxStatus.submitted)))
            × (mark_submit_outbox_retryable now' k t
                ≡ err (Error.conflict (Conflict.not_retryable OutboxStatus.submitted)))
            × (claim_submit_outbox now' k t ≡ ok (r.0, t)))
mark_submit_outbox_submitted-final now k ref s r t e v there =
    let (stored, status, refers, named) = submitted_row now k ref s r e in
    (
      stored,
      status,
      λ now'. (
        repeated now' k ref t r.0 there status refers named,
        λ other given differs. refused now' k other t r.0 there status differs given,
        not_retried now' k t r.0 v there status,
        claim_submit_outbox_lem now' k t r.0 v there ∙ ground (arith, status),
      ),
    )
