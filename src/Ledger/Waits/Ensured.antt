-- ===== src/Ledger/Waits/Ensured.antt =====
-- The waits that an attempt needs are there once they were asked for, and asking again changes
-- nothing.
use multiverse.Base.{
  ℕ, String, ◌≡◌, ◌∙◌, ap, subst, refl, Bool, false, Option, none, some, inl, inr, arith, ◌==◌,
  select, update_where, updated, Bool-cases, ==_refl,
}
use multiverse.Ledger.Status.WaitStatus
use multiverse.Ledger.Schema.{Attempt, Run, Wait, WaitKey, WaitKind}
use multiverse.Ledger.Tx.Monad.{ok, pure, gets, or_raise, raise_if, branch, ◌>>=◌}
use multiverse.Ledger.Tx.Database.{Db, insert_wait, update_waits}
use multiverse.Ledger.Tx.WaitKeys.{at_key}
use multiverse.Ledger.Tx.WaitRows.{at_key-append, insert_wait-ok, select-update_kept}
use multiverse.Ledger.Tx.Inversion.{bind-ok, check-ok, read-ok, gets-ok, required-ok}
use multiverse.Ledger.Queries.{run_of, attempt_of, joined_attempt_of}
use multiverse.Ledger.Waits.{wait_at, rescheduled}
use multiverse.Ledger.Waits.Ensure.{
  start_of, observe_payload, reopened, put_observation_wait, ensure_external_observation_wait,
  is_uncommitted, put_reconciliation_wait, ensure_attempt_reconciliation_wait,
}

-- The rows other than waits that the methods read are the same.
abbrev SameRows : Db → Db → Type 0
SameRows s t = (t.attempts ≡ s.attempts) × (t.runs ≡ s.runs) × (t.invocations ≡ s.invocations)

insert_wait-SameRows :
    (w : Wait) (s : Db) (r : Unit {0} × Db) → insert_wait w s ≡ ok r → SameRows s r.1
unfolding insert_wait
insert_wait-SameRows w s r e = ground arith

-- The row at a key, after it was changed at its id.
changed-at :
    (ns : ℕ) (key : WaitKey) (f : Wait → Wait) (w : Wait) (s : Db)
    → wait_at ns key s ≡ some w
    → ((v : Wait) → at_key ns key (f v) ≡ at_key ns key v)
    → select (at_key ns key) (update_where (λ v. v.id == w.id) f s.waits) ≡ some (f w)
changed-at ns key f w s here kept =
    select-update_kept (at_key ns key) (λ v. v.id == w.id) f kept s.waits
    ∙ ap (updated (λ v. v.id == w.id) f) here
    ∙ ground (arith, ==_refl w.id)

joined-same : (s t : Db) (k : ℕ) → SameRows s t → joined_attempt_of k t ≡ joined_attempt_of k s
joined-same s t k same = rw (same.0, same.2) refl

module _ (now new k : ℕ) (a : Attempt) (run : Run) where
  put_observation_wait-there :
      (ref : String) (not_before : ℕ) (o : Option Wait) (s : Db) (r : Unit {0} × Db)
      → wait_at run.namespace (WaitKey.external_observe k) s ≡ o
      → put_observation_wait now new k a run ref not_before o s ≡ ok r
      → (w : Wait) × (wait_at run.namespace (WaitKey.external_observe k) r.1 ≡ some w)
        × (WaitStatus.is_closed w.status ≡ false)
        × SameRows s r.1
  unfolding put_observation_wait branch update_waits pure ◌>>=◌
  put_observation_wait-there ref not_before none s r here e =
      let (fresh, rows) = insert_wait-ok _ s r e in
      (
        _,
        ap (select (at_key run.namespace (WaitKey.external_observe k))) rows
            ∙ at_key-append s.waits _ fresh,
        refl,
        insert_wait-SameRows _ s r e,
      )
  put_observation_wait-there ref not_before (some w) s r here e =
      elim (Bool-cases (WaitStatus.is_closed w.status)) [
        | inl closed ↦
            let f = reopened now not_before (observe_payload k a ref) in
            let moved =
              changed-at run.namespace (WaitKey.external_observe k) f w s here (λ v. refl) in
            (f w, ground (arith, moved), refl, ground arith)
        | inr opened ↦ (w, ground arith, opened, ground arith)
      ]

-- An answer that stays: asked again in `t`, the method returns the open wait that is there.
observation-stays :
    (now new k : ℕ) (ref : String) (not_before : Option ℕ) (a : Attempt) (run : Run) (w : Wait)
    (t : Db)
    → attempt_of k t ≡ some a
    → run_of a.run_id t ≡ some run
    → wait_at run.namespace (WaitKey.external_observe k) t ≡ some w
    → WaitStatus.is_closed w.status ≡ false
    → ensure_external_observation_wait now new k ref not_before t ≡ ok (w, t)
unfolding ensure_external_observation_wait put_observation_wait branch or_raise gets pure ◌>>=◌
observation-stays now new k ref not_before a run w t ha hr hw opened =
    rw (ha, hr, hw, opened) (rw hw refl)

-- When a wait for the observation of an attempt was ensured, it is there and open under its key in
-- the namespace of the attempt's run; and ensuring it again, at any time, with any reference, time
-- and fresh id, succeeds, returns the same wait and changes nothing.
pub ensure_external_observation_wait-once :
    (now new k : ℕ) (ref : String) (not_before : Option ℕ) (s : Db) (r : Wait × Db)
    → ensure_external_observation_wait now new k ref not_before s ≡ ok r
    → (a : Attempt) × (run : Run) × (attempt_of k s ≡ some a)
      × (run_of a.run_id s ≡ some run)
      × (wait_at run.namespace (WaitKey.external_observe k) r.1 ≡ some r.0)
      × (WaitStatus.is_closed r.0.status ≡ false)
      × ((now' new' : ℕ) (ref' : String) (not_before' : Option ℕ)
          → ensure_external_observation_wait now' new' k ref' not_before' r.1 ≡ ok r)
unfolding ensure_external_observation_wait
ensure_external_observation_wait-once now new k ref not_before s r e =
    let (a, ha, f1) = read-ok _ _ _ s r e in
    let (run, hr, f2) = read-ok _ _ _ s r f1 in
    let (u, t, e3, f3) = bind-ok _ _ s r (gets-ok _ _ s r f2) in
    let (w, there, opened, same) =
      put_observation_wait-there now new k a run ref (start_of now not_before) _ s (u, t) refl e3 in
    let answer : (w, t) ≡ r = required-ok _ _ w t r there (gets-ok _ _ t r f3) in
    let stays =
      subst
        (λ (z : Wait × Db).
          (wait_at run.namespace (WaitKey.external_observe k) z.1 ≡ some z.0)
          × (WaitStatus.is_closed z.0.status ≡ false)
          × ((now' new' : ℕ) (ref' : String) (not_before' : Option ℕ)
              → ensure_external_observation_wait now' new' k ref' not_before' z.1 ≡ ok z))
        answer
        (
          there,
          opened,
          λ now' new' ref' not_before'.
              observation-stays now' new' k ref' not_before' a run w t
                (ap (select (λ (x : Attempt). x.id == k)) same.0 ∙ ha)
                (ap (select (λ (x : Run). x.id == a.run_id)) same.1 ∙ hr) there opened,
        ) in
    (a, run, ha, hr, stays.0, stays.1, stays.2)

-- The wake of a reconciliation is there; it may be completed, but it is not cancelled.
put_reconciliation_wait-there :
    (now new k : ℕ) (a : Attempt) (run : Run) (o : Option Wait) (s : Db) (r : Unit {0} × Db)
    → wait_at run.namespace (WaitKey.attempt_reconcile k) s ≡ o
    → put_reconciliation_wait now new k a run o s ≡ ok r
    → (w : Wait) × (wait_at run.namespace (WaitKey.attempt_reconcile k) r.1 ≡ some w)
      × (WaitStatus.is_cancelled w.status ≡ false)
      × SameRows s r.1
unfolding put_reconciliation_wait branch update_waits pure ◌>>=◌
put_reconciliation_wait-there now new k a run none s r here e =
    let (fresh, rows) = insert_wait-ok _ s r e in
    (
      _,
      ap (select (at_key run.namespace (WaitKey.attempt_reconcile k))) rows
          ∙ at_key-append s.waits _ fresh,
      refl,
      insert_wait-SameRows _ s r e,
    )
put_reconciliation_wait-there now new k a run (some w) s r here e =
    elim (Bool-cases (WaitStatus.is_cancelled w.status)) [
      | inl closed ↦
          let f =
            λ (v : Wait). record (rescheduled now now v) { kind = WaitKind.attempt_reconcile } in
          let moved =
            changed-at run.namespace (WaitKey.attempt_reconcile k) f w s here (λ v. refl) in
          (f w, ground (arith, moved), refl, ground arith)
      | inr kept ↦ (w, ground arith, kept, ground arith)
    ]

reconciliation-stays :
    (now new k : ℕ) (allow_unknown : Bool) (a : Attempt) (run : Run) (w : Wait) (t : Db)
    → joined_attempt_of k t ≡ some a
    → is_uncommitted allow_unknown a ≡ false
    → run_of a.run_id t ≡ some run
    → wait_at run.namespace (WaitKey.attempt_reconcile k) t ≡ some w
    → WaitStatus.is_cancelled w.status ≡ false
    → ensure_attempt_reconciliation_wait now new k allow_unknown t ≡ ok (w, t)
unfolding ensure_attempt_reconciliation_wait put_reconciliation_wait branch or_raise raise_if gets
    pure ◌>>=◌
reconciliation-stays now new k allow_unknown a run w t ha hn hr hw kept =
    rw (ha, hn, hr, hw, kept) (rw hw refl)

-- When the wake of a reconciliation was ensured, the attempt has a stored reconciliation, or an
-- unknown outcome that the caller allows; its wake is there under its key in the namespace of its
-- run and is not cancelled; and ensuring it again, at any time and with any fresh id, succeeds,
-- returns the same wait and changes nothing.
pub ensure_attempt_reconciliation_wait-once :
    (now new k : ℕ) (allow_unknown : Bool) (s : Db) (r : Wait × Db)
    → ensure_attempt_reconciliation_wait now new k allow_unknown s ≡ ok r
    → (a : Attempt) × (run : Run) × (joined_attempt_of k s ≡ some a)
      × (is_uncommitted allow_unknown a ≡ false)
      × (run_of a.run_id s ≡ some run)
      × (wait_at run.namespace (WaitKey.attempt_reconcile k) r.1 ≡ some r.0)
      × (WaitStatus.is_cancelled r.0.status ≡ false)
      × ((now' new' : ℕ) → ensure_attempt_reconciliation_wait now' new' k allow_unknown r.1 ≡ ok r)
unfolding ensure_attempt_reconciliation_wait
ensure_attempt_reconciliation_wait-once now new k allow_unknown s r e =
    let (a, ha, f1) = read-ok _ _ _ s r e in
    let (needed, f2) = check-ok _ _ _ s r f1 in
    let (run, hr, f3) = read-ok _ _ _ s r f2 in
    let (u, t, e4, f4) = bind-ok _ _ s r (gets-ok _ _ s r f3) in
    let (w, there, kept, same) = put_reconciliation_wait-there now new k a run _ s (u, t) refl e4 in
    let answer : (w, t) ≡ r = required-ok _ _ w t r there (gets-ok _ _ t r f4) in
    let stays =
      subst
        (λ (z : Wait × Db).
          (wait_at run.namespace (WaitKey.attempt_reconcile k) z.1 ≡ some z.0)
          × (WaitStatus.is_cancelled z.0.status ≡ false)
          × ((now' new' : ℕ)
              → ensure_attempt_reconciliation_wait now' new' k allow_unknown z.1 ≡ ok z))
        answer
        (
          there,
          kept,
          λ now' new'.
              reconciliation-stays now' new' k allow_unknown a run w t (joined-same s t k same ∙ ha)
                needed (ap (select (λ (x : Run). x.id == a.run_id)) same.1 ∙ hr) there kept,
        ) in
    (a, run, ha, needed, hr, stays.0, stays.1, stays.2)
