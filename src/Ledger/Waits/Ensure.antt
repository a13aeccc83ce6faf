-- ===== src/Ledger/Waits/Ensure.antt =====
-- runtime/ledger.py: `ensure_external_observation_wait` and `ensure_attempt_reconciliation_wait`,
-- which see that an attempt has the wait it needs. Their last read, which follows the commit, is
-- part of the transaction here.
use multiverse.Base.{ℕ, String, Bool, ◌&&◌, not, Option, none, some, ◌==◌, is_none}
use multiverse.Ledger.Status.AttemptStatus
use multiverse.Ledger.Status.WaitStatus
use multiverse.Ledger.Status.WaitStatus.{WaitStatus}
use multiverse.Ledger.Schema.{Attempt, Run, Wait, WaitKey, WaitKind, Payload}
use multiverse.Ledger.Tx.Monad.{
  Error, Entity, Conflict, pure, gets, or_raise, raise_if, branch, ◌>>=◌, ◌>>◌,
}
use multiverse.Ledger.Tx.Database.{Tx, update_waits, insert_wait}
use multiverse.Ledger.Queries.{run_of, attempt_of, joined_attempt_of}
use multiverse.Ledger.Waits.{new_wait, wait_at, rescheduled}

-- `not_before or _now()`
abbrev pub start_of : ℕ → Option ℕ → ℕ
start_of now none = now
start_of now (some t) = t

abbrev pub observe_payload : ℕ → Attempt → String → Payload
observe_payload k a ref = Payload.of_observe k a.run_id a.scope_id a.invocation_id ref

-- The update of a closed wait for an observation.
abbrev pub reopened : ℕ → ℕ → Payload → Wait → Wait
reopened now not_before payload w = record w {
  not_before = not_before;
  payload = payload;
  status = WaitStatus.pending;
  worker_id = none;
  claimed_at = none;
  updated_at = now;
}

-- The row of `wait_key`: a new one, or a completed or cancelled one again.
unfoldable pub put_observation_wait :
    ℕ → ℕ → ℕ → Attempt → Run → String → ℕ → Option Wait → Tx (Unit {0})
put_observation_wait now new k a run ref not_before none = insert_wait (
    new_wait now new run.namespace (WaitKey.external_observe k) WaitKind.external_observe a.run_id
      (some a.scope_id) (some a.invocation_id) not_before (observe_payload k a ref))
put_observation_wait now new k a run ref not_before (some w) =
    branch (WaitStatus.is_closed w.status)
      (do
        update_waits (λ v. v.id == w.id) (reopened now not_before (observe_payload k a ref))
        pure tt)
      (pure tt)

unfoldable pub ensure_external_observation_wait : ℕ → ℕ → ℕ → String → Option ℕ → Tx Wait
unfolding put_observation_wait
ensure_external_observation_wait now new k ref not_before = do
  found ← gets (attempt_of k)
  a ← or_raise (Error.not_found Entity.attempt k) found
  found_run ← gets (run_of a.run_id)
  run ← or_raise (Error.not_found Entity.run a.run_id) found_run
  existing ← gets (wait_at run.namespace (WaitKey.external_observe k))
  put_observation_wait now new k a run ref (start_of now not_before) existing
  wait ← gets (wait_at run.namespace (WaitKey.external_observe k))
  or_raise (Error.conflict Conflict.observation_wait_gone) wait

-- Neither a stored reconciliation nor an unknown outcome that the caller allows.
abbrev pub is_uncommitted : Bool → Attempt → Bool
is_uncommitted allow_unknown a =
    is_none a.reconciliation && not (allow_unknown && AttemptStatus.is_unknown a.status)

-- The row of `wait_key`: a new one, or a cancelled one again, whose payload stays.
unfoldable pub put_reconciliation_wait : ℕ → ℕ → ℕ → Attempt → Run → Option Wait → Tx (Unit {0})
put_reconciliation_wait now new k a run none = insert_wait (
    new_wait now new run.namespace (WaitKey.attempt_reconcile k) WaitKind.attempt_reconcile a.run_id
      (some a.scope_id) (some a.invocation_id) now
      (Payload.of_reconcile k a.run_id a.scope_id a.invocation_id a.version))
put_reconciliation_wait now new k a run (some w) =
    branch (WaitStatus.is_cancelled w.status)
      (do
        update_waits (λ v. v.id == w.id)
            (λ v. record (rescheduled now now v) { kind = WaitKind.attempt_reconcile })
        pure tt)
      (pure tt)

unfoldable pub ensure_attempt_reconciliation_wait : ℕ → ℕ → ℕ → Bool → Tx Wait
unfolding put_reconciliation_wait
ensure_attempt_reconciliation_wait now new k allow_unknown = do
  found ← gets (joined_attempt_of k)
  a ← or_raise (Error.not_found Entity.attempt k) found
  raise_if (is_uncommitted allow_unknown a) (Error.conflict Conflict.not_reconciled)
  found_run ← gets (run_of a.run_id)
  run ← or_raise (Error.not_found Entity.run a.run_id) found_run
  existing ← gets (wait_at run.namespace (WaitKey.attempt_reconcile k))
  put_reconciliation_wait now new k a run existing
  wait ← gets (wait_at run.namespace (WaitKey.attempt_reconcile k))
  or_raise (Error.conflict Conflict.reconciliation_wait_gone) wait
