-- ===== src/Ledger/Submit/Outcomes.antt =====
-- runtime/ledger.py: what becomes of a submission whose outcome is not known.
use multiverse.Base.{
  ℕ, ◌+◌, String, str_eq, Bool, false, not, ◌&&◌, Option, none, some, ◌==◌, is_blank,
}
use multiverse.Ledger.Status.RunStatus
use multiverse.Ledger.Status.RunStatus.{RunStatus}
use multiverse.Ledger.Status.ControlMode
use multiverse.Ledger.Status.InvocationStatus
use multiverse.Ledger.Status.InvocationStatus.{InvocationStatus}
use multiverse.Ledger.Status.AttemptStatus
use multiverse.Ledger.Status.AttemptStatus.{AttemptStatus}
use multiverse.Ledger.Status.OutboxStatus
use multiverse.Ledger.Status.OutboxStatus.{OutboxStatus}
use multiverse.Ledger.Schema.{Run, Outbox, ErrorJson, EventPayload}
use multiverse.Ledger.Tx.Monad.{
  Error, Entity, Conflict, pure, gets, or_raise, raise_if, branch, ◌>>=◌, ◌>>◌,
}
use multiverse.Ledger.Tx.Database.{
  Tx, update_runs, update_invocations, update_attempts, update_outbox, event,
}
use multiverse.Ledger.Queries.{run_of, invocation_of, joined_attempt_of, outbox_of}
use multiverse.Ledger.Submit.{outbox_by_id, refers_to}

-- `attempt["external_ref"] not in (None, external_ref)`
abbrev pub other_reference : Option String → String → Bool
other_reference none r = false
other_reference (some q) r = not (str_eq q r)

-- `run["status"] == "blocked" and run["control_mode"] != "cancel"`
abbrev pub can_unblock : Run → Bool
can_unblock r = RunStatus.is_blocked r.status && not (ControlMode.is_cancel r.control_mode)

-- A blocked run goes on, unless it is being cancelled.
unfoldable pub unblock_run : ℕ → Run → Tx Outbox → Tx Outbox
unblock_run now run rest =
    branch (can_unblock run)
      (do
        update_runs (λ r. r.id == run.id)
            (λ r. record r {
              status = RunStatus.running;
              error = none;
              version = r.version + 1;
              updated_at = now;
            })
        rest)
      rest

-- What a resolved submission does to its attempt, invocation and run; the `if` on the invocation
-- that was read stands in the update's condition.
unfoldable pub resubmit : ℕ → ℕ → String → ℕ → Outbox → Tx Outbox
unfolding unblock_run outbox_by_id
resubmit now k external_ref evidence row = do
  found_attempt ← gets (joined_attempt_of row.attempt_id)
  attempt ← or_raise (Error.not_found Entity.attempt row.attempt_id) found_attempt
  raise_if (other_reference attempt.external_ref external_ref)
      (Error.conflict Conflict.reference_conflict)
  update_attempts (λ a. a.id == row.attempt_id)
      (λ a. record a {
        external_ref = some external_ref;
        status = AttemptStatus.submitted;
        version = a.version + 1;
        updated_at = now;
      })
  found_invocation ← gets (invocation_of row.invocation_id)
  invocation ← or_raise (Error.not_found Entity.invocation row.invocation_id) found_invocation
  update_invocations
      (λ i. i.id == invocation.id && InvocationStatus.is_reconciling invocation.status)
      (λ i. record i {
        status = InvocationStatus.running;
        version = i.version + 1;
        updated_at = now;
      })
  found_run ← gets (run_of row.run_id)
  run ← or_raise (Error.not_found Entity.run row.run_id) found_run
  unblock_run now run do
    event now row.run_id (EventPayload.submit_reconciled external_ref evidence) (some row.scope_id)
        (some row.invocation_id) (some row.attempt_id)
    outbox_by_id k

unfoldable pub resolve_unknown_submit : ℕ → ℕ → String → ℕ → Bool → Tx Outbox
unfolding resubmit
resolve_unknown_submit now k external_ref evidence has_evidence = do
  raise_if (is_blank external_ref) (Error.conflict Conflict.reference_required)
  raise_if (not has_evidence) (Error.conflict Conflict.evidence_required)
  found ← gets (outbox_of k)
  row ← or_raise (Error.not_found Entity.outbox k) found
  branch (OutboxStatus.is_submitted row.status && refers_to row.external_ref external_ref)
      (pure row)
      do
        raise_if (not (OutboxStatus.is_unknown row.status))
            (Error.conflict (Conflict.cannot_resolve row.status))
        update_outbox (λ o. o.id == k)
            (λ o. record o {
              status = OutboxStatus.submitted;
              external_ref = some external_ref;
              next_attempt_at = none;
              last_error = none;
              updated_at = now;
            })
        resubmit now k external_ref evidence row

-- What an unknown submission does to an attempt that is not settled, its invocation and its run.
unfoldable pub block_attempt : ℕ → ErrorJson → Outbox → Tx Outbox → Tx Outbox
block_attempt now error row rest = do
  update_attempts (λ a. a.id == row.attempt_id)
      (λ a. record a {
        status = AttemptStatus.unknown;
        error = some error;
        version = a.version + 1;
        updated_at = now;
      })
  found_invocation ← gets (invocation_of row.invocation_id)
  invocation ← or_raise (Error.not_found Entity.invocation row.invocation_id) found_invocation
  update_invocations (λ i. i.id == invocation.id && not (InvocationStatus.is_finished i.status))
      (λ i. record i {
        status = InvocationStatus.reconciling;
        error = some error;
        version = i.version + 1;
        updated_at = now;
      })
  found_run ← gets (run_of row.run_id)
  run ← or_raise (Error.not_found Entity.run row.run_id) found_run
  branch (RunStatus.is_terminal run.status) rest do
    update_runs (λ r. r.id == run.id)
        (λ r. record r {
          status = RunStatus.blocked;
          error = some error;
          version = r.version + 1;
          updated_at = now;
        })
    rest

unfoldable pub mark_submit_outbox_unknown : ℕ → ℕ → ErrorJson → Tx Outbox
unfolding block_attempt outbox_by_id
mark_submit_outbox_unknown now k error = do
  found ← gets (outbox_of k)
  row ← or_raise (Error.not_found Entity.outbox k) found
  update_outbox (λ o. o.id == k)
      (λ o. record o { status = OutboxStatus.unknown; last_error = some error; updated_at = now })
  found_attempt ← gets (joined_attempt_of row.attempt_id)
  attempt ← or_raise (Error.not_found Entity.attempt row.attempt_id) found_attempt
  let rest = do
    event now row.run_id (EventPayload.submit_unknown error) (some row.scope_id)
        (some row.invocation_id) (some row.attempt_id)
    outbox_by_id k
  branch (AttemptStatus.is_terminal attempt.status) rest (block_attempt now error row rest)

-- The attempt of a submission that is safe to send again, with its invocation and its run; the
-- `if` on the invocation that was read stands in the update's condition.
unfoldable pub reopen_attempt : ℕ → Outbox → Tx Outbox → Tx Outbox
unfolding unblock_run
reopen_attempt now row rest = do
  found_attempt ← gets (joined_attempt_of row.attempt_id)
  attempt ← or_raise (Error.not_found Entity.attempt row.attempt_id) found_attempt
  branch (not (AttemptStatus.is_unknown attempt.status)) rest do
    update_attempts (λ a. a.id == row.attempt_id)
        (λ a. record a {
          status = AttemptStatus.created;
          error = none;
          version = a.version + 1;
          updated_at = now;
        })
    found_invocation ← gets (invocation_of row.invocation_id)
    invocation ← or_raise (Error.not_found Entity.invocation row.invocation_id) found_invocation
    update_invocations
        (λ i. i.id == invocation.id && InvocationStatus.is_reconciling invocation.status)
        (λ i. record i {
          status = InvocationStatus.running;
          error = none;
          version = i.version + 1;
          updated_at = now;
        })
    found_run ← gets (run_of row.run_id)
    run ← or_raise (Error.not_found Entity.run row.run_id) found_run
    unblock_run now run rest

unfoldable pub mark_submit_outbox_retryable : ℕ → ℕ → Tx Outbox
unfolding reopen_attempt outbox_by_id
mark_submit_outbox_retryable now k = do
  found ← gets (outbox_of k)
  row ← or_raise (Error.not_found Entity.outbox k) found
  n ←
      update_outbox (λ o. o.id == k && OutboxStatus.is_unknown o.status)
        (λ o. record o { status = OutboxStatus.pending; last_error = none; updated_at = now })
  branch (not (n == 1))
      (do
        raise_if (not (OutboxStatus.is_pending row.status))
            (Error.conflict (Conflict.not_retryable row.status))
        outbox_by_id k)
      (reopen_attempt now row (outbox_by_id k))
