-- ===== src/Ledger/Submit.antt =====
-- runtime/ledger.py, the outbox of submissions: `ensure_submit_outbox` to
-- `mark_submit_outbox_retryable`. `digest` is `_digest`, and `action_key` stands for the attempt.
pub mod Outcomes
pub mod Evolution
pub mod Delivery
pub mod Resolution
use multiverse.Base.{
  ℕ, ◌+◌, String, str_eq, Bool, true, false, not, ◌&&◌, ◌||◌, Option, none, some, ◌==◌, is_blank,
  select, if◌then◌else◌,
}
use multiverse.Ledger.Status.RunStatus
use multiverse.Ledger.Status.RunStatus.{RunStatus}
use multiverse.Ledger.Status.ControlMode
use multiverse.Ledger.Status.InvocationStatus
use multiverse.Ledger.Status.InvocationStatus.{InvocationStatus}
use multiverse.Ledger.Status.AttemptStatus
use multiverse.Ledger.Status.AttemptStatus.{AttemptStatus}
use multiverse.Ledger.Status.WaitStatus
use multiverse.Ledger.Status.WaitStatus.{WaitStatus}
use multiverse.Ledger.Status.OutboxStatus
use multiverse.Ledger.Status.OutboxStatus.{OutboxStatus}
use multiverse.Ledger.Schema.{
  Run, Invocation, Attempt, Outbox, Wait, WaitKey, WaitKind, Payload, ErrorJson, EventPayload,
}
use multiverse.Ledger.Tx.Monad.{
  Error, Entity, Conflict, pure, gets, or_raise, raise_if, branch, ◌>>=◌, ◌>>◌,
}
use multiverse.Ledger.Tx.Database.{
  Db, Tx, update_runs, update_invocations, update_attempts, update_outbox, update_waits,
  insert_outbox, insert_wait, event,
}
use multiverse.Ledger.Queries.{run_of, invocation_of, joined_attempt_of, outbox_of}
use multiverse.Ledger.Waits.{new_wait, wait_at}

-- SELECT * FROM outbox WHERE action_key = ?
abbrev pub submit_of : ℕ → Db → Option Outbox
submit_of k s = select (λ (o : Outbox). o.attempt_id == k) s.outbox

-- `_outbox_by_id`
unfoldable pub outbox_by_id : ℕ → Tx Outbox
outbox_by_id k = do found ← gets (outbox_of k); or_raise (Error.not_found Entity.outbox k) found

-- The wait of `_ensure_submit_wait_in_transaction`, as it was found.
unfoldable pub renew_submit_wait : ℕ → ℕ → ℕ → ℕ → ℕ → Attempt → Run → Option Wait → Tx (Unit {0})
renew_submit_wait now new outbox_id k not_before attempt run none = insert_wait (
    new_wait now new run.namespace (WaitKey.submit k) WaitKind.external_submit attempt.run_id
      (some attempt.scope_id) (some attempt.invocation_id) not_before
      (Payload.of_submit outbox_id k))
renew_submit_wait now new outbox_id k not_before attempt run (some w) =
    branch (WaitStatus.is_cancelled w.status)
      (do
        update_waits (λ v. v.id == w.id)
            (λ v. record v {
              status = WaitStatus.pending;
              not_before = not_before;
              worker_id = none;
              claimed_at = none;
              updated_at = now;
            })
        pure tt)
      (pure tt)

-- `_ensure_submit_wait_in_transaction`
unfoldable pub ensure_submit_wait : ℕ → ℕ → ℕ → ℕ → ℕ → Tx (Unit {0})
unfolding renew_submit_wait
ensure_submit_wait now new outbox_id k not_before = do
  found ← gets (joined_attempt_of k)
  attempt ← or_raise (Error.not_found Entity.attempt k) found
  found_run ← gets (run_of attempt.run_id)
  run ← or_raise (Error.not_found Entity.run attempt.run_id) found_run
  existing ← gets (wait_at run.namespace (WaitKey.submit k))
  renew_submit_wait now new outbox_id k not_before attempt run existing

-- `(SELECT namespace FROM runs WHERE id = ?)`, a NOT NULL column.
abbrev pub namespace_of : Option Run → Option ℕ
namespace_of none = none
namespace_of (some r) = some r.namespace

-- The row of a new submission, if the key is free, and its event.
unfoldable pub create_outbox : (ℕ → ℕ) → ℕ → ℕ → ℕ → ℕ → Attempt → Tx (Unit {0})
create_outbox digest now new k payload attempt = do
  found ← gets (λ s. namespace_of (run_of attempt.run_id s))
  namespace ← or_raise Error.integrity found
  insert_outbox (record {
    id = new;
    namespace = namespace;
    run_id = attempt.run_id;
    scope_id = attempt.scope_id;
    invocation_id = attempt.invocation_id;
    attempt_id = k;
    payload = payload;
    payload_digest = digest payload;
    status = OutboxStatus.pending;
    external_ref = none;
    attempt_count = 0;
    next_attempt_at = some now;
    last_error = none;
    created_at = now;
    updated_at = now;
  })
  event now attempt.run_id (EventPayload.submit_intent attempt.dispatch_key (digest payload))
      (some attempt.scope_id) (some attempt.invocation_id) (some k)

-- A submission that is there must have the same payload; else it is created.
unfoldable pub check_or_create : (ℕ → ℕ) → ℕ → ℕ → ℕ → ℕ → Attempt → Option Outbox → Tx (Unit {0})
unfolding create_outbox
check_or_create digest now new k payload attempt none =
    create_outbox digest now new k payload attempt
check_or_create digest now new k payload attempt (some o) =
    raise_if (not (o.payload_digest == digest payload)) (Error.conflict Conflict.payload_conflict)

-- `result["next_attempt_at"] or _now()`
abbrev pub time_or : Option ℕ → ℕ → ℕ
time_or none now = now
time_or (some t) now = t

unfoldable pub ensure_submit_outbox : (ℕ → ℕ) → ℕ → ℕ → ℕ → ℕ → ℕ → Tx Outbox
unfolding check_or_create ensure_submit_wait
ensure_submit_outbox digest now new new_wait_id k payload = do
  found ← gets (joined_attempt_of k)
  attempt ← or_raise (Error.not_found Entity.attempt k) found
  existing ← gets (submit_of k)
  check_or_create digest now new k payload attempt existing
  result ← gets (submit_of k)
  o ← or_raise (Error.conflict Conflict.outbox_lost) result
  ensure_submit_wait now new_wait_id o.id k (time_or o.next_attempt_at now)
  pure o

-- Whether the update has changed a row or not, the code then reads the row and answers it.
unfoldable pub claim_submit_outbox : ℕ → ℕ → Tx Outbox
unfolding outbox_by_id
claim_submit_outbox now k = do
  n ←
      update_outbox (λ o. o.id == k && OutboxStatus.can_claim o.status)
        (λ o. record o {
          status = OutboxStatus.submitting;
          attempt_count = o.attempt_count + 1;
          updated_at = now;
        })
  outbox_by_id k

-- `row["external_ref"] == external_ref`
abbrev pub refers_to : Option String → String → Bool
refers_to none r = false
refers_to (some q) r = str_eq q r

unfoldable pub mark_submit_outbox_submitted : ℕ → ℕ → String → Tx Outbox
unfolding outbox_by_id
mark_submit_outbox_submitted now k external_ref = do
  raise_if (is_blank external_ref) (Error.conflict Conflict.reference_required)
  found ← gets (outbox_of k)
  row ← or_raise (Error.not_found Entity.outbox k) found
  branch (OutboxStatus.is_submitted row.status && refers_to row.external_ref external_ref)
      (pure row)
      do
        raise_if (not (OutboxStatus.is_submitting row.status))
            (Error.conflict (Conflict.cannot_submit row.status))
        update_outbox (λ o. o.id == k)
            (λ o. record o {
              status = OutboxStatus.submitted;
              external_ref = some external_ref;
              next_attempt_at = none;
              updated_at = now;
            })
        update_attempts (λ a. a.id == row.attempt_id && not (AttemptStatus.is_unknown a.status))
            (λ a. record a {
              external_ref = some external_ref;
              status =
                  if AttemptStatus.is_unknown a.status then a.status else AttemptStatus.submitted;
              version = a.version + 1;
              updated_at = now;
            })
        event now row.run_id (EventPayload.submitted external_ref) (some row.scope_id)
            (some row.invocation_id) (some row.attempt_id)
        outbox_by_id k
