-- ===== src/Ledger/Attempts/Reconcile.antt =====
-- runtime/ledger.py: `reconcile_attempt`, the only way out of an unknown outcome.
use multiverse.Base.{
  ℕ, ◌+◌, String, Bool, true, false, not, ◌&&◌, ◌||◌, Option, none, some, List, [], ◌∷◌, ◌==◌,
  is_blank, is_none,
}
use multiverse.Ledger.Status.AttemptStatus
use multiverse.Ledger.Status.AttemptStatus.{AttemptStatus}
use multiverse.Ledger.Status.WaitStatus
use multiverse.Ledger.Status.WaitStatus.{WaitStatus}
use multiverse.Ledger.Schema.{
  Attempt, Run, Wait, WaitKey, WaitKind, Payload, ErrorJson, OutputJson, Conclusion, Reconciliation,
  EventPayload,
}
use multiverse.Ledger.Tx.Monad.{
  Error, Entity, Conflict, pure, gets, or_raise, raise_if, branch, ◌>>=◌, ◌>>◌,
}
use multiverse.Ledger.Tx.Database.{Tx, update_attempts, update_waits, insert_wait, event}
use multiverse.Ledger.Queries.{run_of, joined_attempt_of, get_attempt}
use multiverse.Ledger.Tx.WaitKeys.{at_key}
use multiverse.Ledger.Waits.{new_wait, wait_at}

-- `any(not ref.strip() for ref in evidence_refs)`
abbrev pub any_blank : List String → Bool
any_blank [] = false
any_blank (r ∷ rs) = is_blank r || any_blank rs

abbrev pub is_empty : List String → Bool
is_empty [] = true
is_empty (_ ∷ _) = false

abbrev pub is_succeeded : Conclusion → Bool
is_succeeded Conclusion.confirmed_succeeded = true
is_succeeded _ = false

-- `status_by_conclusion`
abbrev pub status_of : Conclusion → AttemptStatus
status_of Conclusion.confirmed_succeeded = AttemptStatus.succeeded
status_of Conclusion.confirmed_failed = AttemptStatus.failed
status_of Conclusion.confirmed_cancelled = AttemptStatus.cancelled
status_of Conclusion.confirmed_not_started = AttemptStatus.cancelled

abbrev pub error_of : Conclusion → String → Option ErrorJson
error_of Conclusion.confirmed_succeeded reason = none
error_of Conclusion.confirmed_failed reason = some (ErrorJson.reconciled_failure reason)
error_of Conclusion.confirmed_cancelled reason = some (ErrorJson.reconciled_cancelled reason)
error_of Conclusion.confirmed_not_started reason = some (ErrorJson.reconciled_not_started reason)

-- `stored_output`: the output of a success, and the error document otherwise.
abbrev pub stored_output : Option ErrorJson → Option OutputJson → Option OutputJson
stored_output none output = output
stored_output (some e) output = some (OutputJson.error_output e)

-- The wake of the reconciled attempt: a new wait, or the cancelled one again.
unfoldable pub ensure_reconcile_wait : ℕ → ℕ → ℕ → Attempt → Run → ℕ → Option Wait → Tx (Unit {0})
ensure_reconcile_wait now new k row run version none = insert_wait (
    new_wait now new run.namespace (WaitKey.attempt_reconcile k) WaitKind.attempt_reconcile
      row.run_id (some row.scope_id) (some row.invocation_id) now
      (Payload.of_reconcile k row.run_id row.scope_id row.invocation_id version))
ensure_reconcile_wait now new k row run version (some w) =
    branch (WaitStatus.is_cancelled w.status)
      (do
        update_waits (at_key run.namespace (WaitKey.attempt_reconcile k)) (λ v. record v {
          kind = WaitKind.attempt_reconcile;
          not_before = now;
          payload = Payload.of_reconcile k row.run_id row.scope_id row.invocation_id version;
          status = WaitStatus.pending;
          worker_id = none;
          claimed_at = none;
          updated_at = now;
        })
        pure tt)
      (pure tt)

unfoldable pub reconcile_attempt :
    ℕ
    → ℕ
    → ℕ
    → ℕ
    → Conclusion
    → List String
    → String
    → String
    → Option OutputJson
    → Bool
    → Tx (Option Attempt)
unfolding ensure_reconcile_wait get_attempt
reconcile_attempt now new k expected conclusion evidence reason actor output enqueue = do
  raise_if (is_empty evidence || any_blank evidence)
      (Error.conflict Conflict.evidence_refs_required)
  raise_if (is_blank reason || is_blank actor) (Error.conflict Conflict.reason_and_actor_required)
  raise_if (is_succeeded conclusion && is_none output) (Error.conflict Conflict.output_required)
  found ← gets (joined_attempt_of k)
  row ← or_raise (Error.not_found Entity.attempt k) found
  raise_if (not (row.version == expected)) (Error.conflict Conflict.attempt_version)
  raise_if (not (AttemptStatus.is_unknown row.status))
      (Error.conflict (Conflict.only_unknown_reconciles row.status))
  let version = row.version + 1
  let status = status_of conclusion
  let error = error_of conclusion reason
  let reconciliation : Reconciliation = record {
    conclusion = conclusion;
    evidence_refs = evidence;
    reason = reason;
    actor = actor;
  }
  update_attempts (λ a. a.id == k)
      (λ a. record a {
        status = status;
        output = stored_output error output;
        error = error;
        reconciliation = some reconciliation;
        version = version;
        updated_at = now;
      })
  event now row.run_id (EventPayload.attempt_reconciled reconciliation status version)
      (some row.scope_id) (some row.invocation_id) (some k)
  branch enqueue
      (do
        found_run ← gets (run_of row.run_id)
        run ← or_raise (Error.not_found Entity.run row.run_id) found_run
        existing ← gets (wait_at run.namespace (WaitKey.attempt_reconcile k))
        ensure_reconcile_wait now new k row run version existing
        get_attempt k)
      (get_attempt k)
