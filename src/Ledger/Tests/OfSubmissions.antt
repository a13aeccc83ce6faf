-- ===== src/Ledger/Tests/OfSubmissions.antt =====
-- The submission of attempt 6: claimed, delivered, observed, and resolved when it was unknown.
use multiverse.Base.{
  ℕ, String, ◌≡◌, refl, true, false, Option, none, some, [], ◌∷◌, is_blank, update_where,
  if◌then◌else◌,
}
use multiverse.Ledger.Status.OutboxStatus
use multiverse.Ledger.Status.OutboxStatus.{OutboxStatus}
use multiverse.Ledger.Status.AttemptStatus.{AttemptStatus}
use multiverse.Ledger.Schema.{Attempt, Outbox}
use multiverse.Ledger.Tx.Monad.{Error, Conflict, ok, err, ◌>>=◌, transaction}
use multiverse.Ledger.Tx.Database.{
  Db, insert_run, insert_scope, insert_wait, insert_invocation, insert_attempt, insert_outbox,
  update_runs, update_invocations, update_attempts, update_outbox, update_waits, event, max_seq,
}
use multiverse.Ledger.Evolution.{IsValid}
use multiverse.Ledger.Queries.{attempt_of, outbox_of}
use multiverse.Ledger.Runs.{create_queued_run, update_run}
use multiverse.Ledger.Scopes.{create_invocation}
use multiverse.Ledger.Attempts.{create_attempt, max_attempt_no, finish_attempt}
use multiverse.Ledger.Attempts.Reconcile.{reconcile_attempt}
use multiverse.Ledger.Submit.{
  ensure_submit_outbox, claim_submit_outbox, mark_submit_outbox_submitted, refers_to,
}
use multiverse.Ledger.Submit.Outcomes.{mark_submit_outbox_retryable, resolve_unknown_submit}
use multiverse.Ledger.Submit.Resolution.{resolve_unknown_submit-reopens}
use multiverse.Ledger.Submit.Evolution.{mark_submit_outbox_submitted-Keeps}
use multiverse.Ledger.Submit.Delivery.{
  claimable, submitting, claim_submit_outbox_lem, mark_submit_outbox_submitted-final,
}
use multiverse.Ledger.Observations.{Document, Field, record_external_observation}
use multiverse.Ledger.Observations.Monotone.{Progresses, record_external_observation-Follows}
use multiverse.Ledger.Session.{after_session, after_call}
use multiverse.Ledger.Tests.Samples.{started, sent, sent-IsValid, value_or}
use multiverse.Ledger.Tests.OfAttempts.{any_attempt, attempt_there, box, small, small-IsValid}

-- The submission is delivered at time 20.
box_there : outbox_of 8 sent ≡ some box
unfolding after_session after_call create_queued_run create_invocation create_attempt update_run
    insert_run insert_scope insert_wait insert_invocation insert_attempt insert_outbox update_runs
    update_invocations update_attempts update_outbox update_waits event max_seq max_attempt_no
    ensure_submit_outbox claim_submit_outbox mark_submit_outbox_submitted finish_attempt
    reconcile_attempt record_external_observation transaction is_blank ◌>>=◌
box_there = refl

claim_submit_outbox_example : claim_submit_outbox 16 8 sent ≡ (
    if OutboxStatus.can_claim box.status
    then ok (
      submitting 16 box,
      record sent { outbox = update_where (claimable 8) (submitting 16) sent.outbox },
    )
    else ok (box, sent))
claim_submit_outbox_example = claim_submit_outbox_lem 16 8 sent box sent-IsValid box_there

abbrev delivered : Outbox × Db
delivered =
    value_or (box, small AttemptStatus.created)
      (mark_submit_outbox_submitted 20 8 "job-1" (small AttemptStatus.created))

delivers : mark_submit_outbox_submitted 20 8 "job-1" (small AttemptStatus.created) ≡ ok delivered
unfolding after_session after_call create_queued_run create_invocation create_attempt update_run
    insert_run insert_scope insert_wait insert_invocation insert_attempt insert_outbox update_runs
    update_invocations update_attempts update_outbox update_waits event max_seq max_attempt_no
    ensure_submit_outbox claim_submit_outbox mark_submit_outbox_submitted finish_attempt
    reconcile_attempt record_external_observation transaction is_blank ◌>>=◌
delivers = refl

delivered-IsValid : IsValid delivered.1
delivered-IsValid =
    ((mark_submit_outbox_submitted-Keeps (small AttemptStatus.created) 20 8 "job-1").at
      (small-IsValid AttemptStatus.created) delivered.0 delivered.1 delivers).0

delivered_there : outbox_of 8 delivered.1 ≡ some delivered.0
unfolding after_session after_call create_queued_run create_invocation create_attempt update_run
    insert_run insert_scope insert_wait insert_invocation insert_attempt insert_outbox update_runs
    update_invocations update_attempts update_outbox update_waits event max_seq max_attempt_no
    ensure_submit_outbox claim_submit_outbox mark_submit_outbox_submitted finish_attempt
    reconcile_attempt record_external_observation transaction is_blank ◌>>=◌
delivered_there = refl

mark_submit_outbox_submitted-final_example :
    (outbox_of 8 delivered.1 ≡ some delivered.0)
    × (delivered.0.status ≡ OutboxStatus.submitted)
    × ((now' : ℕ)
        → (mark_submit_outbox_submitted now' 8 "job-1" delivered.1 ≡ ok delivered)
          × ((other : String)
              → is_blank other ≡ false
              → refers_to delivered.0.external_ref other ≡ false
              → mark_submit_outbox_submitted now' 8 other delivered.1
                ≡ err (Error.conflict (Conflict.cannot_submit OutboxStatus.submitted)))
          × (mark_submit_outbox_retryable now' 8 delivered.1
              ≡ err (Error.conflict (Conflict.not_retryable OutboxStatus.submitted)))
          × (claim_submit_outbox now' 8 delivered.1 ≡ ok delivered))
mark_submit_outbox_submitted-final_example =
    mark_submit_outbox_submitted-final 20 8 "job-1" (small AttemptStatus.created) delivered
      delivered.1 delivers delivered-IsValid delivered_there

-- The execution reports that it is running, at revision 2.
abbrev report : Document
report = record {
  execution_ref = Field.text "job-1";
  revision = Field.whole 2;
  status = Field.text "running";
  observed_at = Field.text "2026-01-01T00:00:00Z";
  execution_final = Field.boolean false;
  effect_state = Field.text "possible";
  canonical = 80;
}

abbrev observed : Option Attempt × Db
observed = value_or (none, started) (record_external_observation 20 6 report started)

observes : record_external_observation 20 6 report started ≡ ok observed
unfolding after_session after_call create_queued_run create_invocation create_attempt update_run
    insert_run insert_scope insert_wait insert_invocation insert_attempt insert_outbox update_runs
    update_invocations update_attempts update_outbox update_waits event max_seq max_attempt_no
    ensure_submit_outbox claim_submit_outbox mark_submit_outbox_submitted finish_attempt
    reconcile_attempt record_external_observation transaction is_blank ◌>>=◌
observes = refl

record_external_observation-Follows_example : Progresses 6 any_attempt observed
record_external_observation-Follows_example =
    record_external_observation-Follows 20 6 report started any_attempt observed attempt_there
      observes

-- A submission of unknown outcome whose attempt was reconciled as failed.
abbrev box_unknown : Outbox
box_unknown = record box { status = OutboxStatus.unknown }

abbrev failed_attempt : Attempt
failed_attempt = record any_attempt { status = AttemptStatus.failed }

abbrev reconciled_db : Db
reconciled_db = record (small AttemptStatus.failed) { outbox = box_unknown ∷ [] }

abbrev resolved : Outbox × Db
resolved = value_or (box, reconciled_db) (resolve_unknown_submit 30 8 "job-1" 81 true reconciled_db)

resolves : resolve_unknown_submit 30 8 "job-1" 81 true reconciled_db ≡ ok resolved
unfolding resolve_unknown_submit update_outbox update_attempts update_invocations update_runs event
    max_seq is_blank ◌>>=◌
resolves = refl

resolve_unknown_submit-reopens_example :
    (a' : Attempt) × (attempt_of 6 resolved.1 ≡ some a')
    × (a'.status ≡ AttemptStatus.submitted)
    × (a'.external_ref ≡ some "job-1")
    × (a'.version ≡ 2)
    × (a'.reconciliation ≡ failed_attempt.reconciliation)
resolve_unknown_submit-reopens_example =
    resolve_unknown_submit-reopens 30 8 "job-1" 81 reconciled_db box_unknown failed_attempt resolved
      refl refl refl resolves
