-- ===== src/Ledger/Tests/OfEnsured.antt =====
-- The waits that attempt 6 needs: one for its observation, which is used again, and one for its
-- reconciliation.
use multiverse.Base.{
  Lists, ℕ, String, ◌≡◌, refl, true, false, Option, none, some, List, [], ◌∷◌, is_blank,
}
use multiverse.Ledger.Status.WaitStatus
use multiverse.Ledger.Status.WaitStatus.{WaitStatus}
use multiverse.Ledger.Status.AttemptStatus.{AttemptStatus}
use multiverse.Ledger.Schema.{Attempt, Run, Wait, WaitKey, WaitKind, Payload}
use multiverse.Ledger.Tx.Monad.{ok, ◌>>=◌, transaction}
use multiverse.Ledger.Tx.Database.{Db, insert_wait, update_waits}
use multiverse.Ledger.Queries.{run_of, attempt_of, joined_attempt_of}
use multiverse.Ledger.Waits.{wait_at, claim_wait, complete_wait}
use multiverse.Ledger.Waits.Schedule.{Earlier}
use multiverse.Ledger.Waits.Ensure.{
  ensure_external_observation_wait, ensure_attempt_reconciliation_wait, is_uncommitted,
}
use multiverse.Ledger.Waits.Ensured.{
  ensure_external_observation_wait-once, ensure_attempt_reconciliation_wait-once,
}
use multiverse.Ledger.Waits.Listing.{list_waits}
use multiverse.Ledger.Waits.Listed.{Listed, list_waits-exact}
use multiverse.Ledger.Session.{Call, after_session, after_call}
use multiverse.Ledger.Tests.Samples.{queued, queued-IsValid, value_or}
use multiverse.Ledger.Tests.OfAttempts.{small}

abbrev observed_wait : Wait
observed_wait = record {
  id = 90;
  namespace = 7;
  wait_key = WaitKey.external_observe 6;
  kind = WaitKind.external_observe;
  run_id = 1;
  scope_id = some 2;
  invocation_id = some 5;
  not_before = 50;
  payload = Payload.of_observe 6 1 2 5 "job-2";
  status = WaitStatus.pending;
  worker_id = none;
  claimed_at = none;
  created_at = 20;
  updated_at = 40;
}

-- The first wait was claimed and completed.
abbrev over : Db
over = after_session (small AttemptStatus.submitted) (
    Call.ensure_external_observation_wait 20 90 6 "job-1" none
    ∷ Call.claim_wait 90 "a" 30
    ∷ Call.complete_wait 31 90
    ∷ [])

abbrev again : Wait × Db
again =
    value_or (observed_wait, over) (ensure_external_observation_wait 40 91 6 "job-2" (some 50) over)

ensures : ensure_external_observation_wait 40 91 6 "job-2" (some 50) over ≡ ok again
unfolding after_session after_call ensure_external_observation_wait insert_wait update_waits
    claim_wait complete_wait transaction is_blank ◌>>=◌
ensures = refl

reopens : again.0 ≡ observed_wait
unfolding after_session after_call ensure_external_observation_wait insert_wait update_waits
    claim_wait complete_wait transaction is_blank ◌>>=◌
reopens = refl

ensure_external_observation_wait-once_example :
    (a : Attempt) × (run : Run) × (attempt_of 6 over ≡ some a)
    × (run_of a.run_id over ≡ some run)
    × (wait_at run.namespace (WaitKey.external_observe 6) again.1 ≡ some again.0)
    × (WaitStatus.is_closed again.0.status ≡ false)
    × ((now' new' : ℕ) (ref' : String) (not_before' : Option ℕ)
        → ensure_external_observation_wait now' new' 6 ref' not_before' again.1 ≡ ok again)
ensure_external_observation_wait-once_example =
    ensure_external_observation_wait-once 40 91 6 "job-2" (some 50) over again ensures

abbrev unknown : Db
unknown = small AttemptStatus.unknown

abbrev woken : Wait × Db
woken = value_or (observed_wait, unknown) (ensure_attempt_reconciliation_wait 40 91 6 true unknown)

wakes : ensure_attempt_reconciliation_wait 40 91 6 true unknown ≡ ok woken
unfolding ensure_attempt_reconciliation_wait insert_wait update_waits ◌>>=◌
wakes = refl

ensure_attempt_reconciliation_wait-once_example :
    (a : Attempt) × (run : Run) × (joined_attempt_of 6 unknown ≡ some a)
    × (is_uncommitted true a ≡ false)
    × (run_of a.run_id unknown ≡ some run)
    × (wait_at run.namespace (WaitKey.attempt_reconcile 6) woken.1 ≡ some woken.0)
    × (WaitStatus.is_cancelled woken.0.status ≡ false)
    × ((now' new' : ℕ) → ensure_attempt_reconciliation_wait now' new' 6 true woken.1 ≡ ok woken)
ensure_attempt_reconciliation_wait-once_example =
    ensure_attempt_reconciliation_wait-once 40 91 6 true unknown woken wakes

abbrev any_open : List WaitStatus
any_open = WaitStatus.pending ∷ WaitStatus.claimed ∷ []

list_waits-exact_example :
    (rows : List Wait) × (list_waits (some 1) none any_open queued ≡ ok (rows, queued))
    × Lists Earlier (Listed (some 1) none any_open) queued.waits rows
list_waits-exact_example = list_waits-exact (some 1) none any_open queued queued-IsValid
