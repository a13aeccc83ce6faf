-- ===== src/Ledger/Tests/OfAttempts.antt =====
-- Attempt 6 of the run: numbered, ended unknown and reconciled.
use multiverse.Base.{
  ℕ, ◌+◌, ◌<◌, String, ◌≡◌, refl, Bool, true, Option, none, some, List, [], ◌∷◌, All, is_blank,
  if◌then◌else◌,
}
use multiverse.Ledger.Status.OutboxStatus.{OutboxStatus}
use multiverse.Ledger.Status.ScopeStatus.{ScopeStatus}
use multiverse.Ledger.Status.InvocationStatus.{InvocationStatus}
use multiverse.Ledger.Status.AttemptStatus.{AttemptStatus}
use multiverse.Ledger.Schema.{Run, Attempt, Invocation, Outbox, Conclusion, OutputJson}
use multiverse.Ledger.Tx.Monad.{ok, ◌>>=◌, transaction}
use multiverse.Ledger.Tx.Database.{
  Db, empty, insert_run, insert_scope, insert_wait, insert_invocation, insert_attempt,
  insert_outbox, update_runs, update_invocations, update_attempts, update_outbox, update_waits,
  event, max_seq,
}
use multiverse.Ledger.Evolution.{IsValid}
use multiverse.Ledger.Queries.{run_of, invocation_of, attempt_of, joined_attempt_of}
use multiverse.Ledger.Runs.{new_run, create_queued_run, update_run}
use multiverse.Ledger.Scopes.{create_invocation}
use multiverse.Ledger.Attempts.{create_attempt, max_attempt_no, finish_attempt, stays_closed}
use multiverse.Ledger.Attempts.Reconcile.{reconcile_attempt}
use multiverse.Ledger.Attempts.Outcomes.{create_attempt-numbers}
use multiverse.Ledger.Attempts.Blocking.{blocked, finish_attempt-blocks}
use multiverse.Ledger.Attempts.Reconciliation.{SettledAs, reconcile_attempt-once}
use multiverse.Ledger.Submit.{
  ensure_submit_outbox, claim_submit_outbox, mark_submit_outbox_submitted,
}
use multiverse.Ledger.Observations.{record_external_observation}
use multiverse.Ledger.Session.{after_session, after_call}
use multiverse.Ledger.Tests.Samples.{spec, same_digest, started, value_or}

-- A second attempt of the invocation.
abbrev pub numbered : Option Attempt × Db
numbered = value_or (none, started) (create_attempt same_digest 20 61 5 33 42 43 none started)

pub numbers : create_attempt same_digest 20 61 5 33 42 43 none started ≡ ok numbered
unfolding after_session after_call create_queued_run create_invocation create_attempt update_run
    insert_run insert_scope insert_wait insert_invocation insert_attempt update_runs event max_seq
    max_attempt_no transaction ◌>>=◌
numbers = refl

create_attempt-numbers_example :
    (a : Attempt) × (numbered.0 ≡ some a)
    × (a.invocation_id ≡ 5)
    × (a.status ≡ AttemptStatus.created)
    × (a.version ≡ 1)
    × All (λ (b : Attempt). b.invocation_id ≡ 5 → b.attempt_no < a.attempt_no) started.attempts
create_attempt-numbers_example =
    create_attempt-numbers same_digest 20 61 5 33 42 43 started numbered numbers

abbrev or_attempt : Option Attempt → Attempt → Attempt
or_attempt none d = d
or_attempt (some a) d = a

abbrev pub any_attempt : Attempt
any_attempt = record {
  id = 6;
  run_id = 1;
  scope_id = 2;
  invocation_id = 5;
  attempt_no = 1;
  status = AttemptStatus.created;
  input = 33;
  input_digest = 33;
  dispatch_key = 40;
  effect_key = 41;
  output = none;
  error = none;
  external_ref = none;
  observation_revision = none;
  observation = none;
  next_attempt_at = none;
  version = 1;
  reconciliation = none;
  created_at = 12;
  updated_at = 12;
}

pub attempt_there : joined_attempt_of 6 started ≡ some any_attempt
unfolding after_session after_call create_queued_run create_invocation create_attempt update_run
    insert_run insert_scope insert_wait insert_invocation insert_attempt update_runs event max_seq
    max_attempt_no transaction ◌>>=◌
attempt_there = refl

abbrev pub invocation : Invocation
invocation = record {
  id = 5;
  run_id = 1;
  scope_id = 2;
  node_id = 4;
  status = InvocationStatus.planned;
  input = 33;
  input_digest = 33;
  output = none;
  error = none;
  version = 1;
  created_at = 11;
  updated_at = 11;
}

invocation_there : invocation_of 5 started ≡ some invocation
unfolding after_session after_call create_queued_run create_invocation create_attempt update_run
    insert_run insert_scope insert_wait insert_invocation insert_attempt update_runs event max_seq
    max_attempt_no transaction ◌>>=◌
invocation_there = refl

-- The attempt ends unknown, at time 20.
abbrev ended : Option Attempt × Db
ended =
    value_or (none, started)
      (finish_attempt 20 6 AttemptStatus.unknown none none (some "job-1") started)

ends : finish_attempt 20 6 AttemptStatus.unknown none none (some "job-1") started ≡ ok ended
unfolding after_session after_call create_queued_run create_invocation create_attempt update_run
    insert_run insert_scope insert_wait insert_invocation insert_attempt insert_outbox update_runs
    update_invocations update_attempts update_outbox update_waits event max_seq max_attempt_no
    ensure_submit_outbox claim_submit_outbox mark_submit_outbox_submitted finish_attempt
    reconcile_attempt record_external_observation transaction is_blank ◌>>=◌
ends = refl

abbrev or_run : Option Run → Run → Run
or_run none d = d
or_run (some r) d = r

abbrev started_run : Run
started_run = or_run (run_of 1 started) (new_run 10 1 7 spec none)

run_there : run_of 1 started ≡ some started_run
unfolding after_session after_call create_queued_run create_invocation create_attempt update_run
    insert_run insert_scope insert_wait insert_invocation insert_attempt insert_outbox update_runs
    update_invocations update_attempts update_outbox update_waits event max_seq max_attempt_no
    ensure_submit_outbox claim_submit_outbox mark_submit_outbox_submitted finish_attempt
    reconcile_attempt record_external_observation transaction is_blank ◌>>=◌
run_there = refl

finish_attempt-blocks_example :
    (a : Attempt) × (i' : Invocation) × (run' : Run) × (attempt_of 6 ended.1 ≡ some a)
    × (a.status ≡ AttemptStatus.unknown)
    × (a.version ≡ 2)
    × (invocation_of 5 ended.1 ≡ some i')
    × (i'.status ≡ InvocationStatus.reconciling)
    × (i'.version ≡ 2)
    × (run_of started_run.id ended.1 ≡ some run')
    × (run' ≡ (
        if stays_closed started_run.status
        then started_run
        else blocked 20 (started_run.version + 1) started_run))
finish_attempt-blocks_example =
    finish_attempt-blocks 20 6 none none (some "job-1") started any_attempt invocation started_run
      ended attempt_there refl invocation_there run_there ends

abbrev pub box : Outbox
box = record {
  id = 8;
  namespace = 7;
  run_id = 1;
  scope_id = 2;
  invocation_id = 5;
  attempt_id = 6;
  payload = 33;
  payload_digest = 33;
  status = OutboxStatus.submitting;
  external_ref = none;
  attempt_count = 1;
  next_attempt_at = some 14;
  last_error = none;
  created_at = 14;
  updated_at = 15;
}

-- The rows of one submission and nothing else: a database that a test computes with quickly.
abbrev pub small : AttemptStatus → Db
small st = record empty {
  runs = new_run 10 1 7 spec none ∷ [];
  scopes =
      (record {
        id = 2;
        run_id = 1;
        parent_scope_id = none;
        parent_invocation_id = none;
        workflow_id = 30;
        path = 0 ∷ [];
        input = 33;
        input_digest = 33;
        status = ScopeStatus.active;
        output = none;
        error = none;
        created_at = 10;
      })
      ∷ [];
  invocations = invocation ∷ [];
  attempts = record any_attempt { status = st } ∷ [];
  outbox = box ∷ [];
}

pub small-IsValid : (st : AttemptStatus) → IsValid (small st)
small-IsValid st = record {
  run_ids = (refl, tt);
  scope_ids = (refl, tt);
  invocation_ids = (refl, tt);
  attempt_ids = (refl, tt);
  outbox_ids = (refl, tt);
  wait_ids = tt;
  wait_keys = tt;
  command_ids = tt;
  owned = tt;
  numbered = λ k. tt;
  dialogue = record { request_ids = tt; lease_ids = tt; interaction_ids = tt };
}

abbrev settled : Option Attempt × Db
settled =
    value_or (none, small AttemptStatus.unknown)
      (reconcile_attempt 25 62 6 1 Conclusion.confirmed_failed ("log-1" ∷ []) "gone" "ada" none true
        (small AttemptStatus.unknown))

settles :
    reconcile_attempt 25 62 6 1 Conclusion.confirmed_failed
      ("log-1" ∷ [])
      "gone"
      "ada"
      none
      true
      (small AttemptStatus.unknown)
    ≡ ok settled
unfolding after_session after_call create_queued_run create_invocation create_attempt update_run
    insert_run insert_scope insert_wait insert_invocation insert_attempt insert_outbox update_runs
    update_invocations update_attempts update_outbox update_waits event max_seq max_attempt_no
    ensure_submit_outbox claim_submit_outbox mark_submit_outbox_submitted finish_attempt
    reconcile_attempt record_external_observation transaction is_blank ◌>>=◌
settles = refl

reconcile_attempt-once_example :
    (row a : Attempt) × (attempt_of 6 (small AttemptStatus.unknown) ≡ some row)
    × (row.version ≡ 1)
    × (row.status ≡ AttemptStatus.unknown)
    × (attempt_of 6 settled.1 ≡ some a)
    × SettledAs Conclusion.confirmed_failed none a
    × (a.reconciliation
        ≡ some (record {
          conclusion = Conclusion.confirmed_failed;
          evidence_refs = "log-1" ∷ [];
          reason = "gone";
          actor = "ada";
        }))
    × (a.version ≡ 2)
    × ((now' new' expected' : ℕ) (conclusion' : Conclusion) (evidence' : List String)
          (reason' actor' : String) (output' : Option OutputJson) (enqueue' : Bool)
          (r' : Option Attempt × Db)
        → ¬ (
            reconcile_attempt now' new' 6 expected' conclusion' evidence' reason' actor' output'
              enqueue' settled.1
            ≡ ok r'))
reconcile_attempt-once_example =
    reconcile_attempt-once 25 62 6 1 Conclusion.confirmed_failed ("log-1" ∷ []) "gone" "ada" none
      true (small AttemptStatus.unknown) settled settles
