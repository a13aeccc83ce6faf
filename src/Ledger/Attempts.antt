-- ===== src/Ledger/Attempts.antt =====
-- runtime/ledger.py: `create_attempt`, `finish_attempt`, `schedule_retry`, `reconcile_attempt`.
pub mod Reconcile
pub mod Evolution
pub mod Outcomes
pub mod Blocking
pub mod Reconciliation
use multiverse.Base.{
  ℕ, String, ◌+◌, max, Bool, true, false, not, ◌&&◌, ◌||◌, Option, none, some, List, [], ◌∷◌, ◌==◌,
  if◌then◌else◌,
}
use multiverse.Ledger.Status.RunStatus
use multiverse.Ledger.Status.RunStatus.{RunStatus}
use multiverse.Ledger.Status.InvocationStatus.{InvocationStatus}
use multiverse.Ledger.Status.AttemptStatus
use multiverse.Ledger.Status.AttemptStatus.{AttemptStatus}
use multiverse.Ledger.Schema.{
  Run, Invocation, Attempt, Wait, WaitKey, WaitKind, Payload, ErrorJson, OutputJson, Continuation,
  EventPayload,
}
use multiverse.Ledger.Tx.Monad.{
  Error, Entity, Conflict, pure, gets, or_raise, raise_if, branch, ◌>>=◌, ◌>>◌,
}
use multiverse.Ledger.Tx.Database.{
  Db, Tx, update_runs, update_invocations, update_attempts, insert_attempt, insert_wait, event,
}
use multiverse.Ledger.Queries.{run_of, invocation_of, joined_attempt_of, get_attempt}
use multiverse.Ledger.Waits.{new_wait}

-- SELECT COALESCE(MAX(attempt_no), 0) FROM attempts WHERE invocation_id = ?
unfoldable pub max_attempt_no : ℕ → List Attempt → ℕ
max_attempt_no k [] = 0
max_attempt_no k (a ∷ as') =
    let rest = max_attempt_no k as' in if a.invocation_id == k then max a.attempt_no rest else rest

abbrev pub number_or : Option ℕ → ℕ → ℕ
number_or none n = n
number_or (some k) n = k

unfoldable pub create_attempt : (ℕ → ℕ) → ℕ → ℕ → ℕ → ℕ → ℕ → ℕ → Option ℕ → Tx (Option Attempt)
unfolding get_attempt
create_attempt digest now new invocation_id input dispatch_key effect_key attempt_no = do
  found ← gets (invocation_of invocation_id)
  invocation ← or_raise (Error.not_found Entity.invocation invocation_id) found
  last ← gets (λ s. max_attempt_no invocation_id s.attempts)
  let number = number_or attempt_no (last + 1)
  insert_attempt (record {
    id = new;
    run_id = invocation.run_id;
    scope_id = invocation.scope_id;
    invocation_id = invocation_id;
    attempt_no = number;
    status = AttemptStatus.created;
    input = input;
    input_digest = digest input;
    dispatch_key = dispatch_key;
    effect_key = effect_key;
    output = none;
    error = none;
    external_ref = none;
    observation_revision = none;
    observation = none;
    next_attempt_at = none;
    version = 1;
    reconciliation = none;
    created_at = now;
    updated_at = now;
  })
  event now invocation.run_id (EventPayload.attempt_created number) (some invocation.scope_id)
      (some invocation_id) (some new)
  get_attempt new

-- {"succeeded", "failed", "cancelled", "blocked"}
abbrev pub stays_closed : RunStatus → Bool
stays_closed RunStatus.blocked = true
stays_closed st = RunStatus.is_terminal st

abbrev pub continuation : Run → Continuation
continuation r = record {
  scope_id = r.current_scope_id;
  node_id = r.current_node_id;
  invocation_id = r.current_invocation_id;
}

-- What an attempt of unknown outcome does to its invocation and its run, as they were read before.
unfoldable pub block_run :
    ℕ → Attempt → Invocation → Run → Tx (Option Attempt) → Tx (Option Attempt)
block_run now row invocation run rest = do
  let invocation_version = invocation.version + 1
  update_invocations (λ i. i.id == invocation.id)
      (λ i. record i {
        status = InvocationStatus.reconciling;
        version = invocation_version;
        updated_at = now;
      })
  event now row.run_id
      (EventPayload.invocation_updated InvocationStatus.reconciling invocation_version)
      (some row.scope_id) (some invocation.id) none
  branch (stays_closed run.status) rest do
    let run_version = run.version + 1
    update_runs (λ r. r.id == run.id)
        (λ r. record r { status = RunStatus.blocked; version = run_version; updated_at = now })
    event now run.id
        (EventPayload.run_blocked RunStatus.blocked run.control_mode (continuation run) run_version)
        none none none
    rest

-- The attempt's own row and its event.
unfoldable pub write_attempt :
    ℕ
    → ℕ
    → Attempt
    → AttemptStatus
    → Option OutputJson
    → Option ErrorJson
    → Option String
    → Tx (Option Attempt)
    → Tx (Option Attempt)
write_attempt now k row status output error external_ref rest = do
  update_attempts (λ a. a.id == k)
      (λ a. record a {
        status = status;
        output = output;
        error = error;
        external_ref = external_ref;
        version = a.version + 1;
        updated_at = now;
      })
  event now row.run_id (EventPayload.attempt_updated status (row.version + 1) none)
      (some row.scope_id) (some row.invocation_id) (some k)
  rest

unfoldable pub finish_attempt :
    ℕ
    → ℕ
    → AttemptStatus
    → Option OutputJson
    → Option ErrorJson
    → Option String
    → Tx (Option Attempt)
unfolding write_attempt block_run get_attempt
finish_attempt now k status output error external_ref = do
  found ← gets (joined_attempt_of k)
  row ← or_raise (Error.not_found Entity.attempt k) found
  raise_if (AttemptStatus.is_terminal row.status)
      (Error.conflict (Conflict.attempt_terminal row.status))
  branch (AttemptStatus.same row.status status) (pure (some row)) do
    raise_if (AttemptStatus.is_unknown row.status && not (AttemptStatus.is_unknown status))
        (Error.conflict Conflict.attempt_unknown)
    branch (AttemptStatus.is_unknown status)
        (do
          found_invocation ← gets (invocation_of row.invocation_id)
          invocation ←
              or_raise (Error.not_found Entity.invocation row.invocation_id) found_invocation
          found_run ← gets (run_of row.run_id)
          run ← or_raise (Error.not_found Entity.run row.run_id) found_run
          write_attempt now k row status output error external_ref
              (block_run now row invocation run (get_attempt k)))
        (write_attempt now k row status output error external_ref (get_attempt k))

unfoldable pub schedule_retry : ℕ → ℕ → ℕ → ℕ → ℕ → ErrorJson → ℕ → Tx (Option Attempt)
unfolding get_attempt
schedule_retry now new k node next_attempt_at error delay = do
  found ← gets (joined_attempt_of k)
  attempt ← or_raise (Error.not_found Entity.attempt k) found
  raise_if (AttemptStatus.is_settled attempt.status)
      (Error.conflict (Conflict.attempt_terminal attempt.status))
  found_invocation ← gets (invocation_of attempt.invocation_id)
  invocation ← or_raise (Error.not_found Entity.invocation attempt.invocation_id) found_invocation
  found_run ← gets (run_of attempt.run_id)
  run ← or_raise (Error.not_found Entity.run attempt.run_id) found_run
  let attempt_version = attempt.version + 1
  let invocation_version = invocation.version + 1
  let run_version = run.version + 1
  update_attempts (λ a. a.id == k)
      (λ a. record a {
        status = AttemptStatus.failed;
        output = some (OutputJson.error_output error);
        error = some error;
        next_attempt_at = some next_attempt_at;
        version = attempt_version;
        updated_at = now;
      })
  event now run.id
      (EventPayload.attempt_updated AttemptStatus.failed attempt_version (some next_attempt_at))
      (some attempt.scope_id) (some attempt.invocation_id) (some k)
  update_invocations (λ i. i.id == invocation.id)
      (λ i. record i {
        status = InvocationStatus.retry_wait;
        error = some error;
        version = invocation_version;
        updated_at = now;
      })
  event now run.id (EventPayload.invocation_updated InvocationStatus.retry_wait invocation_version)
      (some invocation.scope_id) (some invocation.id) none
  update_runs (λ r. r.id == run.id)
      (λ r. record r {
        status = RunStatus.retry_wait;
        current_scope_id = some attempt.scope_id;
        current_node_id = some node;
        current_invocation_id = some invocation.id;
        next_attempt_at = some next_attempt_at;
        version = run_version;
        updated_at = now;
      })
  event now run.id
      (EventPayload.run_retries RunStatus.retry_wait run.control_mode
        (record {
          scope_id = some attempt.scope_id;
          node_id = some node;
          invocation_id = some invocation.id;
        })
        next_attempt_at run_version)
      none none none
  event now run.id
      (EventPayload.retry_scheduled node attempt.attempt_no next_attempt_at delay error)
      (some attempt.scope_id) (some attempt.invocation_id) (some k)
  insert_wait (
      new_wait now new run.namespace (WaitKey.retry run.id k) WaitKind.retry run.id
        (some attempt.scope_id) (some invocation.id) next_attempt_at
        (Payload.of_retry run.id attempt.scope_id node invocation.id k))
  get_attempt k
