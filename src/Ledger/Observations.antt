-- ===== src/Ledger/Observations.antt =====
-- runtime/ledger.py: `record_external_observation`.
pub mod Evolution
pub mod Monotone
use multiverse.Base.{
  ℕ, String, str_eq, Bool, true, false, not, ◌&&◌, ◌||◌, Option, none, some, ◌==◌, ltb, is_none,
  if◌then◌else◌,
}
use multiverse.Ledger.Status.WaitStatus
use multiverse.Ledger.Status.WaitStatus.{WaitStatus}
use multiverse.Ledger.Schema.{
  Attempt, Run, Wait, WaitKey, WaitKind, Payload, Observation, ObservedStatus, EffectState,
}
use multiverse.Ledger.Tx.Monad.{
  Error, Entity, Conflict, pure, gets, or_raise, raise_if, raise_found, branch, ◌>>=◌, ◌>>◌,
}
use multiverse.Ledger.Tx.Database.{Db, Tx, update_attempts, update_waits, insert_wait}
use multiverse.Ledger.Queries.{run_of, attempt_of, joined_attempt_of, get_attempt}
use multiverse.Ledger.Waits.{new_wait, wait_at, get_wait_by_key}

-- A field of the observation document, as `json` reads it.
pub data Field : Type 0 where
  missing other : Field
  text : String → Field
  whole : ℕ → Field
  boolean : Bool → Field
  -- an integer below zero
  negative : ℕ → Field

pub record Document : Type 0 where
  pub execution_ref : Field
  pub revision : Field
  pub status : Field
  pub observed_at : Field
  pub execution_final : Field
  pub effect_state : Field
  -- the number of the canonical text of the whole document
  pub canonical : ℕ

abbrev pub is_missing : Field → Bool
is_missing Field.missing = true
is_missing _ = false

-- `isinstance(revision, int) and revision >= 1`; a Python bool is an int, and True is 1.
abbrev pub revision_of : Field → Option ℕ
revision_of (Field.whole n) = if ltb n 1 then none else some n
revision_of (Field.boolean true) = some 1
revision_of _ = none

abbrev pub text_of : Field → Option String
text_of (Field.text t) = some t
text_of _ = none

abbrev pub boolean_of : Field → Option Bool
boolean_of (Field.boolean b) = some b
boolean_of _ = none

abbrev pub observed_status_of_text : String → Option ObservedStatus
observed_status_of_text t =
    if str_eq t "accepted"
    then some ObservedStatus.accepted
    else if str_eq t "running"
    then some ObservedStatus.running
    else if str_eq t "waiting"
    then some ObservedStatus.waiting
    else if str_eq t "succeeded"
    then some ObservedStatus.succeeded
    else if str_eq t "failed"
    then some ObservedStatus.failed
    else if str_eq t "cancelled"
    then some ObservedStatus.cancelled
    else if str_eq t "unknown"
    then some ObservedStatus.unknown
    else none

abbrev pub status_of : Field → Option ObservedStatus
status_of (Field.text t) = observed_status_of_text t
status_of _ = none

abbrev pub effect_of_text : String → Option EffectState
effect_of_text t =
    if str_eq t "none"
    then some EffectState.nothing
    else if str_eq t "possible"
    then some EffectState.possible
    else if str_eq t "confirmed"
    then some EffectState.confirmed
    else if str_eq t "not_applicable"
    then some EffectState.not_applicable
    else none

abbrev pub effect_of : Field → Option EffectState
effect_of (Field.text t) = effect_of_text t
effect_of _ = none

-- {"succeeded", "failed", "cancelled"}
abbrev pub is_terminal : ObservedStatus → Bool
is_terminal ObservedStatus.succeeded = true
is_terminal ObservedStatus.failed = true
is_terminal ObservedStatus.cancelled = true
is_terminal _ = false

abbrev pub is_unknown : ObservedStatus → Bool
is_unknown ObservedStatus.unknown = true
is_unknown _ = false

abbrev pub is_succeeded : ObservedStatus → Bool
is_succeeded ObservedStatus.succeeded = true
is_succeeded _ = false

abbrev pub same_status : ObservedStatus → ObservedStatus → Bool
same_status ObservedStatus.accepted ObservedStatus.accepted = true
same_status ObservedStatus.running ObservedStatus.running = true
same_status ObservedStatus.waiting ObservedStatus.waiting = true
same_status ObservedStatus.succeeded ObservedStatus.succeeded = true
same_status ObservedStatus.failed ObservedStatus.failed = true
same_status ObservedStatus.cancelled ObservedStatus.cancelled = true
same_status ObservedStatus.unknown ObservedStatus.unknown = true
same_status _ _ = false

-- The checks of the document before the transaction, in the order of the code.
unfoldable pub parse : Document → Tx Observation
parse d = do
  raise_if
      (is_missing d.execution_ref
        || is_missing d.revision
        || is_missing d.status
        || is_missing d.observed_at
        || is_missing d.execution_final
        || is_missing d.effect_state)
      (Error.conflict Conflict.missing_fields)
  revision ← or_raise (Error.conflict Conflict.bad_revision) (revision_of d.revision)
  execution_ref ← or_raise (Error.conflict Conflict.bad_reference) (text_of d.execution_ref)
  status ← or_raise (Error.conflict Conflict.bad_status) (status_of d.status)
  observed_at ← or_raise (Error.conflict Conflict.bad_observed_at) (text_of d.observed_at)
  final ← or_raise (Error.conflict Conflict.bad_final) (boolean_of d.execution_final)
  effect ← or_raise (Error.conflict Conflict.bad_effect) (effect_of d.effect_state)
  raise_if (is_succeeded status && not final) (Error.conflict Conflict.succeeded_not_final)
  pure (record {
    execution_ref = execution_ref;
    revision = revision;
    status = status;
    observed_at = observed_at;
    execution_final = final;
    effect_state = effect;
    text = d.canonical;
  })

-- `row["external_ref"] not in (None, observation["executionRef"])`
abbrev pub other_reference : Option String → String → Bool
other_reference none r = false
other_reference (some q) r = not (str_eq q r)

-- `previous is not None and revision < int(previous)`
abbrev pub is_behind : Option ℕ → ℕ → Bool
is_behind none n = false
is_behind (some m) n = ltb n m

abbrev pub is_at : Option ℕ → ℕ → Bool
is_at none n = false
is_at (some m) n = n == m

-- `row["observation_json"] == observation_json`
abbrev pub is_text : Option Observation → ℕ → Bool
is_text none t = false
is_text (some o) t = o.text == t

-- The checks against the observation that is stored.
abbrev pub progress_problem : Option Observation → Observation → Option Error
progress_problem none o = none
progress_problem (some p) o =
    if is_terminal p.status && not (same_status p.status o.status)
    then some (Error.conflict Conflict.terminal_changed)
    else if p.execution_final && not o.execution_final
    then some (Error.conflict Conflict.final_changed)
    else none

unfoldable pub record_external_observation : ℕ → ℕ → Document → Tx (Option Attempt)
unfolding parse get_attempt
record_external_observation now k d = do
  o ← parse d
  found ← gets (joined_attempt_of k)
  row ← or_raise (Error.not_found Entity.attempt k) found
  raise_if (other_reference row.external_ref o.execution_ref)
      (Error.conflict Conflict.other_reference)
  raise_if (is_behind row.observation_revision o.revision)
      (Error.conflict Conflict.revision_backwards)
  branch (is_at row.observation_revision o.revision)
      (do
        raise_if (not (is_text row.observation o.text)) (Error.conflict Conflict.revision_changed)
        pure (some row))
      do
        raise_found (progress_problem row.observation o)
        raise_if (o.execution_final && not (is_terminal o.status || is_unknown o.status))
            (Error.conflict Conflict.not_terminal_final)
        update_attempts (λ a. a.id == k)
            (λ a. record a {
              observation_revision = some o.revision;
              observation = some o;
              updated_at = now;
            })
        get_attempt k
