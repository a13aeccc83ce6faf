-- ===== src/Ledger/Schema/Rows.antt =====
-- The rows of the tables runs, scopes, invocations, attempts, outbox, waits and commands. The
-- columns that are written once, at the insert, and only handed on by the ledger stand in a record
-- of their own for a run (`RunSpec`).
use multiverse.Base.{ℕ, String, Bool, List, Option}
use multiverse.Ledger.Status.RunStatus.{RunStatus}
use multiverse.Ledger.Status.ControlMode.{ControlMode}
use multiverse.Ledger.Status.ScopeStatus.{ScopeStatus}
use multiverse.Ledger.Status.InvocationStatus.{InvocationStatus}
use multiverse.Ledger.Status.AttemptStatus.{AttemptStatus}
use multiverse.Ledger.Status.WaitStatus.{WaitStatus}
use multiverse.Ledger.Status.OutboxStatus.{OutboxStatus}
use multiverse.Ledger.Status.CommandStatus.{CommandStatus}
use multiverse.Ledger.Schema.Keys.{
  WaitKey, WaitKind, Payload, ErrorJson, OutputJson, CommandOperation, Reconciliation,
}

pub record RunSpec : Type 0 where
  pub deployment_id : Option ℕ
  pub workflow_id : ℕ
  pub package_digest : ℕ
  pub binding_digest : Option ℕ
  pub plan : ℕ
  pub input : ℕ
  pub input_digest : ℕ
  pub deadline_at : ℕ
  pub rerun_of : Option ℕ
  pub rerun_reason : Option ℕ

pub record Run : Type 0 where
  pub id : ℕ
  pub namespace : ℕ
  pub spec : RunSpec
  pub status : RunStatus
  pub control_mode : ControlMode
  pub next_attempt_at : Option ℕ
  pub version : ℕ
  pub current_node_id : Option ℕ
  pub current_scope_id : Option ℕ
  pub current_invocation_id : Option ℕ
  pub output : Option OutputJson
  pub error : Option ErrorJson
  pub created_at : ℕ
  pub updated_at : ℕ

pub record Scope : Type 0 where
  pub id : ℕ
  pub run_id : ℕ
  pub parent_scope_id : Option ℕ
  pub parent_invocation_id : Option ℕ
  pub workflow_id : ℕ
  pub path : List ℕ
  pub input : ℕ
  pub input_digest : ℕ
  pub status : ScopeStatus
  pub output : Option OutputJson
  pub error : Option ErrorJson
  pub created_at : ℕ

pub record Invocation : Type 0 where
  pub id : ℕ
  pub run_id : ℕ
  pub scope_id : ℕ
  pub node_id : ℕ
  pub status : InvocationStatus
  pub input : ℕ
  pub input_digest : ℕ
  pub output : Option OutputJson
  pub error : Option ErrorJson
  pub version : ℕ
  pub created_at : ℕ
  pub updated_at : ℕ

-- An observation that has passed the checks of `record_external_observation`.
pub data ObservedStatus : Type 0 where
  accepted running waiting succeeded failed cancelled unknown : ObservedStatus

pub data EffectState : Type 0 where
  nothing possible confirmed not_applicable : EffectState

pub record Observation : Type 0 where
  pub execution_ref : String
  pub revision : ℕ
  pub status : ObservedStatus
  pub observed_at : String
  pub execution_final : Bool
  pub effect_state : EffectState
  -- the number of the whole canonical text, which covers the fields that the ledger does not read
  pub text : ℕ

pub record Attempt : Type 0 where
  pub id : ℕ
  pub run_id : ℕ
  pub scope_id : ℕ
  pub invocation_id : ℕ
  pub attempt_no : ℕ
  pub status : AttemptStatus
  pub input : ℕ
  pub input_digest : ℕ
  pub dispatch_key : ℕ
  pub effect_key : ℕ
  pub output : Option OutputJson
  pub error : Option ErrorJson
  pub external_ref : Option String
  pub observation_revision : Option ℕ
  pub observation : Option Observation
  pub next_attempt_at : Option ℕ
  pub version : ℕ
  pub reconciliation : Option Reconciliation
  pub created_at : ℕ
  pub updated_at : ℕ

-- `action_key` is `submit:` and the attempt's id, and `action` is always 'submit'.
pub record Outbox : Type 0 where
  pub id : ℕ
  pub namespace : ℕ
  pub run_id : ℕ
  pub scope_id : ℕ
  pub invocation_id : ℕ
  pub attempt_id : ℕ
  pub payload : ℕ
  pub payload_digest : ℕ
  pub status : OutboxStatus
  pub external_ref : Option String
  pub attempt_count : ℕ
  pub next_attempt_at : Option ℕ
  pub last_error : Option ErrorJson
  pub created_at : ℕ
  pub updated_at : ℕ

pub record Wait : Type 0 where
  pub id : ℕ
  pub namespace : ℕ
  pub wait_key : WaitKey
  pub kind : WaitKind
  pub run_id : ℕ
  pub scope_id : Option ℕ
  pub invocation_id : Option ℕ
  pub not_before : ℕ
  pub payload : Payload
  pub status : WaitStatus
  pub worker_id : Option String
  pub claimed_at : Option ℕ
  pub created_at : ℕ
  pub updated_at : ℕ

-- What a command changed, as `transition` names it.
pub data Transition : Type 0 where
  run_created run_paused run_resumed run_cancelled run_cancel_requested : Transition
  human_decided : Transition

pub record Command : Type 0 where
  pub id : ℕ
  pub idempotency_key : ℕ
  pub fingerprint : ℕ
  pub operation : CommandOperation
  pub namespace : ℕ
  pub subject : ℕ
  pub resource_id : ℕ
  pub status : CommandStatus
  pub resource_version : Option ℕ
  pub before_version : Option ℕ
  pub after_version : Option ℕ
  pub transition : Option Transition
  pub error : Option ErrorJson
  pub created_at : ℕ
  pub updated_at : ℕ
