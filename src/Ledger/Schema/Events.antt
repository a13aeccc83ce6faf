-- ===== src/Ledger/Schema/Events.antt =====
-- The rows of run_events. The `payload_json` of an event is kept by the fields of the document.
use multiverse.Base.{ℕ, String, Option}
use multiverse.Ledger.Status.RunStatus.{RunStatus}
use multiverse.Ledger.Status.ControlMode.{ControlMode}
use multiverse.Ledger.Status.ScopeStatus.{ScopeStatus}
use multiverse.Ledger.Status.InvocationStatus.{InvocationStatus}
use multiverse.Ledger.Status.AttemptStatus.{AttemptStatus}
use multiverse.Ledger.Schema.Keys.{ErrorJson, Operation, Reconciliation}

-- The continuation columns of a run, as the "run.updated" event reports them.
pub record Continuation : Type 0 where
  pub scope_id : Option ℕ
  pub node_id : Option ℕ
  pub invocation_id : Option ℕ

pub data EventPayload : Type 0 where
  -- an event that a caller records: its type and its payload
  recorded : ℕ → ℕ → EventPayload
  -- "run.created": the workflow
  run_created : ℕ → EventPayload
  -- "run.paused", "run.resumed", "run.cancelled", "run.cancel_requested"
  run_controlled : Operation → String → RunStatus → ControlMode → ℕ → EventPayload
  -- "run.updated": status, mode, continuation, version, and what a retry or a block adds
  run_updated : RunStatus → ControlMode → Continuation → ℕ → EventPayload
  run_blocked : RunStatus → ControlMode → Continuation → ℕ → EventPayload
  run_retries : RunStatus → ControlMode → Continuation → ℕ → ℕ → EventPayload
  -- "scope.created": workflow and input digest; "scope.updated"
  scope_created : ℕ → ℕ → EventPayload
  scope_updated : ScopeStatus → EventPayload
  -- "invocation.created": the node; "invocation.updated": status and version
  invocation_created : ℕ → EventPayload
  invocation_updated : InvocationStatus → ℕ → EventPayload
  -- "attempt.created": the number; "attempt.updated": status, version, next attempt
  attempt_created : ℕ → EventPayload
  attempt_updated : AttemptStatus → ℕ → Option ℕ → EventPayload
  -- "attempt.reconciled"
  attempt_reconciled : Reconciliation → AttemptStatus → ℕ → EventPayload
  -- "retry.scheduled": node, attempt number, next attempt, delay, error
  retry_scheduled : ℕ → ℕ → ℕ → ℕ → ErrorJson → EventPayload
  -- "execution.submit_intent.created": dispatch key and payload digest
  submit_intent : ℕ → ℕ → EventPayload
  -- "execution.submitted"; "execution.submit_reconciled"; "execution.submit_unknown"
  submitted : String → EventPayload
  submit_reconciled : String → ℕ → EventPayload
  submit_unknown : ErrorJson → EventPayload
  -- "human.created": the request; "human.decided": request, choice and version
  human_created : ℕ → EventPayload
  human_decided : ℕ → String → ℕ → EventPayload
  -- "codex.interaction.created": interaction and kind; the other events name the interaction first
  interaction_created : ℕ → ℕ → EventPayload
  interaction_delivery_sent interaction_expired : ℕ → EventPayload
  interaction_expired_for interaction_replied : ℕ → String → EventPayload
  interaction_invalid : ℕ → ℕ → EventPayload

pub record Event : Type 0 where
  pub run_id : ℕ
  pub scope_id : Option ℕ
  pub invocation_id : Option ℕ
  pub attempt_id : Option ℕ
  pub seq : ℕ
  pub payload : EventPayload
  pub occurred_at : ℕ
