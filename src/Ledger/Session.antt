-- ===== src/Ledger/Session.antt =====
-- A session: the methods of the ledger, called one after the other by workers and clients in any
-- order. Each call is one transaction, which an error rolls back.
pub mod Evolution
use multiverse.Base.{ℕ, String, Bool, Option, List, [], ◌∷◌}
use multiverse.Ledger.Status.AttemptStatus.{AttemptStatus}
use multiverse.Ledger.Status.CommandStatus.{CommandStatus}
use multiverse.Ledger.Status.InvocationStatus.{InvocationStatus}
use multiverse.Ledger.Status.ScopeStatus.{ScopeStatus}
use multiverse.Ledger.Schema.{
  RunSpec, WaitKey, WaitKind, Payload, ErrorJson, OutputJson, Conclusion, Operation,
  CommandOperation, RequestType, RequestText, SessionIdentity, Interaction,
}
use multiverse.Ledger.Tx.Monad.{transaction}
use multiverse.Ledger.Tx.Database.{Db}
use multiverse.Ledger.Runs
use multiverse.Ledger.Control
use multiverse.Ledger.Commands
use multiverse.Ledger.Scopes
use multiverse.Ledger.Attempts
use multiverse.Ledger.Attempts.Reconcile
use multiverse.Ledger.Observations
use multiverse.Ledger.Submit
use multiverse.Ledger.Submit.Outcomes
use multiverse.Ledger.Waits
use multiverse.Ledger.Events
use multiverse.Ledger.Waits.Ensure
use multiverse.Ledger.Requests
use multiverse.Ledger.Requests.Deciding
use multiverse.Ledger.Requests.Intents
use multiverse.Ledger.Leases
use multiverse.Ledger.Interactions
use multiverse.Ledger.Interactions.Replying
use multiverse.Ledger.Interactions.Expiry
use multiverse.Ledger.Runs.{RunUpdate}
use multiverse.Ledger.Observations.{Document}

pub data Call : Type 0 where
  create_run : ℕ → ℕ → ℕ → RunSpec → Option ℕ → Call
  create_queued_run : (ℕ → ℕ) → ℕ → ℕ → ℕ → ℕ → ℕ → ℕ → RunSpec → ℕ → Option ℕ → Call
  update_run : ℕ → ℕ → RunUpdate → Call
  control_run : ℕ → ℕ → ℕ → Operation → ℕ → String → Option ℕ → Bool → Call
  create_command : ℕ → ℕ → ℕ → ℕ → CommandOperation → ℕ → ℕ → ℕ → Call
  finish_command : ℕ → ℕ → CommandStatus → Option ℕ → Option ErrorJson → Call
  create_scope : (ℕ → ℕ) → ℕ → ℕ → ℕ → ℕ → List ℕ → ℕ → Option ℕ → Option ℕ → Call
  finish_scope : ℕ → ℕ → ScopeStatus → Option OutputJson → Option ErrorJson → Call
  create_invocation : (ℕ → ℕ) → ℕ → ℕ → ℕ → ℕ → ℕ → ℕ → Option ℕ → Call
  finish_invocation : ℕ → ℕ → InvocationStatus → Option OutputJson → Option ErrorJson → Call
  create_attempt : (ℕ → ℕ) → ℕ → ℕ → ℕ → ℕ → ℕ → ℕ → Option ℕ → Call
  finish_attempt :
      ℕ → ℕ → AttemptStatus → Option OutputJson → Option ErrorJson → Option String → Call
  schedule_retry : ℕ → ℕ → ℕ → ℕ → ℕ → ErrorJson → ℕ → Call
  reconcile_attempt :
      ℕ → ℕ → ℕ → ℕ → Conclusion → List String → String → String → Option OutputJson → Bool → Call
  record_external_observation : ℕ → ℕ → Document → Call
  ensure_submit_outbox : (ℕ → ℕ) → ℕ → ℕ → ℕ → ℕ → ℕ → Call
  claim_submit_outbox : ℕ → ℕ → Call
  mark_submit_outbox_submitted : ℕ → ℕ → String → Call
  resolve_unknown_submit : ℕ → ℕ → String → ℕ → Bool → Call
  mark_submit_outbox_unknown : ℕ → ℕ → ErrorJson → Call
  mark_submit_outbox_retryable : ℕ → ℕ → Call
  create_wait : ℕ → ℕ → ℕ → WaitKey → WaitKind → ℕ → ℕ → Payload → Option ℕ → Option ℕ → Call
  update_wait : ℕ → ℕ → ℕ → Call
  claim_wait : ℕ → String → ℕ → Call
  claim_wait_scoped : ℕ → ℕ → String → ℕ → Call
  complete_wait : ℕ → ℕ → Call
  release_wait : ℕ → ℕ → Call
  reschedule_wait : ℕ → ℕ → ℕ → Call
  complete_wait_owned : ℕ → ℕ → ℕ → String → Call
  release_wait_owned : ℕ → ℕ → ℕ → String → Call
  reschedule_wait_owned : ℕ → ℕ → ℕ → String → ℕ → Call
  requeue_stale_waits : ℕ → ℕ → Option ℕ → Call
  ensure_external_observation_wait : ℕ → ℕ → ℕ → String → Option ℕ → Call
  ensure_attempt_reconciliation_wait : ℕ → ℕ → ℕ → Bool → Call
  record_event : ℕ → ℕ → ℕ → ℕ → Option ℕ → Option ℕ → Option ℕ → Call
  create_human_request :
      ℕ → ℕ → ℕ → ℕ → ℕ → ℕ → RequestType → RequestText → ℕ → List String → List String → ℕ → Call
  decide_human_request :
      ℕ → ℕ → ℕ → ℕ → ℕ → Option String → Option ℕ → ℕ → ℕ → ℕ → String → ℕ → Option ℕ → Call
  ensure_human_progress_intent : ℕ → ℕ → ℕ → Call
  complete_human_progress_intent : ℕ → ℕ → Call
  acquire_native_session_turn : (SessionIdentity → ℕ) → ℕ → SessionIdentity → ℕ → String → Call
  release_native_session_turn : ℕ → ℕ → ℕ → String → ℕ → Call
  release_native_session_turn_for_attempt : ℕ → ℕ → Call
  create_codex_interaction : ℕ → Interaction → Call
  confirm_codex_interaction_delivery : ℕ → ℕ → Call
  invalidate_codex_interaction : ℕ → ℕ → ℕ → Call
  respond_codex_interaction : (ℕ → ℕ) → (ℕ → String → ℕ → ℕ) → ℕ → ℕ → ℕ → String → ℕ → ℕ → Call
  expire_codex_interactions : ℕ → Call
  invalidate_codex_interactions_for_attempt : ℕ → ℕ → ℕ → Call

unfoldable pub after_call : Db → Call → Db
unfolding transaction
after_call s (Call.create_run now k namespace spec command) =
    (transaction (Runs.create_run now k namespace spec command) s).1
after_call s (Call.create_queued_run digest root now k scope wait namespace spec entry command) =
    (transaction (Runs.create_queued_run digest root now k scope wait namespace spec entry command)
      s).1
after_call s (Call.update_run now k update) = (transaction (Runs.update_run now k update) s).1
after_call s (Call.control_run now new k operation expected reason command enqueue) =
    (transaction (Control.control_run now new k operation expected reason command enqueue) s).1
after_call s (Call.create_command now k key fingerprint operation namespace resource subject) =
    (transaction
      (Commands.create_command now k key fingerprint operation namespace resource subject) s).1
after_call s (Call.finish_command now k status version error) =
    (transaction (Commands.finish_command now k status version error) s).1
after_call s (Call.create_scope digest now new run workflow path input parent invocation) =
    (transaction (Scopes.create_scope digest now new run workflow path input parent invocation) s).1
after_call s (Call.finish_scope now k status output error) =
    (transaction (Scopes.finish_scope now k status output error) s).1
after_call s (Call.create_invocation digest now new run scope node input input_digest) =
    (transaction (Scopes.create_invocation digest now new run scope node input input_digest) s).1
after_call s (Call.finish_invocation now k status output error) =
    (transaction (Scopes.finish_invocation now k status output error) s).1
after_call s (Call.create_attempt digest now new invocation input dispatch effect number) =
    (transaction (Attempts.create_attempt digest now new invocation input dispatch effect number)
      s).1
after_call s (Call.finish_attempt now k status output error ref) =
    (transaction (Attempts.finish_attempt now k status output error ref) s).1
after_call s (Call.schedule_retry now new k node next error delay) =
    (transaction (Attempts.schedule_retry now new k node next error delay) s).1
after_call s
      (Call.reconcile_attempt now new k expected conclusion evidence reason actor output enqueue) =
    (transaction
      (Reconcile.reconcile_attempt now new k expected conclusion evidence reason actor output
        enqueue)
      s).1
after_call s (Call.record_external_observation now k document) =
    (transaction (Observations.record_external_observation now k document) s).1
after_call s (Call.ensure_submit_outbox digest now new wait k payload) =
    (transaction (Submit.ensure_submit_outbox digest now new wait k payload) s).1
after_call s (Call.claim_submit_outbox now k) = (transaction (Submit.claim_submit_outbox now k) s).1
after_call s (Call.mark_submit_outbox_submitted now k ref) =
    (transaction (Submit.mark_submit_outbox_submitted now k ref) s).1
after_call s (Call.resolve_unknown_submit now k ref evidence has_evidence) =
    (transaction (Outcomes.resolve_unknown_submit now k ref evidence has_evidence) s).1
after_call s (Call.mark_submit_outbox_unknown now k error) =
    (transaction (Outcomes.mark_submit_outbox_unknown now k error) s).1
after_call s (Call.mark_submit_outbox_retryable now k) =
    (transaction (Outcomes.mark_submit_outbox_retryable now k) s).1
after_call s (Call.create_wait now new ns key kind run not_before payload scope invocation) =
    (transaction (Waits.create_wait now new ns key kind run not_before payload scope invocation)
      s).1
after_call s (Call.update_wait now k not_before) =
    (transaction (Waits.update_wait now k not_before) s).1
after_call s (Call.claim_wait k worker now) = (transaction (Waits.claim_wait k worker now) s).1
after_call s (Call.claim_wait_scoped ns k worker now) =
    (transaction (Waits.claim_wait_scoped ns k worker now) s).1
after_call s (Call.complete_wait now k) = (transaction (Waits.complete_wait now k) s).1
after_call s (Call.release_wait now k) = (transaction (Waits.release_wait now k) s).1
after_call s (Call.reschedule_wait now k not_before) =
    (transaction (Waits.reschedule_wait now k not_before) s).1
after_call s (Call.complete_wait_owned now k ns worker) =
    (transaction (Waits.complete_wait_owned now k ns worker) s).1
after_call s (Call.release_wait_owned now k ns worker) =
    (transaction (Waits.release_wait_owned now k ns worker) s).1
after_call s (Call.reschedule_wait_owned now k ns worker not_before) =
    (transaction (Waits.reschedule_wait_owned now k ns worker not_before) s).1
after_call s (Call.requeue_stale_waits now older_than ns) =
    (transaction (Waits.requeue_stale_waits now older_than ns) s).1
after_call s (Call.ensure_external_observation_wait now new k ref not_before) =
    (transaction (Ensure.ensure_external_observation_wait now new k ref not_before) s).1
after_call s (Call.ensure_attempt_reconciliation_wait now new k allow_unknown) =
    (transaction (Ensure.ensure_attempt_reconciliation_wait now new k allow_unknown) s).1
after_call s (Call.record_event now run type payload scope invocation attempt) =
    (transaction (Events.record_event now run type payload scope invocation attempt) s).1
after_call s
      (Call.create_human_request now new wait run scope invocation type text subject choices
        authorized expires_at) =
    (transaction
      (Requests.create_human_request now new wait run scope invocation type text subject choices
        authorized expires_at)
      s).1
after_call s
      (Call.decide_human_request now new intent wait k choice decision comment expected subject
        actor key command) =
    (transaction
      (Deciding.decide_human_request now new intent wait k choice decision comment expected subject
        actor key command)
      s).1
after_call s (Call.ensure_human_progress_intent now new k) =
    (transaction (Intents.ensure_human_progress_intent now new k) s).1
after_call s (Call.complete_human_progress_intent now k) =
    (transaction (Intents.complete_human_progress_intent now k) s).1
after_call s (Call.acquire_native_session_turn digest now identity attempt owner) =
    (transaction (Leases.acquire_native_session_turn digest now identity attempt owner) s).1
after_call s (Call.release_native_session_turn now k attempt owner token) =
    (transaction (Leases.release_native_session_turn now k attempt owner token) s).1
after_call s (Call.release_native_session_turn_for_attempt now attempt) =
    (transaction (Leases.release_native_session_turn_for_attempt now attempt) s).1
after_call s (Call.create_codex_interaction now i) =
    (transaction (Interactions.create_codex_interaction now i) s).1
after_call s (Call.confirm_codex_interaction_delivery now k) =
    (transaction (Interactions.confirm_codex_interaction_delivery now k) s).1
after_call s (Call.invalidate_codex_interaction now k reason) =
    (transaction (Interactions.invalidate_codex_interaction now k reason) s).1
after_call s (Call.respond_codex_interaction digest scoped now k expected actor response key) =
    (Replying.respond_codex_interaction digest scoped now k expected actor response key s).1
after_call s (Call.expire_codex_interactions now) =
    (transaction (Expiry.expire_codex_interactions now) s).1
after_call s (Call.invalidate_codex_interactions_for_attempt now attempt reason) =
    (transaction (Expiry.invalidate_codex_interactions_for_attempt now attempt reason) s).1

-- The state after a session that began in `s`.
unfoldable pub after_session : Db → List Call → Db
unfolding after_call
after_session s [] = s
after_session s (c ∷ cs) = after_session (after_call s c) cs
