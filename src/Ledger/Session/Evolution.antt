-- ===== src/Ledger/Session/Evolution.antt =====
-- Whatever is called, the ledger stays valid and moves as promised.
use multiverse.Base.{◌≡◌, refl, List, [], ◌∷◌}
use multiverse.Ledger.Tx.Monad.{Result, ok, err, transaction}
use multiverse.Ledger.Tx.Database.{Db, Tx, empty}
use multiverse.Ledger.Evolution.{Evolves, IsValid, Keeps}
use multiverse.Ledger.Evolution.Rules.{Evolves-refl, Evolves-trans}
use multiverse.Ledger.Runs.Evolution.{create_run-Keeps, create_queued_run-Keeps, update_run-Keeps}
use multiverse.Ledger.Control.Evolution.{control_run-Keeps}
use multiverse.Ledger.Commands.Evolution.{create_command-Keeps, finish_command-Keeps}
use multiverse.Ledger.Scopes.Evolution.{
  create_scope-Keeps, finish_scope-Keeps, create_invocation-Keeps, finish_invocation-Keeps,
}
use multiverse.Ledger.Attempts.Evolution.{
  create_attempt-Keeps, finish_attempt-Keeps, schedule_retry-Keeps, reconcile_attempt-Keeps,
}
use multiverse.Ledger.Observations.Evolution.{record_external_observation-Keeps}
use multiverse.Ledger.Submit.Evolution.{
  ensure_submit_outbox-Keeps, claim_submit_outbox-Keeps, mark_submit_outbox_submitted-Keeps,
  resolve_unknown_submit-Keeps, mark_submit_outbox_unknown-Keeps,
  mark_submit_outbox_retryable-Keeps,
}
use multiverse.Ledger.Events.Evolution.{record_event-Keeps}
use multiverse.Ledger.Waits.Evolution.{
  create_wait-Keeps, update_wait-Keeps, claim_wait-Keeps, claim_wait_scoped-Keeps,
  complete_wait-Keeps, release_wait-Keeps, reschedule_wait-Keeps, complete_wait_owned-Keeps,
  release_wait_owned-Keeps, reschedule_wait_owned-Keeps, requeue_stale_waits-Keeps,
  ensure_external_observation_wait-Keeps, ensure_attempt_reconciliation_wait-Keeps,
}
use multiverse.Ledger.Requests.Evolution.{
  create_human_request-Keeps, decide_human_request-Keeps, ensure_human_progress_intent-Keeps,
  complete_human_progress_intent-Keeps,
}
use multiverse.Ledger.Leases.Evolution.{
  acquire_native_session_turn-Keeps, release_native_session_turn-Keeps,
  release_native_session_turn_for_attempt-Keeps,
}
use multiverse.Ledger.Interactions.Evolution.{
  create_codex_interaction-Keeps, confirm_codex_interaction_delivery-Keeps,
  invalidate_codex_interaction-Keeps, respond_tx-Keeps, expire_codex_interactions-Keeps,
  invalidate_codex_interactions_for_attempt-Keeps,
}
use multiverse.Ledger.Interactions.Replying.{respond_codex_interaction}
use multiverse.Ledger.Session.{Call, after_call, after_session}

transaction-Keeps :
    {A : Type 0} (s : Db) (m : Tx A)
    → Keeps m s
    → IsValid s
    → IsValid (transaction m s).1 × Evolves s (transaction m s).1
unfolding transaction
transaction-Keeps {A} s m k v = go (m s) refl
  where
    go :
        (r : Result (A × Db))
        → m s ≡ r
        → IsValid (transaction m s).1 × Evolves s (transaction m s).1
    go (ok (a, t)) e = rw (e, transaction) (k.at v a t e)
    go (err x) e = rw (e, transaction) (v, Evolves-refl s)

after_call-Keeps :
    (s : Db) (c : Call) → IsValid s → IsValid (after_call s c) × Evolves s (after_call s c)
unfolding after_call respond_codex_interaction
after_call-Keeps s (Call.create_run now k namespace spec command) v =
    transaction-Keeps s _ (create_run-Keeps s now k namespace spec command) v
after_call-Keeps s
      (Call.create_queued_run digest root now k scope wait namespace spec entry command) v =
    transaction-Keeps s _
      (create_queued_run-Keeps s digest root now k scope wait namespace spec entry command) v
after_call-Keeps s (Call.update_run now k update) v =
    transaction-Keeps s _ (update_run-Keeps s now k update) v
after_call-Keeps s (Call.control_run now new k operation expected reason command enqueue) v =
    transaction-Keeps s _ (control_run-Keeps s now new k operation expected reason command enqueue)
      v
after_call-Keeps s (Call.create_command now k key fingerprint operation namespace resource subject)
      v =
    transaction-Keeps s _
      (create_command-Keeps s now k key fingerprint operation namespace resource subject) v
after_call-Keeps s (Call.finish_command now k status version error) v =
    transaction-Keeps s _ (finish_command-Keeps s now k status version error) v
after_call-Keeps s (Call.create_scope digest now new run workflow path input parent invocation) v =
    transaction-Keeps s _
      (create_scope-Keeps s digest now new run workflow path input parent invocation) v
after_call-Keeps s (Call.finish_scope now k status output error) v =
    transaction-Keeps s _ (finish_scope-Keeps s now k status output error) v
after_call-Keeps s (Call.create_invocation digest now new run scope node input input_digest) v =
    transaction-Keeps s _
      (create_invocation-Keeps s digest now new run scope node input input_digest) v
after_call-Keeps s (Call.finish_invocation now k status output error) v =
    transaction-Keeps s _ (finish_invocation-Keeps s now k status output error) v
after_call-Keeps s (Call.create_attempt digest now new invocation input dispatch effect number) v =
    transaction-Keeps s _
      (create_attempt-Keeps s digest now new invocation input dispatch effect number) v
after_call-Keeps s (Call.finish_attempt now k status output error ref) v =
    transaction-Keeps s _ (finish_attempt-Keeps s now k status output error ref) v
after_call-Keeps s (Call.schedule_retry now new k node next error delay) v =
    transaction-Keeps s _ (schedule_retry-Keeps s now new k node next error delay) v
after_call-Keeps s
      (Call.reconcile_attempt now new k expected conclusion evidence reason actor output enqueue)
      v =
    transaction-Keeps s _
      (reconcile_attempt-Keeps s now new k expected conclusion evidence reason actor output enqueue)
      v
after_call-Keeps s (Call.record_external_observation now k document) v =
    transaction-Keeps s _ (record_external_observation-Keeps s now k document) v
after_call-Keeps s (Call.ensure_submit_outbox digest now new wait k payload) v =
    transaction-Keeps s _ (ensure_submit_outbox-Keeps s digest now new wait k payload) v
after_call-Keeps s (Call.claim_submit_outbox now k) v =
    transaction-Keeps s _ (claim_submit_outbox-Keeps s now k) v
after_call-Keeps s (Call.mark_submit_outbox_submitted now k ref) v =
    transaction-Keeps s _ (mark_submit_outbox_submitted-Keeps s now k ref) v
after_call-Keeps s (Call.resolve_unknown_submit now k ref evidence has_evidence) v =
    transaction-Keeps s _ (resolve_unknown_submit-Keeps s now k ref evidence has_evidence) v
after_call-Keeps s (Call.mark_submit_outbox_unknown now k error) v =
    transaction-Keeps s _ (mark_submit_outbox_unknown-Keeps s now k error) v
after_call-Keeps s (Call.mark_submit_outbox_retryable now k) v =
    transaction-Keeps s _ (mark_submit_outbox_retryable-Keeps s now k) v
after_call-Keeps s (Call.create_wait now new ns key kind run not_before payload scope invocation)
      v =
    transaction-Keeps s _
      (create_wait-Keeps s now new ns key kind run not_before payload scope invocation) v
after_call-Keeps s (Call.update_wait now k not_before) v =
    transaction-Keeps s _ (update_wait-Keeps s now k not_before) v
after_call-Keeps s (Call.claim_wait k worker now) v =
    transaction-Keeps s _ (claim_wait-Keeps s k worker now) v
after_call-Keeps s (Call.claim_wait_scoped ns k worker now) v =
    transaction-Keeps s _ (claim_wait_scoped-Keeps s ns k worker now) v
after_call-Keeps s (Call.complete_wait now k) v =
    transaction-Keeps s _ (complete_wait-Keeps s now k) v
after_call-Keeps s (Call.release_wait now k) v =
    transaction-Keeps s _ (release_wait-Keeps s now k) v
after_call-Keeps s (Call.reschedule_wait now k not_before) v =
    transaction-Keeps s _ (reschedule_wait-Keeps s now k not_before) v
after_call-Keeps s (Call.complete_wait_owned now k ns worker) v =
    transaction-Keeps s _ (complete_wait_owned-Keeps s now k ns worker) v
after_call-Keeps s (Call.release_wait_owned now k ns worker) v =
    transaction-Keeps s _ (release_wait_owned-Keeps s now k ns worker) v
after_call-Keeps s (Call.reschedule_wait_owned now k ns worker not_before) v =
    transaction-Keeps s _ (reschedule_wait_owned-Keeps s now k ns worker not_before) v
after_call-Keeps s (Call.requeue_stale_waits now older_than ns) v =
    transaction-Keeps s _ (requeue_stale_waits-Keeps s now older_than ns) v
after_call-Keeps s (Call.ensure_external_observation_wait now new k ref not_before) v =
    transaction-Keeps s _ (ensure_external_observation_wait-Keeps s now new k ref not_before) v
after_call-Keeps s (Call.ensure_attempt_reconciliation_wait now new k allow_unknown) v =
    transaction-Keeps s _ (ensure_attempt_reconciliation_wait-Keeps s now new k allow_unknown) v
after_call-Keeps s (Call.record_event now run type payload scope invocation attempt) v =
    transaction-Keeps s _ (record_event-Keeps s now run type payload scope invocation attempt) v
after_call-Keeps s
      (Call.create_human_request now new wait run scope invocation type text subject choices
        authorized expires_at)
      v =
    transaction-Keeps s _
      (create_human_request-Keeps s now new wait run scope invocation type text subject choices
        authorized expires_at)
      v
after_call-Keeps s
      (Call.decide_human_request now new intent wait k choice decision comment expected subject
        actor key command)
      v =
    transaction-Keeps s _
      (decide_human_request-Keeps s now new intent wait k choice decision comment expected subject
        actor key command)
      v
after_call-Keeps s (Call.ensure_human_progress_intent now new k) v =
    transaction-Keeps s _ (ensure_human_progress_intent-Keeps s now new k) v
after_call-Keeps s (Call.complete_human_progress_intent now k) v =
    transaction-Keeps s _ (complete_human_progress_intent-Keeps s now k) v
after_call-Keeps s (Call.acquire_native_session_turn digest now identity attempt owner) v =
    transaction-Keeps s _ (acquire_native_session_turn-Keeps s digest now identity attempt owner) v
after_call-Keeps s (Call.release_native_session_turn now k attempt owner token) v =
    transaction-Keeps s _ (release_native_session_turn-Keeps s now k attempt owner token) v
after_call-Keeps s (Call.release_native_session_turn_for_attempt now attempt) v =
    transaction-Keeps s _ (release_native_session_turn_for_attempt-Keeps s now attempt) v
after_call-Keeps s (Call.create_codex_interaction now i) v =
    transaction-Keeps s _ (create_codex_interaction-Keeps s now i) v
after_call-Keeps s (Call.confirm_codex_interaction_delivery now k) v =
    transaction-Keeps s _ (confirm_codex_interaction_delivery-Keeps s now k) v
after_call-Keeps s (Call.invalidate_codex_interaction now k reason) v =
    transaction-Keeps s _ (invalidate_codex_interaction-Keeps s now k reason) v
after_call-Keeps s (Call.respond_codex_interaction digest scoped now k expected actor response key)
      v =
    transaction-Keeps s _ (respond_tx-Keeps s digest scoped now k expected actor response key) v
after_call-Keeps s (Call.expire_codex_interactions now) v =
    transaction-Keeps s _ (expire_codex_interactions-Keeps s now) v
after_call-Keeps s (Call.invalidate_codex_interactions_for_attempt now attempt reason) v =
    transaction-Keeps s _ (invalidate_codex_interactions_for_attempt-Keeps s now attempt reason) v

-- From a valid ledger, every session leads to a valid ledger, and moves it as promised: rows stay
-- in place with their identities, versions do not go back and pin what they count, completed waits
-- (but those for observations, which are used again) and finished commands stay so, and the events
-- that were there stay as they were. A human request that is no longer pending stays as it is, as
-- decisions do; fencing tokens do not go back, and under one token a lease has one owner; the
-- response of an interaction that is no longer pending stays.
pub after_session-Evolves :
    (s : Db) (cs : List Call)
    → IsValid s
    → IsValid (after_session s cs) × Evolves s (after_session s cs)
unfolding after_session
after_session-Evolves s [] v = (v, Evolves-refl s)
after_session-Evolves s (c ∷ cs) v =
    let (v', e) = after_call-Keeps s c v in
    let (w, e') = after_session-Evolves (after_call s c) cs v' in
    (w, Evolves-trans s (after_call s c) (after_session (after_call s c) cs) e e')

pub empty-IsValid : IsValid empty
empty-IsValid = record {
  run_ids = tt;
  scope_ids = tt;
  invocation_ids = tt;
  attempt_ids = tt;
  outbox_ids = tt;
  wait_ids = tt;
  wait_keys = tt;
  command_ids = tt;
  owned = tt;
  numbered = λ k. tt;
  dialogue = record { request_ids = tt; lease_ids = tt; interaction_ids = tt };
}
