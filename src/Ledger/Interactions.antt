-- ===== src/Ledger/Interactions.antt =====
-- runtime/ledger.py, interactions that a native session asks for (codex_interactions): their
-- creation, delivery and invalidation, and the row of an expired one.
pub mod Replying
pub mod Expiry
pub mod Evolution
pub mod Reply
pub mod Once
pub mod Due
use multiverse.Base.{
  ℕ, ◌+◌, String, Bool, true, false, not, ◌&&◌, ◌||◌, Option, none, some, List, [], ◌∷◌, ◌==◌, leb,
  select, is_some_of, if◌then◌else◌, has, str_eq,
}
use multiverse.Ledger.Status.InteractionStatus
use multiverse.Ledger.Status.InteractionStatus.{InteractionStatus}
use multiverse.Ledger.Status.DeliveryStatus
use multiverse.Ledger.Status.DeliveryStatus.{DeliveryStatus}
use multiverse.Ledger.Schema.{Run, Invocation, Attempt, EventPayload, Interaction}
use multiverse.Ledger.Tx.Monad.{
  Error, Entity, Conflict, conflict, not_found, Result, ok, err, pure, raise, gets, or_raise,
  raise_if, branch, transaction, ◌>>=◌, ◌>>◌,
}
use multiverse.Ledger.Tx.Database.{Db, Tx, event}
use multiverse.Ledger.Tx.Dialogue.{update_interactions, insert_interaction_or_nothing}
use multiverse.Ledger.Queries.{run_of, scope_in}

-- SELECT * FROM codex_interactions WHERE id = ?
abbrev pub interaction_of : ℕ → Db → Option Interaction
interaction_of k s = select (λ (i : Interaction). i.id == k) s.dialogue.interactions

-- WHERE attempt_id = ? AND native_request_id = ?
abbrev pub interaction_for : ℕ → ℕ → Db → Option Interaction
interaction_for attempt native s =
    select (λ (i : Interaction). i.attempt_id == attempt && i.native_request_id == native)
      s.dialogue.interactions

-- WHERE idempotency_key = ?
abbrev pub interaction_by_key : ℕ → Db → Option Interaction
interaction_by_key key s =
    select (λ (i : Interaction). is_some_of i.idempotency_key key) s.dialogue.interactions

unfoldable pub get_codex_interaction : ℕ → Tx (Option Interaction)
get_codex_interaction k = gets (interaction_of k)

unfoldable pub get_codex_interaction_for_native_request : ℕ → ℕ → Tx (Option Interaction)
get_codex_interaction_for_native_request attempt native = gets (interaction_for attempt native)

-- The event of an interaction.
abbrev pub report : ℕ → Interaction → EventPayload → Tx (Unit {0})
report now i payload =
    event now i.run_id payload (some i.scope_id) (some i.invocation_id) (some i.attempt_id)

abbrev pub is_empty : List String → Bool
is_empty [] = true
is_empty (x ∷ xs) = false

abbrev pub new_interaction :
    ℕ → ℕ → ℕ → ℕ → ℕ → ℕ → ℕ → ℕ → ℕ → ℕ → ℕ → List String → ℕ → Interaction
new_interaction now new run scope invocation attempt native thread turn kind payload authorized
      expires_at =
    record {
      id = new;
      run_id = run;
      scope_id = scope;
      invocation_id = invocation;
      attempt_id = attempt;
      native_request_id = native;
      thread_id = thread;
      turn_id = turn;
      kind = kind;
      payload = payload;
      authorized_subjects = authorized;
      expires_at = expires_at;
      version = 1;
      status = InteractionStatus.pending;
      response = none;
      response_digest = none;
      invalid_reason = none;
      actor = none;
      idempotency_key = none;
      delivery_status = DeliveryStatus.not_sent;
      created_at = now;
      updated_at = now;
    }

-- The end of the creation: the row that is stored for the native request is the new one, or an
-- earlier one with the same content.
unfoldable pub settle_creation : ℕ → Interaction → Option Interaction → Tx (Option Interaction)
settle_creation now i found = do
  x ← or_raise (conflict Conflict.interaction_not_persisted) found
  raise_if
      (not (x.thread_id == i.thread_id)
        || not (x.turn_id == i.turn_id)
        || not (x.kind == i.kind)
        || not (x.payload == i.payload))
      (conflict Conflict.native_request_conflict)
  branch (not (x.id == i.id)) (gets (interaction_of x.id))
      do report now i (EventPayload.interaction_created i.id i.kind); gets (interaction_of i.id)

-- `create_codex_interaction` with the row that it would insert.
unfoldable pub create_codex_interaction : ℕ → Interaction → Tx (Option Interaction)
unfolding settle_creation
create_codex_interaction now i = do
  raise_if (is_empty i.authorized_subjects) (conflict Conflict.subject_required)
  scope ← gets (scope_in i.scope_id i.run_id)
  or_raise (not_found Entity.scope i.scope_id) scope
  invocation ← gets (λ s.
      select
        (λ (x : Invocation).
          x.id == i.invocation_id && x.run_id == i.run_id && x.scope_id == i.scope_id)
        s.invocations)
  or_raise (conflict Conflict.interaction_invocation) invocation
  attempt ← gets (λ s.
      select (λ (x : Attempt). x.id == i.attempt_id && x.invocation_id == i.invocation_id)
        s.attempts)
  or_raise (conflict Conflict.interaction_attempt) attempt
  insert_interaction_or_nothing i
  existing ← gets (interaction_for i.attempt_id i.native_request_id)
  settle_creation now i existing

abbrev pub sent : ℕ → Interaction → Interaction
sent now i = record i {
  delivery_status = DeliveryStatus.sent;
  version = i.version + 1;
  updated_at = now;
}

unfoldable pub confirm_codex_interaction_delivery : ℕ → ℕ → Tx (Option Interaction)
confirm_codex_interaction_delivery now k = do
  found ← gets (interaction_of k)
  row ← or_raise (not_found Entity.interaction k) found
  raise_if (not (InteractionStatus.is_replied row.status)) (conflict Conflict.not_replied)
  branch (DeliveryStatus.is_sent row.delivery_status) (pure (some row)) do
    update_interactions (λ i. i.id == k) (sent now)
    report now row (EventPayload.interaction_delivery_sent k)
    gets (interaction_of k)

abbrev pub invalidated : ℕ → ℕ → Interaction → Interaction
invalidated now reason i = record i {
  status = InteractionStatus.invalid;
  version = i.version + 1;
  invalid_reason = some reason;
  updated_at = now;
}

unfoldable pub invalidate_codex_interaction : ℕ → ℕ → ℕ → Tx (Option Interaction)
invalidate_codex_interaction now k reason = do
  found ← gets (interaction_of k)
  row ← or_raise (not_found Entity.interaction k) found
  branch (not (InteractionStatus.is_pending row.status)) (pure (some row)) do
    update_interactions (λ i. i.id == k && InteractionStatus.is_pending i.status)
        (invalidated now reason)
    report now row (EventPayload.interaction_invalid k reason)
    gets (interaction_of k)

abbrev pub expired : ℕ → Interaction → Interaction
expired now i = record i {
  status = InteractionStatus.expired;
  version = i.version + 1;
  updated_at = now;
}
