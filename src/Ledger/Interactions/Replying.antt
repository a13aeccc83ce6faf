-- ===== src/Ledger/Interactions/Replying.antt =====
-- runtime/ledger.py: `respond_codex_interaction`. `digest` is `_digest` of a response, and `scoped` makes
-- the text `{namespace}:{actor}:{idempotency_key}` by which a reply is known.
use multiverse.Base.{
  ℕ, ◌+◌, String, Bool, false, not, ◌&&◌, ◌||◌, Option, none, some, ◌==◌, leb, is_some_of, has,
  str_eq,
}
use multiverse.Ledger.Status.InteractionStatus
use multiverse.Ledger.Status.InteractionStatus.{InteractionStatus}
use multiverse.Ledger.Status.DeliveryStatus.{DeliveryStatus}
use multiverse.Ledger.Schema.{EventPayload, Interaction}
use multiverse.Ledger.Tx.Monad.{
  Entity, Conflict, conflict, not_found, Result, ok, err, pure, gets, or_raise, raise_if, branch,
  transaction, ◌>>=◌, ◌>>◌,
}
use multiverse.Ledger.Tx.Database.{Db, Tx}
use multiverse.Ledger.Tx.Dialogue.{update_interactions}
use multiverse.Ledger.Queries.{run_of}
use multiverse.Ledger.Interactions.{expired, interaction_by_key, interaction_of, report}

abbrev pub replied : ℕ → ℕ → ℕ → String → ℕ → Interaction → Interaction
replied now response digest actor key i = record i {
  status = InteractionStatus.replied;
  version = i.version + 1;
  response = some response;
  response_digest = some digest;
  actor = some actor;
  idempotency_key = some key;
  delivery_status = DeliveryStatus.pending;
  updated_at = now;
}

-- `row["actor"] == actor`, where the column may be NULL.
abbrev pub is_actor : Option String → String → Bool
is_actor none actor = false
is_actor (some a) actor = str_eq a actor

-- The reply of a row that has this key already: the same content is answered again.
unfoldable pub replay : Interaction → ℕ → String → Tx (Option Interaction)
replay row digest actor = do
  raise_if (not (is_some_of row.response_digest digest) || not (is_actor row.actor actor))
      (conflict Conflict.key_reused)
  pure (some row)

-- `existing is not None and existing["id"] != interaction_id`
abbrev pub is_other : Option Interaction → ℕ → Bool
is_other none k = false
is_other (some i) k = not (i.id == k)

-- A reply that comes too late marks the interaction, and answers none.
unfoldable pub reply_late : ℕ → Interaction → ℕ → String → Tx (Option Interaction)
reply_late now row k actor = do
  update_interactions (λ i. i.id == k && InteractionStatus.is_pending i.status) (expired now)
  report now row (EventPayload.interaction_expired_for k actor)
  pure none

unfoldable pub reply_in_time : ℕ → Interaction → ℕ → ℕ → ℕ → String → ℕ → Tx (Option Interaction)
reply_in_time now row k response digest actor key = do
  update_interactions (λ i. i.id == k) (replied now response digest actor key)
  report now row (EventPayload.interaction_replied k actor)
  gets (interaction_of k)

-- A reply with a key that the row does not have.
unfoldable pub reply_now : ℕ → Interaction → ℕ → ℕ → String → ℕ → ℕ → ℕ → Tx (Option Interaction)
unfolding has reply_late reply_in_time
reply_now now row k expected actor response digest key = do
  existing ← gets (interaction_by_key key)
  raise_if (is_other existing k) (conflict Conflict.key_of_other_interaction)
  raise_if (not (row.version == expected)) (conflict Conflict.interaction_version)
  raise_if (not (InteractionStatus.is_pending row.status))
      (conflict (Conflict.interaction_closed row.status))
  raise_if (not (has row.authorized_subjects actor)) (conflict Conflict.actor_not_authorized)
  branch (leb row.expires_at now) (reply_late now row k actor)
      (reply_in_time now row k response digest actor key)

-- The transaction of `respond_codex_interaction`; it answers none if the interaction has expired.
unfoldable pub respond_tx :
    (ℕ → ℕ) → (ℕ → String → ℕ → ℕ) → ℕ → ℕ → ℕ → String → ℕ → ℕ → Tx (Option Interaction)
unfolding replay reply_now
respond_tx digest scoped now k expected actor response key = do
  found ← gets (interaction_of k)
  row ← or_raise (not_found Entity.interaction k) found
  found_run ← gets (run_of row.run_id)
  run ← or_raise (conflict Conflict.interaction_run) found_run
  let scoped_key = scoped run.namespace actor key
  branch (is_some_of row.idempotency_key scoped_key) (replay row (digest response) actor)
      (reply_now now row k expected actor response (digest response) scoped_key)

-- Behind the transaction: that an interaction has expired is stored, and raised.
abbrev pub raise_expired : Result (Option Interaction) → Result Interaction
raise_expired (ok (some i)) = ok i
raise_expired (ok none) = err (conflict Conflict.interaction_expired)
raise_expired (err x) = err x

unfoldable pub respond_codex_interaction :
    (ℕ → ℕ) → (ℕ → String → ℕ → ℕ) → ℕ → ℕ → ℕ → String → ℕ → ℕ → Db → Result Interaction × Db
unfolding respond_tx transaction
respond_codex_interaction digest scoped now k expected actor response key s =
    let done = transaction (respond_tx digest scoped now k expected actor response key) s in
    (raise_expired done.0, done.1)
