-- ===== src/Ledger/Requests/Intents.antt =====
-- runtime/ledger.py: ensure_human_progress_intent and complete_human_progress_intent.
use multiverse.Base.{ℕ, ◌&&◌, Option, none, some, ◌==◌}
use multiverse.Ledger.Status.IntentStatus
use multiverse.Ledger.Status.IntentStatus.{IntentStatus}
use multiverse.Ledger.Status.WaitStatus
use multiverse.Ledger.Status.WaitStatus.{WaitStatus}
use multiverse.Ledger.Schema.{WaitKey, key_eq, ProgressIntent}
use multiverse.Ledger.Tx.Monad.{Error, Conflict, pure, gets, or_raise, ◌>>=◌, ◌>>◌}
use multiverse.Ledger.Tx.Database.{Tx, update_waits}
use multiverse.Ledger.Tx.Dialogue.{update_intents, insert_intent}
use multiverse.Ledger.Requests.{decision_on, intent_on, intent_of, require_request}
use multiverse.Ledger.Requests.Deciding.{new_intent}

-- `if existing is not None`
unfoldable pub existing_or :
    Option ProgressIntent → Tx (Option ProgressIntent) → Tx (Option ProgressIntent)
existing_or (some i) rest = pure (some i)
existing_or none rest = rest

unfoldable pub ensure_human_progress_intent : ℕ → ℕ → ℕ → Tx (Option ProgressIntent)
unfolding existing_or require_request
ensure_human_progress_intent now new k = do
  existing ← gets (intent_on k)
  existing_or existing do
    q ← require_request k
    found ← gets (decision_on k)
    d ← or_raise (Error.conflict Conflict.decision_missing) found
    insert_intent (new_intent now new q d.id)
    gets (intent_of new)

-- The wait for the progress of the request, if there is an intent.
unfoldable pub complete_progress_wait : ℕ → ℕ → Option ProgressIntent → Tx (Unit {0})
complete_progress_wait now k none = pure tt
complete_progress_wait now k (some i) = do
  update_waits
      (λ w.
        w.run_id == i.run_id
        && key_eq w.wait_key (WaitKey.human_progress k)
        && WaitStatus.is_open w.status)
      (λ w. record w { status = WaitStatus.completed; updated_at = now })
  pure tt

unfoldable pub complete_human_progress_intent : ℕ → ℕ → Tx (Unit {0})
unfolding complete_progress_wait
complete_human_progress_intent now k = do
  intent ← gets (intent_on k)
  update_intents (λ i. i.request_id == k && IntentStatus.is_pending i.status)
      (λ i. record i { status = IntentStatus.completed; updated_at = now })
  complete_progress_wait now k intent
