-- ===== src/Ledger/Interactions/Expiry.antt =====
-- runtime/ledger.py: expire_codex_interactions, invalidate_codex_interactions_for_attempt and
-- list_codex_interactions. The loops run over the rows that the query has found before.
use multiverse.Base.{
  ℕ, Bool, true, ◌&&◌, ◌||◌, Option, none, some, List, [], ◌∷◌, ◌==◌, leb, ltb, select_all,
  exists_where, if◌then◌else◌,
}
use multiverse.Ledger.Status.InteractionStatus
use multiverse.Ledger.Status.InteractionStatus.{InteractionStatus}
use multiverse.Ledger.Status.DeliveryStatus
use multiverse.Ledger.Schema.{Run, EventPayload, Interaction}
use multiverse.Ledger.Tx.Monad.{pure, gets, ◌>>=◌, ◌>>◌}
use multiverse.Ledger.Tx.Database.{Db, Tx}
use multiverse.Ledger.Tx.Dialogue.{update_interactions}
use multiverse.Ledger.Interactions.{report, expired, invalidated}

-- `ORDER BY expires_at, id` and `ORDER BY created_at, id`
unfoldable pub insert_by : (Interaction → ℕ) → Interaction → List Interaction → List Interaction
insert_by time i [] = i ∷ []
insert_by time i (j ∷ js) =
    if ltb (time i) (time j) || time i == time j && leb i.id j.id
    then i ∷ j ∷ js
    else j ∷ insert_by time i js

unfoldable pub order_by : (Interaction → ℕ) → List Interaction → List Interaction
unfolding insert_by
order_by time [] = []
order_by time (i ∷ is) = insert_by time i (order_by time is)

-- `status = 'pending' AND expires_at <= ?`
abbrev pub is_due : ℕ → Interaction → Bool
is_due now i = InteractionStatus.is_pending i.status && leb i.expires_at now

unfoldable pub expire_rows : ℕ → List Interaction → Tx (List ℕ)
expire_rows now [] = pure []
expire_rows now (row ∷ rows) = do
  update_interactions (λ i. i.id == row.id && InteractionStatus.is_pending i.status) (expired now)
  report now row (EventPayload.interaction_expired row.id)
  rest ← expire_rows now rows
  pure (row.id ∷ rest)

unfoldable pub expire_codex_interactions : ℕ → Tx (List ℕ)
unfolding expire_rows order_by
expire_codex_interactions now = do
  rows ← gets (λ s. order_by (λ i. i.expires_at) (select_all (is_due now) s.dialogue.interactions))
  expire_rows now rows

-- `status = 'pending' OR (status = 'replied' AND delivery_status IN ('pending', 'sent'))`
abbrev pub is_unfinished : Interaction → Bool
is_unfinished i =
    InteractionStatus.is_pending i.status
    || InteractionStatus.is_replied i.status && DeliveryStatus.is_under_way i.delivery_status

unfoldable pub invalidate_rows : ℕ → ℕ → List Interaction → Tx (List ℕ)
invalidate_rows now reason [] = pure []
invalidate_rows now reason (row ∷ rows) = do
  update_interactions (λ i. i.id == row.id) (invalidated now reason)
  report now row (EventPayload.interaction_invalid row.id reason)
  rest ← invalidate_rows now reason rows
  pure (row.id ∷ rest)

unfoldable pub invalidate_codex_interactions_for_attempt : ℕ → ℕ → ℕ → Tx (List ℕ)
unfolding invalidate_rows
invalidate_codex_interactions_for_attempt now attempt reason = do
  rows ←
      gets
        (λ s. select_all (λ i. i.attempt_id == attempt && is_unfinished i) s.dialogue.interactions)
  invalidate_rows now reason rows

-- The three filters of `list_codex_interactions`.
abbrev pub is_asked : Db → Option ℕ → Option InteractionStatus → Option ℕ → Interaction → Bool
is_asked s run status namespace i =
    elim run [ none ↦ true | some k ↦ i.run_id == k ]
    && elim status [ none ↦ true | some st ↦ InteractionStatus.same i.status st ]
    && elim namespace [
      | none ↦ true
      | some ns ↦ exists_where (λ (r : Run). r.id == i.run_id && r.namespace == ns) s.runs
    ]

unfoldable pub list_codex_interactions :
    Option ℕ → Option InteractionStatus → Option ℕ → Tx (List Interaction)
unfolding order_by
list_codex_interactions run status namespace = gets (λ s.
    order_by (λ i. i.created_at)
      (select_all (is_asked s run status namespace) s.dialogue.interactions))
