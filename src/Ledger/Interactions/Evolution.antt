-- ===== src/Ledger/Interactions/Evolution.antt =====
-- The methods on interactions keep the ledger valid and move it as promised.
use multiverse.Base.{ℕ, String, ◌≡◌, refl, true, Option, some, List, [], ◌∷◌, arith}
use multiverse.Ledger.Status.InteractionStatus
use multiverse.Ledger.Schema.{Interaction}
use multiverse.Ledger.Tx.Database.{Db}
use multiverse.Ledger.Dialogue.{InteractionMoves}
use multiverse.Ledger.Evolution.{Keeps}
use multiverse.Ledger.Evolution.Rules.{
  Keeps-pure, Keeps-gets, Keeps-branch, Keeps-raise_if, Keeps-or_raise, Keeps-read, Keeps-bind,
  Keeps-event, Keeps-update_interactions, Keeps-update_interaction_row,
  Keeps-insert_interaction_or_nothing,
}
use multiverse.Ledger.Interactions.{
  interaction_of, settle_creation, create_codex_interaction, confirm_codex_interaction_delivery,
  invalidate_codex_interaction, invalidated, expired, sent,
}
use multiverse.Ledger.Interactions.Replying.{reply_now, respond_tx}
use multiverse.Ledger.Interactions.Expiry.{
  expire_rows, expire_codex_interactions, invalidate_rows,
  invalidate_codex_interactions_for_attempt,
}

settle_creation-Keeps :
    (s : Db) (now : ℕ) (i : Interaction) (o : Option Interaction)
    → Keeps (settle_creation now i o) s
unfolding settle_creation
settle_creation-Keeps s now i o = Keeps-or_raise s _ _ _ λ x _. Keeps-raise_if s _ _ _ λ _.
    Keeps-branch s _ _ _ (λ _. Keeps-gets s _)
      (λ _. Keeps-event _ _ _ _ _ _ _ _ λ e. Keeps-gets _ _)

pub create_codex_interaction-Keeps :
    (s : Db) (now : ℕ) (i : Interaction) → Keeps (create_codex_interaction now i) s
unfolding create_codex_interaction
create_codex_interaction-Keeps s now i = Keeps-raise_if s _ _ _ λ _. Keeps-read s _ _ (
    Keeps-or_raise s _ _ _ λ c _. Keeps-read s _ _ (
      Keeps-or_raise s _ _ _ λ v _. Keeps-read s _ _ (
        Keeps-or_raise s _ _ _ λ a _.
          Keeps-insert_interaction_or_nothing s _ _
            λ t. Keeps-read t _ _ (settle_creation-Keeps t now i _))))

sent-Moves : (now : ℕ) (i : Interaction) → InteractionMoves i (sent now i)
sent-Moves now i = ground arith

invalidated-Moves :
    (now reason : ℕ) (i : Interaction) → InteractionMoves i (invalidated now reason i)
invalidated-Moves now reason i = ground arith

pub expired-Moves :
    (now : ℕ) (i : Interaction)
    → InteractionStatus.is_pending i.status ≡ true
    → InteractionMoves i (expired now i)
expired-Moves now i h = ground arith

pub confirm_codex_interaction_delivery-Keeps :
    (s : Db) (now k : ℕ) → Keeps (confirm_codex_interaction_delivery now k) s
unfolding confirm_codex_interaction_delivery
confirm_codex_interaction_delivery-Keeps s now k = Keeps-read s _ _ (
    Keeps-or_raise s _ _ _ λ row _. Keeps-raise_if s _ _ _ λ _.
      Keeps-branch s _ _ _ (λ _. Keeps-pure s _)
        (λ _.
          Keeps-update_interactions s _ _ _ (λ i e. sent-Moves now i)
            (Keeps-event _ _ _ _ _ _ _ _ λ e. Keeps-gets _ _)))

pub invalidate_codex_interaction-Keeps :
    (s : Db) (now k reason : ℕ) → Keeps (invalidate_codex_interaction now k reason) s
unfolding invalidate_codex_interaction
invalidate_codex_interaction-Keeps s now k reason = Keeps-read s _ _ (
    Keeps-or_raise s _ _ _ λ row _.
      Keeps-branch s _ _ _ (λ _. Keeps-pure s _)
        (λ _.
          Keeps-update_interactions s _ _ _ (λ i e. invalidated-Moves now reason i)
            (Keeps-event _ _ _ _ _ _ _ _ λ e. Keeps-gets _ _)))

reply_now-Keeps :
    (s : Db) (now : ℕ) (row : Interaction) (k expected : ℕ) (actor : String)
    (response digest key : ℕ)
    → interaction_of k s ≡ some row
    → Keeps (reply_now now row k expected actor response digest key) s
unfolding reply_now
reply_now-Keeps s now row k expected actor response digest key found = Keeps-read s _ _ (
    Keeps-raise_if s _ _ _ λ _. Keeps-raise_if s _ _ _ λ _. Keeps-raise_if s _ _ _ λ open_one.
      Keeps-raise_if s _ _ _ λ _.
        Keeps-branch s _ _ _
          (λ _.
            Keeps-update_interactions s _ _ _ (λ i e. expired-Moves now i (ground arith))
              (Keeps-event _ _ _ _ _ _ _ _ λ e. Keeps-pure _ _))
          (λ _.
            Keeps-update_interaction_row s k row _ _ found (λ i. refl) (ground (arith, open_one))
              (Keeps-event _ _ _ _ _ _ _ _ λ e. Keeps-gets _ _)))

pub respond_tx-Keeps :
    (s : Db) (digest : ℕ → ℕ) (scoped : ℕ → String → ℕ → ℕ) (now k expected : ℕ) (actor : String)
    (response key : ℕ)
    → Keeps (respond_tx digest scoped now k expected actor response key) s
unfolding respond_tx
respond_tx-Keeps s digest scoped now k expected actor response key = Keeps-read s _ _ (
    Keeps-or_raise s _ _ _ λ row found. Keeps-read s _ _ (
      Keeps-or_raise s _ _ _ λ run _.
        Keeps-branch s _ _ _ (λ _. Keeps-raise_if s _ _ _ λ _. Keeps-pure s _)
          (λ _. reply_now-Keeps s now row k expected actor response _ _ found)))

expire_rows-Keeps : (rows : List Interaction) (s : Db) (now : ℕ) → Keeps (expire_rows now rows) s
unfolding expire_rows
expire_rows-Keeps [] s now = Keeps-pure s _
expire_rows-Keeps (row ∷ rows) s now =
    Keeps-update_interactions s _ _ _ (λ i e. expired-Moves now i (ground arith))
      (Keeps-event _ _ _ _ _ _ _ _
        λ e. Keeps-bind _ _ _ (expire_rows-Keeps rows _ now) λ _ t _. Keeps-pure t _)

pub expire_codex_interactions-Keeps : (s : Db) (now : ℕ) → Keeps (expire_codex_interactions now) s
unfolding expire_codex_interactions
expire_codex_interactions-Keeps s now = Keeps-read s _ _ (expire_rows-Keeps _ s now)

invalidate_rows-Keeps :
    (rows : List Interaction) (s : Db) (now reason : ℕ) → Keeps (invalidate_rows now reason rows) s
unfolding invalidate_rows
invalidate_rows-Keeps [] s now reason = Keeps-pure s _
invalidate_rows-Keeps (row ∷ rows) s now reason =
    Keeps-update_interactions s _ _ _ (λ i e. invalidated-Moves now reason i)
      (Keeps-event _ _ _ _ _ _ _ _
        λ e. Keeps-bind _ _ _ (invalidate_rows-Keeps rows _ now reason) λ _ t _. Keeps-pure t _)

pub invalidate_codex_interactions_for_attempt-Keeps :
    (s : Db) (now attempt reason : ℕ)
    → Keeps (invalidate_codex_interactions_for_attempt now attempt reason) s
unfolding invalidate_codex_interactions_for_attempt
invalidate_codex_interactions_for_attempt-Keeps s now attempt reason =
    Keeps-read s _ _ (invalidate_rows-Keeps _ s now reason)
