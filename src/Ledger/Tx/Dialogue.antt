-- ===== src/Ledger/Tx/Dialogue.antt =====
-- The SQL statements on human_requests, human_decisions, human_progress_intents,
-- native_session_turn_leases and codex_interactions, with the clauses of runtime/ledger.py,
-- `_initialize`.
use multiverse.Base.{
  ℕ, Bool, not, ◌&&◌, ◌||◌, ◌∷◌, [], ◌++◌, ◌==◌, update_where, count_where, exists_where,
  if◌then◌else◌,
}
use multiverse.Ledger.Schema.{HumanRequest, HumanDecision, ProgressIntent, TurnLease, Interaction}
use multiverse.Ledger.Tx.Monad.{ok}
use multiverse.Ledger.Tx.Database.{
  Db, Dialogue, Tx, insert_if, has_run, has_scope, has_invocation, has_attempt,
}

-- The database with other tables of dialogue.
abbrev pub with_dialogue : Dialogue → Db → Db
with_dialogue d s = record s { dialogue = d }

abbrev pub has_request : Db → ℕ → Bool
has_request s k = exists_where (λ r. r.id == k) s.dialogue.requests

abbrev pub has_decision : Db → ℕ → Bool
has_decision s k = exists_where (λ r. r.id == k) s.dialogue.decisions

unfoldable pub update_requests : (HumanRequest → Bool) → (HumanRequest → HumanRequest) → Tx ℕ
update_requests p f s = ok (
  count_where p s.dialogue.requests,
  with_dialogue (record s.dialogue { requests = update_where p f s.dialogue.requests }) s,
)

unfoldable pub update_intents : (ProgressIntent → Bool) → (ProgressIntent → ProgressIntent) → Tx ℕ
update_intents p f s = ok (
  count_where p s.dialogue.intents,
  with_dialogue (record s.dialogue { intents = update_where p f s.dialogue.intents }) s,
)

unfoldable pub update_leases : (TurnLease → Bool) → (TurnLease → TurnLease) → Tx ℕ
update_leases p f s = ok (
  count_where p s.dialogue.leases,
  with_dialogue (record s.dialogue { leases = update_where p f s.dialogue.leases }) s,
)

unfoldable pub update_interactions : (Interaction → Bool) → (Interaction → Interaction) → Tx ℕ
update_interactions p f s = ok (
  count_where p s.dialogue.interactions,
  with_dialogue (record s.dialogue { interactions = update_where p f s.dialogue.interactions }) s,
)

unfoldable pub insert_request : HumanRequest → Tx (Unit {0})
insert_request r s =
    insert_if
      (not (has_request s r.id)
        && has_run s r.run_id
        && has_scope s r.scope_id
        && has_invocation s r.invocation_id)
      (with_dialogue (record s.dialogue { requests = s.dialogue.requests ++ r ∷ [] }) s) s

-- The rows that the PRIMARY KEY and the two UNIQUE columns allow only once.
abbrev pub same_decision : HumanDecision → HumanDecision → Bool
same_decision d o =
    o.request_id == d.request_id || o.id == d.id || o.idempotency_key == d.idempotency_key

unfoldable pub insert_decision : HumanDecision → Tx (Unit {0})
insert_decision d s =
    insert_if
      (not (exists_where (same_decision d) s.dialogue.decisions) && has_request s d.request_id)
      (with_dialogue (record s.dialogue { decisions = s.dialogue.decisions ++ d ∷ [] }) s) s

abbrev pub same_intent : ProgressIntent → ProgressIntent → Bool
same_intent i o = o.id == i.id || o.request_id == i.request_id || o.decision_id == i.decision_id

unfoldable pub insert_intent : ProgressIntent → Tx (Unit {0})
insert_intent i s =
    insert_if
      (not (exists_where (same_intent i) s.dialogue.intents)
        && has_request s i.request_id
        && has_run s i.run_id
        && has_scope s i.scope_id
        && has_invocation s i.invocation_id
        && has_decision s i.decision_id)
      (with_dialogue (record s.dialogue { intents = s.dialogue.intents ++ i ∷ [] }) s) s

unfoldable pub insert_lease : TurnLease → Tx (Unit {0})
insert_lease l s =
    insert_if (not (exists_where (λ (o : TurnLease). o.id == l.id) s.dialogue.leases))
      (with_dialogue (record s.dialogue { leases = s.dialogue.leases ++ l ∷ [] }) s) s

-- UNIQUE(attempt_id, native_request_id)
abbrev pub same_request : Interaction → Interaction → Bool
same_request i o = o.attempt_id == i.attempt_id && o.native_request_id == i.native_request_id

unfoldable pub insert_interaction : Interaction → Tx (Unit {0})
insert_interaction i s =
    insert_if
      (not (exists_where (λ (o : Interaction). o.id == i.id) s.dialogue.interactions)
        && has_run s i.run_id
        && has_scope s i.scope_id
        && has_invocation s i.invocation_id
        && has_attempt s i.attempt_id)
      (with_dialogue (record s.dialogue { interactions = s.dialogue.interactions ++ i ∷ [] }) s) s

-- `INSERT ... ON CONFLICT(attempt_id, native_request_id) DO NOTHING`. A new row has no idempotency
-- key, so that the UNIQUE clause of that column does not matter here.
unfoldable pub insert_interaction_or_nothing : Interaction → Tx (Unit {0})
unfolding insert_interaction
insert_interaction_or_nothing i s =
    if exists_where (same_request i) s.dialogue.interactions
    then ok (tt, s)
    else insert_interaction i s
