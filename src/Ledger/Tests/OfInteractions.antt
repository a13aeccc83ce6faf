-- ===== src/Ledger/Tests/OfInteractions.antt =====
-- Theorems and tests on interactions: interaction 75 of attempt 6, its reply and its expiry.
use multiverse.Base.{ℕ, String, true, false, some, List, [], ◌∷◌, ◌≡◌, refl, count_where}
use multiverse.Ledger.Status.AttemptStatus.{AttemptStatus}
use multiverse.Ledger.Status.InteractionStatus.{InteractionStatus}
use multiverse.Ledger.Schema.{Interaction}
use multiverse.Ledger.Tx.Monad.{Result, Error, Conflict, ok, err, conflict, ◌>>=◌}
use multiverse.Ledger.Tx.Database.{Db, empty, event, max_seq}
use multiverse.Ledger.Tx.Dialogue.{update_interactions, insert_interaction_or_nothing}
use multiverse.Ledger.Interactions.{
  interaction_of, new_interaction, create_codex_interaction, expired,
}
use multiverse.Ledger.Interactions.Replying.{respond_codex_interaction, replied}
use multiverse.Ledger.Interactions.Expiry.{expire_codex_interactions, is_due}
use multiverse.Ledger.Interactions.Reply.{Open}
use multiverse.Ledger.Interactions.Once.{respond_codex_interaction-once, repeats}
use multiverse.Ledger.Interactions.Due.{expire_codex_interactions-clears}
use multiverse.Ledger.Tests.Samples.{same_digest, value_or}
use multiverse.Ledger.Tests.OfAttempts.{small}

abbrev start : Db
start = small AttemptStatus.running

abbrev interaction : Interaction
interaction = new_interaction 20 75 1 2 5 6 85 86 87 88 89 ("ada" ∷ []) 50

abbrev asked : Db
asked = record start { dialogue = record empty.dialogue { interactions = interaction ∷ [] } }

creates :
    (t : Db) × (create_codex_interaction 20 interaction start ≡ ok (some interaction, t))
    × (t.dialogue ≡ asked.dialogue)
unfolding create_codex_interaction insert_interaction_or_nothing event max_seq ◌>>=◌
creates = (_, refl, refl)

abbrev key_text : ℕ → String → ℕ → ℕ
key_text namespace actor key = key

abbrev answered : Result Interaction × Db
answered = respond_codex_interaction same_digest key_text 30 75 1 "ada" 92 93 asked

abbrev answer : Interaction
answer = replied 30 92 92 "ada" 93 interaction

answers : answered ≡ (ok answer, answered.1)
unfolding respond_codex_interaction update_interactions event max_seq ◌>>=◌
answers = refl

-- A reply that comes too late is refused, and the interaction is stored as expired.
late :
    (respond_codex_interaction same_digest key_text 50 75 1 "ada" 92 93 asked).0
    ≡ err (conflict Conflict.interaction_expired)
unfolding respond_codex_interaction update_interactions event max_seq ◌>>=◌
late = refl

late_stored :
    interaction_of 75 (respond_codex_interaction same_digest key_text 50 75 1 "ada" 92 93 asked).1
    ≡ some (expired 50 interaction)
unfolding respond_codex_interaction update_interactions event max_seq ◌>>=◌
late_stored = refl

respond_codex_interaction-once_example :
    Open 30 1 "ada" interaction
    × (answer ≡ replied 30 92 92 "ada" 93 interaction)
    × (answer.status ≡ InteractionStatus.replied)
    × (answer.version ≡ 2)
    × (answer.response ≡ some 92)
    × (answer.response_digest ≡ some 92)
    × (answer.idempotency_key ≡ some 93)
    × (answer.actor ≡ some "ada")
    × (interaction_of 75 answered.1 ≡ some answer)
    × ((now' expected' : ℕ) (actor' : String) (response' key' : ℕ)
        → repeats same_digest key_text 7 answer actor' response' key' ≡ true
        → respond_codex_interaction same_digest key_text now' 75 expected' actor' response' key'
            answered.1
          ≡ (ok answer, answered.1))
    × ((now' expected' : ℕ) (actor' : String) (response' key' : ℕ)
        → repeats same_digest key_text 7 answer actor' response' key' ≡ false
        → (e : Error) × (respond_codex_interaction same_digest key_text now' 75 expected' actor'
              response' key' answered.1
            ≡ (err e, answered.1)))
respond_codex_interaction-once_example =
    respond_codex_interaction-once same_digest key_text 30 75 1 "ada" 92 93 asked interaction _
      answer answered.1 refl refl refl answers

abbrev swept : List ℕ × Db
swept = value_or ([], asked) (expire_codex_interactions 60 asked)

sweeps : expire_codex_interactions 60 asked ≡ ok swept
unfolding expire_codex_interactions update_interactions event max_seq ◌>>=◌
sweeps = refl

expire_codex_interactions-clears_example : count_where (is_due 60) swept.1.dialogue.interactions ≡ 0
expire_codex_interactions-clears_example = expire_codex_interactions-clears 60 asked swept sweeps
