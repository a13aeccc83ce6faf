-- ===== src/Ledger/Evolution/Rules/DialogueInserts.antt =====
-- The rules for the inserts into the tables of dialogue.
use multiverse.Base.{
  ◌≡◌, refl, [], ◌∷◌, ◌++◌, arith, Grows-append, Distinct-append, exists_where, Bool-cases, inl,
  inr,
}
use multiverse.Ledger.Schema.{HumanRequest, HumanDecision, ProgressIntent, TurnLease, Interaction}
use multiverse.Ledger.Tx.Monad.{◌>>=◌}
use multiverse.Ledger.Tx.Database.{Db, Tx}
use multiverse.Ledger.Tx.Dialogue.{
  with_dialogue, insert_request, insert_decision, insert_intent, insert_lease, insert_interaction,
  insert_interaction_or_nothing, same_request,
}
use multiverse.Ledger.Dialogue.{
  RequestMoves, IntentMoves, LeaseMoves, InteractionMoves, RequestMoves-refl, IntentMoves-refl,
  LeaseMoves-refl, InteractionMoves-refl,
}
use multiverse.Ledger.Evolution.Rules.DialogueTables.{
  requests-kept, decisions-kept, intents-kept, leases-kept, interactions-kept,
}
use multiverse.Ledger.Evolution.{Keeps}
use multiverse.Ledger.Evolution.Rules.Dialogue.{insert_step}

module _ {A : Type 0} (s : Db) where
  pub Keeps-insert_request :
      (x : HumanRequest) (g : Unit {0} → Tx A)
      → Keeps
          (g tt)
          (with_dialogue (record s.dialogue { requests = s.dialogue.requests ++ x ∷ [] }) s)
      → Keeps (insert_request x >>= g) s
  unfolding insert_request
  Keeps-insert_request x g k =
      insert_step s (insert_request x) g _ _ refl
        (λ allowed v.
          requests-kept s.dialogue _ v
            (Distinct-append (λ (r : HumanRequest). r.id) s.dialogue.requests x v.request_ids
              (ground arith))
            (Grows-append RequestMoves RequestMoves-refl s.dialogue.requests (x ∷ [])))
        (λ _. k)

  pub Keeps-insert_decision :
      (x : HumanDecision) (g : Unit {0} → Tx A)
      → Keeps
          (g tt)
          (with_dialogue (record s.dialogue { decisions = s.dialogue.decisions ++ x ∷ [] }) s)
      → Keeps (insert_decision x >>= g) s
  unfolding insert_decision
  Keeps-insert_decision x g k =
      insert_step s (insert_decision x) g _ _ refl
        (λ allowed v. decisions-kept s.dialogue _ v (
          Grows-append (λ (e e' : HumanDecision). e' ≡ e) (λ e. refl) s.dialogue.decisions
            (x ∷ [])))
        (λ _. k)

  pub Keeps-insert_intent :
      (x : ProgressIntent) (g : Unit {0} → Tx A)
      → Keeps
          (g tt)
          (with_dialogue (record s.dialogue { intents = s.dialogue.intents ++ x ∷ [] }) s)
      → Keeps (insert_intent x >>= g) s
  unfolding insert_intent
  Keeps-insert_intent x g k =
      insert_step s (insert_intent x) g _ _ refl
        (λ allowed v.
          intents-kept s.dialogue _ v
            (Grows-append IntentMoves IntentMoves-refl s.dialogue.intents (x ∷ [])))
        (λ _. k)

  pub Keeps-insert_lease :
      (x : TurnLease) (g : Unit {0} → Tx A)
      → Keeps (g tt) (with_dialogue (record s.dialogue { leases = s.dialogue.leases ++ x ∷ [] }) s)
      → Keeps (insert_lease x >>= g) s
  unfolding insert_lease
  Keeps-insert_lease x g k =
      insert_step s (insert_lease x) g _ _ refl
        (λ allowed v.
          leases-kept s.dialogue _ v
            (Distinct-append (λ (r : TurnLease). r.id) s.dialogue.leases x v.lease_ids
              (ground arith))
            (Grows-append LeaseMoves LeaseMoves-refl s.dialogue.leases (x ∷ [])))
        (λ _. k)

  pub Keeps-insert_interaction :
      (x : Interaction) (g : Unit {0} → Tx A)
      → Keeps
          (g tt)
          (with_dialogue (record s.dialogue { interactions = s.dialogue.interactions ++ x ∷ [] }) s)
      → Keeps (insert_interaction x >>= g) s
  unfolding insert_interaction
  Keeps-insert_interaction x g k =
      insert_step s (insert_interaction x) g _ _ refl
        (λ allowed v.
          interactions-kept s.dialogue _ v
            (Distinct-append (λ (r : Interaction). r.id) s.dialogue.interactions x v.interaction_ids
              (ground arith))
            (Grows-append InteractionMoves InteractionMoves-refl s.dialogue.interactions (x ∷ [])))
        (λ _. k)

  pub Keeps-insert_interaction_or_nothing :
      (x : Interaction) (g : Unit {0} → Tx A)
      → ((t : Db) → Keeps (g tt) t)
      → Keeps (insert_interaction_or_nothing x >>= g) s
  unfolding insert_interaction_or_nothing ◌>>=◌
  Keeps-insert_interaction_or_nothing x g k =
      elim (Bool-cases (exists_where (same_request x) s.dialogue.interactions)) [
        | inl old ↦ record {
          at = λ v a u r. (k s).at v a u (rw (old, insert_interaction_or_nothing, ◌>>=◌) at r);
        }
        | inr new ↦ record {
          at = λ v a u r.
              (Keeps-insert_interaction x g (k _)).at v a u
                (rw (new, insert_interaction_or_nothing, ◌>>=◌) at r);
        }
      ]
