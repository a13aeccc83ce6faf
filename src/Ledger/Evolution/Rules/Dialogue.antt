-- ===== src/Ledger/Evolution/Rules/Dialogue.antt =====
-- The rules for the statements on the tables of dialogue.
use multiverse.Base.{
  ℕ, ◌≡◌, refl, Bool, true, false, ◌&&◌, some, ◌==◌, arith, Grows-update, Grows-update_key,
  Grows-update_guarded, Distinct-update, select, count_where, update_where, if◌then◌else◌,
}
use multiverse.Ledger.Schema.{HumanRequest, ProgressIntent, TurnLease, Interaction}
use multiverse.Ledger.Tx.Monad.{ok, err, Error, ◌>>=◌}
use multiverse.Ledger.Tx.Database.{Db, Dialogue, Tx}
use multiverse.Ledger.Tx.Dialogue.{
  with_dialogue, update_requests, update_intents, update_leases, update_interactions,
}
use multiverse.Ledger.Dialogue.{
  RequestMoves, IntentMoves, LeaseMoves, InteractionMoves, DialogueEvolves, DialogueIsValid,
  RequestMoves-refl, IntentMoves-refl, LeaseMoves-refl, InteractionMoves-refl,
}
use multiverse.Ledger.Evolution.Rules.DialogueTables.{
  requests-kept, intents-kept, leases-kept, interactions-kept,
}
use multiverse.Ledger.Evolution.{Evolves, IsValid, Keeps}
use multiverse.Ledger.Evolution.Rules.DeliveryTables.{dialogue-kept}
use multiverse.Ledger.Evolution.Rules.Steps.{Keeps-then}

module _ (s : Db) where
  -- What a step on the tables of dialogue must show.
  abbrev pub Steps : Dialogue → Type 0
  Steps d = DialogueIsValid s.dialogue → DialogueIsValid d × DialogueEvolves s.dialogue d

  lift_step :
      (d : Dialogue)
      → Steps d
      → IsValid s
      → IsValid (with_dialogue d s) × Evolves s (with_dialogue d s)
  lift_step d h v = let (valid, moves) = h v.dialogue in dialogue-kept s d v valid moves

  pub insert_step :
      {A : Type 0} (m : Tx (Unit {0})) (f : Unit {0} → Tx A) (allowed : Bool) (d : Dialogue)
      → m s ≡ (if allowed then ok (tt, with_dialogue d s) else err Error.integrity)
      → (allowed ≡ true → Steps d)
      → (allowed ≡ true → Keeps (f tt) (with_dialogue d s))
      → Keeps (m >>= f) s
  unfolding ◌>>=◌
  insert_step m f true d e h k =
      Keeps-then s m f tt (with_dialogue d s) e (lift_step d (h refl)) (k refl)
  insert_step m f false d e h k = record { at = λ v a u r. absurd (ground arith) }

module _ {A : Type 0} (s : Db) where
  pub Keeps-update_requests :
      (p : HumanRequest → Bool) (f : HumanRequest → HumanRequest) (g : ℕ → Tx A)
      → ((r : HumanRequest) → p r ≡ true → RequestMoves r (f r))
      → Keeps
          (g (count_where p s.dialogue.requests))
          (with_dialogue (record s.dialogue { requests = update_where p f s.dialogue.requests }) s)
      → Keeps (update_requests p f >>= g) s
  unfolding update_requests
  Keeps-update_requests p f g h k =
      Keeps-then s (update_requests p f) g _ _ refl
        (lift_step s _ λ v.
          requests-kept s.dialogue _ v
            (Distinct-update (λ (r : HumanRequest). r.id) p f (λ r e. (h r e).same_id)
              s.dialogue.requests v.request_ids)
            (Grows-update RequestMoves RequestMoves-refl p f h s.dialogue.requests))
        k

  -- The row that the method has read before.
  pub Keeps-update_request_row :
      (i : ℕ) (x : HumanRequest) (f : HumanRequest → HumanRequest) (g : ℕ → Tx A)
      → select (λ (r : HumanRequest). r.id == i) s.dialogue.requests ≡ some x
      → ((r : HumanRequest) → (f r).id ≡ r.id)
      → RequestMoves x (f x)
      → Keeps (g (count_where (λ r. r.id == i) s.dialogue.requests)) (
          with_dialogue
            (record s.dialogue { requests = update_where (λ r. r.id == i) f s.dialogue.requests })
            s)
      → Keeps (update_requests (λ r. r.id == i) f >>= g) s
  unfolding update_requests
  Keeps-update_request_row i x f g found same h k =
      Keeps-then s (update_requests (λ r. r.id == i) f) g _ _ refl
        (lift_step s _ λ v.
          requests-kept s.dialogue _ v
            (Distinct-update (λ (r : HumanRequest). r.id) (λ r. r.id == i) f (λ r _. same r)
              s.dialogue.requests v.request_ids)
            (Grows-update_key (λ (r : HumanRequest). r.id) RequestMoves RequestMoves-refl i f
              s.dialogue.requests x v.request_ids found h))
        k

  pub Keeps-update_intents :
      (p : ProgressIntent → Bool) (f : ProgressIntent → ProgressIntent) (g : ℕ → Tx A)
      → ((r : ProgressIntent) → p r ≡ true → IntentMoves r (f r))
      → Keeps
          (g (count_where p s.dialogue.intents))
          (with_dialogue (record s.dialogue { intents = update_where p f s.dialogue.intents }) s)
      → Keeps (update_intents p f >>= g) s
  unfolding update_intents
  Keeps-update_intents p f g h k =
      Keeps-then s (update_intents p f) g _ _ refl
        (lift_step s _ λ v.
          intents-kept s.dialogue _ v
            (Grows-update IntentMoves IntentMoves-refl p f h s.dialogue.intents))
        k

  pub Keeps-update_leases :
      (p : TurnLease → Bool) (f : TurnLease → TurnLease) (g : ℕ → Tx A)
      → ((r : TurnLease) → p r ≡ true → LeaseMoves r (f r))
      → Keeps
          (g (count_where p s.dialogue.leases))
          (with_dialogue (record s.dialogue { leases = update_where p f s.dialogue.leases }) s)
      → Keeps (update_leases p f >>= g) s
  unfolding update_leases
  Keeps-update_leases p f g h k =
      Keeps-then s (update_leases p f) g _ _ refl
        (lift_step s _ λ v.
          leases-kept s.dialogue _ v
            (Distinct-update (λ (r : TurnLease). r.id) p f (λ r e. (h r e).same_id)
              s.dialogue.leases v.lease_ids)
            (Grows-update LeaseMoves LeaseMoves-refl p f h s.dialogue.leases))
        k

  -- The row that the method has read before.
  pub Keeps-update_lease_row :
      (i : ℕ) (x : TurnLease) (f : TurnLease → TurnLease) (g : ℕ → Tx A)
      → select (λ (r : TurnLease). r.id == i) s.dialogue.leases ≡ some x
      → ((r : TurnLease) → (f r).id ≡ r.id)
      → LeaseMoves x (f x)
      → Keeps (g (count_where (λ r. r.id == i) s.dialogue.leases)) (
          with_dialogue
            (record s.dialogue { leases = update_where (λ r. r.id == i) f s.dialogue.leases })
            s)
      → Keeps (update_leases (λ r. r.id == i) f >>= g) s
  unfolding update_leases
  Keeps-update_lease_row i x f g found same h k =
      Keeps-then s (update_leases (λ r. r.id == i) f) g _ _ refl
        (lift_step s _ λ v.
          leases-kept s.dialogue _ v
            (Distinct-update (λ (r : TurnLease). r.id) (λ r. r.id == i) f (λ r _. same r)
              s.dialogue.leases v.lease_ids)
            (Grows-update_key (λ (r : TurnLease). r.id) LeaseMoves LeaseMoves-refl i f
              s.dialogue.leases x v.lease_ids found h))
        k

  pub Keeps-update_interactions :
      (p : Interaction → Bool) (f : Interaction → Interaction) (g : ℕ → Tx A)
      → ((r : Interaction) → p r ≡ true → InteractionMoves r (f r))
      → Keeps (g (count_where p s.dialogue.interactions)) (
          with_dialogue
            (record s.dialogue { interactions = update_where p f s.dialogue.interactions })
            s)
      → Keeps (update_interactions p f >>= g) s
  unfolding update_interactions
  Keeps-update_interactions p f g h k =
      Keeps-then s (update_interactions p f) g _ _ refl
        (lift_step s _ λ v.
          interactions-kept s.dialogue _ v
            (Distinct-update (λ (r : Interaction). r.id) p f (λ r e. (h r e).same_id)
              s.dialogue.interactions v.interaction_ids)
            (Grows-update InteractionMoves InteractionMoves-refl p f h s.dialogue.interactions))
        k

  -- The row that the method has read before.
  pub Keeps-update_interaction_row :
      (i : ℕ) (x : Interaction) (f : Interaction → Interaction) (g : ℕ → Tx A)
      → select (λ (r : Interaction). r.id == i) s.dialogue.interactions ≡ some x
      → ((r : Interaction) → (f r).id ≡ r.id)
      → InteractionMoves x (f x)
      → Keeps (g (count_where (λ r. r.id == i) s.dialogue.interactions)) (
          with_dialogue
            (record s.dialogue {
              interactions = update_where (λ r. r.id == i) f s.dialogue.interactions;
            })
            s)
      → Keeps (update_interactions (λ r. r.id == i) f >>= g) s
  unfolding update_interactions
  Keeps-update_interaction_row i x f g found same h k =
      Keeps-then s (update_interactions (λ r. r.id == i) f) g _ _ refl
        (lift_step s _ λ v.
          interactions-kept s.dialogue _ v
            (Distinct-update (λ (r : Interaction). r.id) (λ r. r.id == i) f (λ r _. same r)
              s.dialogue.interactions v.interaction_ids)
            (Grows-update_key (λ (r : Interaction). r.id) InteractionMoves InteractionMoves-refl i f
              s.dialogue.interactions x v.interaction_ids found h))
        k

  -- The row that the method has read before, where a further test decides.
  pub Keeps-update_lease_guarded :
      (i : ℕ) (p : TurnLease → Bool) (x : TurnLease) (f : TurnLease → TurnLease) (g : ℕ → Tx A)
      → select (λ (l : TurnLease). l.id == i) s.dialogue.leases ≡ some x
      → ((l : TurnLease) → (f l).id ≡ l.id)
      → (p x ≡ true → LeaseMoves x (f x))
      → Keeps (g (count_where (λ l. l.id == i && p l) s.dialogue.leases)) (
          with_dialogue
            (record s.dialogue {
              leases = update_where (λ l. l.id == i && p l) f s.dialogue.leases;
            })
            s)
      → Keeps (update_leases (λ l. l.id == i && p l) f >>= g) s
  unfolding update_leases
  Keeps-update_lease_guarded i p x f g found same h k =
      Keeps-then s (update_leases (λ l. l.id == i && p l) f) g _ _ refl
        (lift_step s _ λ v.
          leases-kept s.dialogue _ v
            (Distinct-update (λ (l : TurnLease). l.id) (λ l. l.id == i && p l) f (λ l _. same l)
              s.dialogue.leases v.lease_ids)
            (Grows-update_guarded (λ (l : TurnLease). l.id) LeaseMoves LeaseMoves-refl i p f
              s.dialogue.leases x v.lease_ids found h))
        k
