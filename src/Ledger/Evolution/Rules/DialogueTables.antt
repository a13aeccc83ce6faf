-- ===== src/Ledger/Evolution/Rules/DialogueTables.antt =====
-- A change of one table of dialogue keeps what validity says of them, and moves them as promised.
use multiverse.Base.{◌≡◌, List, Grows, Distinct}
use multiverse.Ledger.Schema.{HumanRequest, HumanDecision, ProgressIntent, TurnLease, Interaction}
use multiverse.Ledger.Tx.Database.{Dialogue}
use multiverse.Ledger.Dialogue.{
  RequestMoves, IntentMoves, LeaseMoves, InteractionMoves, DialogueEvolves, DialogueIsValid,
  DialogueEvolves-refl,
}

module _ (d : Dialogue) where
  pub requests-kept :
      (t : List HumanRequest)
      → DialogueIsValid d
      → Distinct (λ (r : HumanRequest). r.id) t
      → Grows RequestMoves d.requests t
      → DialogueIsValid (record d { requests = t }) × DialogueEvolves d (record d { requests = t })
  requests-kept t v i g = (
    record { request_ids = i; lease_ids = v.lease_ids; interaction_ids = v.interaction_ids },
    record {
      requests = g;
      decisions = (DialogueEvolves-refl d).decisions;
      intents = (DialogueEvolves-refl d).intents;
      leases = (DialogueEvolves-refl d).leases;
      interactions = (DialogueEvolves-refl d).interactions;
    },
  )

  pub decisions-kept :
      (t : List HumanDecision)
      → DialogueIsValid d
      → Grows (λ (e e' : HumanDecision). e' ≡ e) d.decisions t
      → DialogueIsValid (record d { decisions = t })
        × DialogueEvolves d (record d { decisions = t })
  decisions-kept t v g = (
    record {
      request_ids = v.request_ids;
      lease_ids = v.lease_ids;
      interaction_ids = v.interaction_ids;
    },
    record {
      requests = (DialogueEvolves-refl d).requests;
      decisions = g;
      intents = (DialogueEvolves-refl d).intents;
      leases = (DialogueEvolves-refl d).leases;
      interactions = (DialogueEvolves-refl d).interactions;
    },
  )

  pub intents-kept :
      (t : List ProgressIntent)
      → DialogueIsValid d
      → Grows IntentMoves d.intents t
      → DialogueIsValid (record d { intents = t }) × DialogueEvolves d (record d { intents = t })
  intents-kept t v g = (
    record {
      request_ids = v.request_ids;
      lease_ids = v.lease_ids;
      interaction_ids = v.interaction_ids;
    },
    record {
      requests = (DialogueEvolves-refl d).requests;
      decisions = (DialogueEvolves-refl d).decisions;
      intents = g;
      leases = (DialogueEvolves-refl d).leases;
      interactions = (DialogueEvolves-refl d).interactions;
    },
  )

  pub leases-kept :
      (t : List TurnLease)
      → DialogueIsValid d
      → Distinct (λ (r : TurnLease). r.id) t
      → Grows LeaseMoves d.leases t
      → DialogueIsValid (record d { leases = t }) × DialogueEvolves d (record d { leases = t })
  leases-kept t v i g = (
    record { request_ids = v.request_ids; lease_ids = i; interaction_ids = v.interaction_ids },
    record {
      requests = (DialogueEvolves-refl d).requests;
      decisions = (DialogueEvolves-refl d).decisions;
      intents = (DialogueEvolves-refl d).intents;
      leases = g;
      interactions = (DialogueEvolves-refl d).interactions;
    },
  )

  pub interactions-kept :
      (t : List Interaction)
      → DialogueIsValid d
      → Distinct (λ (r : Interaction). r.id) t
      → Grows InteractionMoves d.interactions t
      → DialogueIsValid (record d { interactions = t })
        × DialogueEvolves d (record d { interactions = t })
  interactions-kept t v i g = (
    record { request_ids = v.request_ids; lease_ids = v.lease_ids; interaction_ids = i },
    record {
      requests = (DialogueEvolves-refl d).requests;
      decisions = (DialogueEvolves-refl d).decisions;
      intents = (DialogueEvolves-refl d).intents;
      leases = (DialogueEvolves-refl d).leases;
      interactions = g;
    },
  )
