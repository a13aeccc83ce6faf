-- ===== src/Ledger/Dialogue.antt =====
-- What every transaction may do to the tables human_requests, human_decisions,
-- human_progress_intents, native_session_turn_leases and codex_interactions. The promises about the
-- other tables are in `Evolution`, which contains these.
use multiverse.Base.{◌≤◌, ◌≡◌, refl, ◌∙◌, false, arith, Grows, Grows-refl, Grows-trans, Distinct}
use multiverse.Ledger.Status.RequestStatus
use multiverse.Ledger.Status.IntentStatus
use multiverse.Ledger.Status.LeaseStatus.{LeaseStatus}
use multiverse.Ledger.Status.InteractionStatus
use multiverse.Ledger.Schema.{HumanRequest, HumanDecision, ProgressIntent, TurnLease, Interaction}
use multiverse.Ledger.Tx.Database.{Dialogue}

-- A request that is no longer pending never changes again.
pub record RequestMoves (r r' : HumanRequest) : Type 0 where
  pub same_id : r'.id ≡ r.id
  pub same_run : r'.run_id ≡ r.run_id
  pub same_subject : r'.subject_digest ≡ r.subject_digest
  pub version_grows : r.version ≤ r'.version
  pub pinned : r'.version ≡ r.version → r' ≡ r
  pub settled : RequestStatus.is_pending r.status ≡ false → r' ≡ r

pub record IntentMoves (i i' : ProgressIntent) : Type 0 where
  pub same_id : i'.id ≡ i.id
  pub same_request : i'.request_id ≡ i.request_id
  pub same_decision : i'.decision_id ≡ i.decision_id
  pub completed : IntentStatus.is_pending i.status ≡ false → i' ≡ i

-- Under one fencing token a lease has one owner, and once released it is not taken again.
pub record LeaseMoves (l l' : TurnLease) : Type 0 where
  pub same_id : l'.id ≡ l.id
  pub token_grows : l.fencing_token ≤ l'.fencing_token
  pub same_attempt : l'.fencing_token ≡ l.fencing_token → l'.owner_attempt_id ≡ l.owner_attempt_id
  pub same_owner : l'.fencing_token ≡ l.fencing_token → l'.owner_token ≡ l.owner_token
  pub released_stays :
      l'.fencing_token ≡ l.fencing_token
      → l.status ≡ LeaseStatus.released
      → l'.status ≡ LeaseStatus.released

-- An interaction is answered at most once: when it is no longer pending, its response stays.
pub record InteractionMoves (i i' : Interaction) : Type 0 where
  pub same_id : i'.id ≡ i.id
  pub same_attempt : i'.attempt_id ≡ i.attempt_id
  pub same_native : i'.native_request_id ≡ i.native_request_id
  pub version_grows : i.version ≤ i'.version
  pub pinned : i'.version ≡ i.version → i' ≡ i
  pub closed :
      InteractionStatus.is_pending i.status ≡ false → InteractionStatus.is_pending i'.status ≡ false
  pub response_stays : InteractionStatus.is_pending i.status ≡ false → i'.response ≡ i.response
  pub actor_stays : InteractionStatus.is_pending i.status ≡ false → i'.actor ≡ i.actor

pub record DialogueEvolves (d d' : Dialogue) : Type 0 where
  pub requests : Grows RequestMoves d.requests d'.requests
  pub decisions : Grows (λ (e e' : HumanDecision). e' ≡ e) d.decisions d'.decisions
  pub intents : Grows IntentMoves d.intents d'.intents
  pub leases : Grows LeaseMoves d.leases d'.leases
  pub interactions : Grows InteractionMoves d.interactions d'.interactions

pub record DialogueIsValid (d : Dialogue) : Type 0 where
  pub request_ids : Distinct (λ (r : HumanRequest). r.id) d.requests
  pub lease_ids : Distinct (λ (l : TurnLease). l.id) d.leases
  pub interaction_ids : Distinct (λ (i : Interaction). i.id) d.interactions

pub RequestMoves-refl : (r : HumanRequest) → RequestMoves r r
RequestMoves-refl r = ground arith

pub IntentMoves-refl : (i : ProgressIntent) → IntentMoves i i
IntentMoves-refl i = ground arith

pub LeaseMoves-refl : (l : TurnLease) → LeaseMoves l l
LeaseMoves-refl l = ground arith

pub InteractionMoves-refl : (i : Interaction) → InteractionMoves i i
InteractionMoves-refl i = ground arith

RequestMoves-trans : (r s t : HumanRequest) → RequestMoves r s → RequestMoves s t → RequestMoves r t
RequestMoves-trans r s t a b = ground arith

IntentMoves-trans : (r s t : ProgressIntent) → IntentMoves r s → IntentMoves s t → IntentMoves r t
IntentMoves-trans r s t a b = ground arith

LeaseMoves-trans : (r s t : TurnLease) → LeaseMoves r s → LeaseMoves s t → LeaseMoves r t
LeaseMoves-trans r s t a b = ground arith

InteractionMoves-trans :
    (r s t : Interaction) → InteractionMoves r s → InteractionMoves s t → InteractionMoves r t
InteractionMoves-trans r s t a b = ground arith

pub DialogueEvolves-refl : (d : Dialogue) → DialogueEvolves d d
DialogueEvolves-refl d = record {
  requests = Grows-refl RequestMoves RequestMoves-refl d.requests;
  decisions = Grows-refl (λ (e e' : HumanDecision). e' ≡ e) (λ e. refl) d.decisions;
  intents = Grows-refl IntentMoves IntentMoves-refl d.intents;
  leases = Grows-refl LeaseMoves LeaseMoves-refl d.leases;
  interactions = Grows-refl InteractionMoves InteractionMoves-refl d.interactions;
}

pub DialogueEvolves-trans :
    (d e f : Dialogue) → DialogueEvolves d e → DialogueEvolves e f → DialogueEvolves d f
DialogueEvolves-trans d e f a b = record {
  requests =
      Grows-trans RequestMoves RequestMoves-trans d.requests e.requests f.requests a.requests
        b.requests;
  decisions =
      Grows-trans (λ (x y : HumanDecision). y ≡ x) (λ x y z p q. q ∙ p) d.decisions e.decisions
        f.decisions a.decisions b.decisions;
  intents =
      Grows-trans IntentMoves IntentMoves-trans d.intents e.intents f.intents a.intents b.intents;
  leases = Grows-trans LeaseMoves LeaseMoves-trans d.leases e.leases f.leases a.leases b.leases;
  interactions =
      Grows-trans InteractionMoves InteractionMoves-trans d.interactions e.interactions
        f.interactions a.interactions b.interactions;
}
