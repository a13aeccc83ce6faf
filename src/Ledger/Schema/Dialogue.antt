-- ===== src/Ledger/Schema/Dialogue.antt =====
-- The rows of human_requests, human_decisions, human_progress_intents, native_session_turn_leases
-- and codex_interactions: what a run asks of people and of native sessions, and their answers.
use multiverse.Base.{ℕ, String, List, Option}
use multiverse.Ledger.Status.RequestStatus.{RequestStatus}
use multiverse.Ledger.Status.IntentStatus.{IntentStatus}
use multiverse.Ledger.Status.LeaseStatus.{LeaseStatus}
use multiverse.Ledger.Status.InteractionStatus.{InteractionStatus}
use multiverse.Ledger.Status.DeliveryStatus.{DeliveryStatus}

pub data RequestType : Type 0 where
  approval review : RequestType
  -- another text, such as 'input'
  other : ℕ → RequestType

-- The columns of a request that the ledger writes once and only hands on.
pub record RequestText : Type 0 where
  pub title : ℕ
  pub instructions : ℕ
  pub input : ℕ
  pub input_digest : ℕ
  pub decision_schema : ℕ

pub record HumanRequest : Type 0 where
  pub id : ℕ
  pub run_id : ℕ
  pub scope_id : ℕ
  pub invocation_id : ℕ
  pub request_type : RequestType
  pub text : RequestText
  pub subject_digest : ℕ
  pub choices : List String
  pub authorized_subjects : List String
  pub created_at : ℕ
  pub expires_at : ℕ
  pub version : ℕ
  pub status : RequestStatus
  pub decision_id : Option ℕ
  pub updated_at : Option ℕ

-- `decision_json`: a choice with its comment, or the document of the caller.
pub data DecisionJson : Type 0 where
  chosen : String → ℕ → DecisionJson
  structured : ℕ → DecisionJson

pub record HumanDecision : Type 0 where
  pub id : ℕ
  pub request_id : ℕ
  pub request_version : ℕ
  pub choice : String
  pub comment : ℕ
  pub decision : DecisionJson
  pub actor : String
  pub subject_digest : ℕ
  pub idempotency_key : ℕ
  pub created_at : ℕ

-- `action` is always 'resume-human-decision'.
pub record ProgressIntent : Type 0 where
  pub id : ℕ
  pub request_id : ℕ
  pub run_id : ℕ
  pub scope_id : ℕ
  pub invocation_id : ℕ
  pub decision_id : ℕ
  pub status : IntentStatus
  pub created_at : ℕ
  pub updated_at : ℕ

pub record SessionIdentity : Type 0 where
  pub provider_id : String
  pub installation_id : String
  pub storage_id : String
  pub native_session_id : String

pub record TurnLease : Type 0 where
  pub id : ℕ
  pub identity : SessionIdentity
  pub fencing_token : ℕ
  pub owner_attempt_id : ℕ
  pub owner_token : String
  pub status : LeaseStatus
  pub acquired_at : ℕ
  pub released_at : Option ℕ

pub record Interaction : Type 0 where
  pub id : ℕ
  pub run_id : ℕ
  pub scope_id : ℕ
  pub invocation_id : ℕ
  pub attempt_id : ℕ
  pub native_request_id : ℕ
  pub thread_id : ℕ
  pub turn_id : ℕ
  pub kind : ℕ
  pub payload : ℕ
  pub authorized_subjects : List String
  pub expires_at : ℕ
  pub version : ℕ
  pub status : InteractionStatus
  pub response : Option ℕ
  pub response_digest : Option ℕ
  pub invalid_reason : Option ℕ
  pub actor : Option String
  pub idempotency_key : Option ℕ
  pub delivery_status : DeliveryStatus
  pub created_at : ℕ
  pub updated_at : ℕ
