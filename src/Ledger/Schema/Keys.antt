-- ===== src/Ledger/Schema/Keys.antt =====
-- Keys and payloads that the code builds as texts (`f"submit:{attempt_id}"`, `_json({...})`), by
-- what they are built from. A caller's own key or payload is given whole.
use multiverse.Base.{
  ℕ, String, ◌≡◌, ◌↔◌, Bool, true, false, ◌&&◌, Option, none, some, List, ◌==◌, str_eq,
}
use multiverse.Base.{ap, arith, ==_refl, eq_iff}
use text.Mathlib.TextPositions.{eq_refl}

pub data WaitKey : Type 0 where
  run_start run_resume submit attempt_reconcile external_observe human human_progress : ℕ → WaitKey
  retry : ℕ → ℕ → WaitKey
  given : String → WaitKey

-- Equality of the texts.
abbrev pub key_eq : WaitKey → WaitKey → Bool
key_eq (WaitKey.run_start a) (WaitKey.run_start b) = a == b
key_eq (WaitKey.run_resume a) (WaitKey.run_resume b) = a == b
key_eq (WaitKey.submit a) (WaitKey.submit b) = a == b
key_eq (WaitKey.attempt_reconcile a) (WaitKey.attempt_reconcile b) = a == b
key_eq (WaitKey.external_observe a) (WaitKey.external_observe b) = a == b
key_eq (WaitKey.human a) (WaitKey.human b) = a == b
key_eq (WaitKey.human_progress a) (WaitKey.human_progress b) = a == b
key_eq (WaitKey.retry a c) (WaitKey.retry b d) = a == b && c == d
key_eq (WaitKey.given a) (WaitKey.given b) = str_eq a b
key_eq _ _ = false

-- `external-observe:...`
abbrev pub is_observation : WaitKey → Bool
is_observation (WaitKey.external_observe k) = true
is_observation _ = false

pub key_eq_refl : (k : WaitKey) → key_eq k k ≡ true
key_eq_refl (WaitKey.run_start a) = ==_refl a
key_eq_refl (WaitKey.run_resume a) = ==_refl a
key_eq_refl (WaitKey.submit a) = ==_refl a
key_eq_refl (WaitKey.attempt_reconcile a) = ==_refl a
key_eq_refl (WaitKey.external_observe a) = ==_refl a
key_eq_refl (WaitKey.human a) = ==_refl a
key_eq_refl (WaitKey.human_progress a) = ==_refl a
key_eq_refl (WaitKey.retry a b) = ground arith
key_eq_refl (WaitKey.given s) = eq_refl s

pub data WaitKind : Type 0 where
  run_start run_resume external_submit external_observe retry attempt_reconcile : WaitKind
  human human_progress : WaitKind
  given : String → WaitKind

-- Equality of the texts.
abbrev pub kind_eq : WaitKind → WaitKind → Bool
kind_eq WaitKind.run_start WaitKind.run_start = true
kind_eq WaitKind.run_resume WaitKind.run_resume = true
kind_eq WaitKind.external_submit WaitKind.external_submit = true
kind_eq WaitKind.external_observe WaitKind.external_observe = true
kind_eq WaitKind.retry WaitKind.retry = true
kind_eq WaitKind.attempt_reconcile WaitKind.attempt_reconcile = true
kind_eq WaitKind.human WaitKind.human = true
kind_eq WaitKind.human_progress WaitKind.human_progress = true
kind_eq (WaitKind.given a) (WaitKind.given b) = str_eq a b
kind_eq _ _ = false

pub data Payload : Type 0 where
  -- {"runId"}
  of_run : ℕ → Payload
  -- {"runId", "scopeId"}
  of_start : ℕ → ℕ → Payload
  -- {"outboxId", "attemptId"}
  of_submit : ℕ → ℕ → Payload
  -- {"runId", "scopeId", "nodeId", "invocationId", "attemptId"}
  of_retry : ℕ → ℕ → ℕ → ℕ → ℕ → Payload
  -- {"attemptId", "runId", "scopeId", "invocationId", "attemptVersion"}
  of_reconcile : ℕ → ℕ → ℕ → ℕ → ℕ → Payload
  -- {"attemptId", "runId", "scopeId", "invocationId", "externalRef"}
  of_observe : ℕ → ℕ → ℕ → ℕ → String → Payload
  -- {"requestId"}
  of_request : ℕ → Payload
  -- a caller's payload
  given : ℕ → Payload

-- An error document: a caller's, or one that the ledger writes, with its message.
pub data ErrorJson : Type 0 where
  given : ℕ → ErrorJson
  run_cancelled reconciled_failure reconciled_cancelled reconciled_not_started : String → ErrorJson

-- An output document: a caller's, or `error_output` of an error.
pub data OutputJson : Type 0 where
  given : ℕ → OutputJson
  error_output : ErrorJson → OutputJson

pub data Conclusion : Type 0 where
  confirmed_succeeded confirmed_failed confirmed_cancelled confirmed_not_started : Conclusion

pub record Reconciliation : Type 0 where
  pub conclusion : Conclusion
  pub evidence_refs : List String
  pub reason : String
  pub actor : String

pub data Operation : Type 0 where
  pause resume cancel : Operation

-- `run.pause`, `run.resume`, `run.cancel`, or the text of another operation.
pub data CommandOperation : Type 0 where
  control : Operation → CommandOperation
  other : ℕ → CommandOperation

abbrev pub operation_eq : Operation → Operation → Bool
operation_eq Operation.pause Operation.pause = true
operation_eq Operation.resume Operation.resume = true
operation_eq Operation.cancel Operation.cancel = true
operation_eq _ _ = false

abbrev pub command_operation_eq : CommandOperation → CommandOperation → Bool
command_operation_eq (CommandOperation.control a) (CommandOperation.control b) = operation_eq a b
command_operation_eq (CommandOperation.other a) (CommandOperation.other b) = a == b
command_operation_eq _ _ = false

-- Equality of the canonical texts.
abbrev pub error_eq : ErrorJson → ErrorJson → Bool
error_eq (ErrorJson.given a) (ErrorJson.given b) = a == b
error_eq (ErrorJson.run_cancelled a) (ErrorJson.run_cancelled b) = str_eq a b
error_eq (ErrorJson.reconciled_failure a) (ErrorJson.reconciled_failure b) = str_eq a b
error_eq (ErrorJson.reconciled_cancelled a) (ErrorJson.reconciled_cancelled b) = str_eq a b
error_eq (ErrorJson.reconciled_not_started a) (ErrorJson.reconciled_not_started b) = str_eq a b
error_eq _ _ = false

abbrev pub opt_error_eq : Option ErrorJson → Option ErrorJson → Bool
opt_error_eq none none = true
opt_error_eq (some a) (some b) = error_eq a b
opt_error_eq _ _ = false

pub key_eq_sound : (k j : WaitKey) → key_eq k j ≡ true → k ≡ j
key_eq_sound (WaitKey.run_start a) (WaitKey.run_start b) e = ground arith
key_eq_sound (WaitKey.run_resume a) (WaitKey.run_resume b) e = ground arith
key_eq_sound (WaitKey.submit a) (WaitKey.submit b) e = ground arith
key_eq_sound (WaitKey.attempt_reconcile a) (WaitKey.attempt_reconcile b) e = ground arith
key_eq_sound (WaitKey.external_observe a) (WaitKey.external_observe b) e = ground arith
key_eq_sound (WaitKey.human a) (WaitKey.human b) e = ground arith
key_eq_sound (WaitKey.human_progress a) (WaitKey.human_progress b) e = ground arith
key_eq_sound (WaitKey.retry a c) (WaitKey.retry b d) e = ground arith
key_eq_sound (WaitKey.given a) (WaitKey.given b) e = ap WaitKey.given ((eq_iff a b).0 e)
key_eq_sound _ _ e = cc

pub kind_eq_iff : (a b : WaitKind) → (kind_eq a b ≡ true) ↔ (a ≡ b)
kind_eq_iff (WaitKind.given s) (WaitKind.given t) = ground (arith, eq_iff s t)
kind_eq_iff a b = ground arith
