-- ===== src/Ledger/Tx/Monad.antt =====
-- Results and transactions: `LedgerConflict`, `KeyError`, `sqlite3.IntegrityError` are the errors.
use multiverse.Base.{ℕ, Bool, true, false, Option, none, some}
use multiverse.Ledger.Status.RunStatus.{RunStatus}
use multiverse.Ledger.Status.InvocationStatus.{InvocationStatus}
use multiverse.Ledger.Status.AttemptStatus.{AttemptStatus}
use multiverse.Ledger.Status.WaitStatus.{WaitStatus}
use multiverse.Ledger.Status.OutboxStatus.{OutboxStatus}
use multiverse.Ledger.Status.InteractionStatus.{InteractionStatus}

-- What `KeyError` misses.
pub data Entity : Type 0 where
  run scope invocation attempt outbox wait command request interaction : Entity

-- The messages of `LedgerConflict`, with what they report.
pub data Conflict : Type 0 where
  wait_key_required worker_required wait_of_other_worker : Conflict
  wait_not_claimed cannot_reschedule : WaitStatus → Conflict
  empty_reason run_version run_terminal only_paused_resumes command_not_accepted : Conflict
  cannot_pause : RunStatus → Conflict
  missing_command : ℕ → Conflict
  command_terminal command_status : Conflict
  scope_required foreign_scope foreign_invocation other_scope other_node : Conflict
  reference_required evidence_required payload_conflict reference_conflict outbox_lost : Conflict
  cannot_submit cannot_resolve not_retryable : OutboxStatus → Conflict
  invocation_terminal : InvocationStatus → Conflict
  attempt_terminal only_unknown_reconciles : AttemptStatus → Conflict
  attempt_unknown attempt_version : Conflict
  evidence_refs_required reason_and_actor_required output_required : Conflict
  other_reference revision_backwards revision_changed terminal_changed final_changed : Conflict
  not_terminal_final : Conflict
  -- an observation that fails the checks before the transaction
  missing_fields bad_reference bad_revision bad_status bad_observed_at bad_final : Conflict
  bad_effect succeeded_not_final : Conflict
  -- waits that an attempt needs
  observation_wait_gone reconciliation_wait_gone not_reconciled : Conflict
  -- human requests
  key_of_other_request request_version request_not_pending request_subject not_authorized : Conflict
  choice_not_allowed decision_required request_expired decision_command decision_missing : Conflict
  -- turn leases of native sessions
  lease_identity lease_owner_token held_by_other lease_not_found lease_stale : Conflict
  lease_not_persisted : Conflict
  -- interactions
  subject_required interaction_invocation interaction_attempt native_request_conflict : Conflict
  interaction_not_persisted not_replied interaction_run key_reused : Conflict
  key_of_other_interaction interaction_version actor_not_authorized interaction_expired : Conflict
  interaction_closed : InteractionStatus → Conflict

pub data Error : Type 0 where
  not_found : Entity → ℕ → Error
  conflict : Conflict → Error
  -- a UNIQUE, PRIMARY KEY or REFERENCES clause is violated
  integrity : Error
  -- `ValueError("limit must be positive")`
  bad_limit : Error

pub data Result (A : Type 0) : Type 0 where
  ok : A → Result A
  err : Error → Result A

-- `S` is the state of the database. A body that raises is rolled back, so an error has no state.
module _ (S : Type 0) where
  abbrev pub TxOn : Type 0 → Type 0
  TxOn A = S → Result (A × S)

module _ {S A : Type 0} where
  unfoldable pub pure : A → TxOn S A
  pure a s = ok (a, s)

  unfoldable pub raise : Error → TxOn S A
  raise e s = err e

  -- a read
  unfoldable pub gets : (S → A) → TxOn S A
  gets f s = ok (f s, s)

  unfoldable pub or_raise : Error → Option A → TxOn S A
  unfolding pure raise
  or_raise e none = raise e
  or_raise e (some a) = pure a

  -- the `with self._transaction()` of a method that is called in state `s`
  unfoldable pub transaction : TxOn S A → S → Result A × S
  transaction m s = elim (m s) [ ok (a, s') ↦ (ok a, s') | err e ↦ (err e, s) ]

unfoldable pub raise_if : {S : Type 0} → Bool → Error → TxOn S (Unit {0})
unfolding pure raise
raise_if true e = raise e
raise_if false e = pure tt

-- The error that a check has found, if any.
unfoldable pub raise_found : {S : Type 0} → Option Error → TxOn S (Unit {0})
unfolding pure raise
raise_found none = pure tt
raise_found (some x) = raise x

-- `if b: m else: n`. A definition of its own, so that rules about transactions see the test.
unfoldable pub branch : {S A : Type 0} → Bool → TxOn S A → TxOn S A → TxOn S A
branch true m n = m
branch false m n = n

infixl 5 ◌>>=◌ ◌>>◌
-- Opening this opens the actions above too.
unfoldable pub ◌>>=◌ : {S A B : Type 0} → TxOn S A → (A → TxOn S B) → TxOn S B
unfolding pure raise gets or_raise raise_if raise_found branch
◌>>=◌ m f s = elim (m s) [ ok (a, s') ↦ f a s' | err e ↦ err e ]

abbrev pub ◌>>◌ : {S A B : Type 0} → TxOn S A → TxOn S B → TxOn S B
m >> k = m >>= λ _. k
