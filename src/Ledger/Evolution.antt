-- ===== src/Ledger/Evolution.antt =====
-- What every transaction of the ledger promises to a client that remembers an earlier state: rows
-- stay, identities and versions are stable, settled rows stay settled, events are only appended.
pub mod Rules
use multiverse.Base.{
  ℕ, String, ◌≤◌, ◌≡◌, ◌≢◌, ◌⊎◌, Bool, true, false, ◌&&◌, Option, none, some, List, [], ◌∷◌,
  is_none, Grows, Distinct, All, ◌==◌, if◌then◌else◌,
}
use multiverse.Ledger.Status.AttemptStatus.{AttemptStatus}
use multiverse.Ledger.Status.WaitStatus.{WaitStatus}
use multiverse.Ledger.Status.CommandStatus.{CommandStatus}
use multiverse.Ledger.Schema.{
  Run, Scope, Invocation, Attempt, Outbox, Wait, Command, Event, is_observation,
}
use multiverse.Ledger.Tx.Database.{Db, Tx}
use multiverse.Ledger.Dialogue.{DialogueEvolves, DialogueIsValid}
use multiverse.Ledger.Tx.Numbering.{Numbered}
use multiverse.Ledger.Tx.WaitKeys.{DistinctKeys}
use multiverse.Ledger.Tx.Monad.{ok}

-- The version of a run pins its status and mode, and its whole row once it has a scope: under an
-- equal version nothing has changed. (`create_queued_run` places the new run at its root scope.)
pub record RunMoves (r r' : Run) : Type 0 where
  pub same_id : r'.id ≡ r.id
  pub same_namespace : r'.namespace ≡ r.namespace
  pub same_spec : r'.spec ≡ r.spec
  pub version_grows : r.version ≤ r'.version
  pub pinned : r'.version ≡ r.version → (r'.status ≡ r.status) × (r'.control_mode ≡ r.control_mode)
  pub placed : is_none r.current_scope_id ≡ false → r'.version ≡ r.version → r' ≡ r

pub record ScopeMoves (r r' : Scope) : Type 0 where
  pub same_id : r'.id ≡ r.id
  pub same_run : r'.run_id ≡ r.run_id
  pub same_parent : r'.parent_invocation_id ≡ r.parent_invocation_id

pub record InvocationMoves (r r' : Invocation) : Type 0 where
  pub same_id : r'.id ≡ r.id
  pub same_run : r'.run_id ≡ r.run_id
  pub same_scope : r'.scope_id ≡ r.scope_id
  pub same_node : r'.node_id ≡ r.node_id
  pub version_grows : r.version ≤ r'.version
  pub pinned : r'.version ≡ r.version → r' ≡ r

-- The cancellation of a run changes attempts and leaves their versions as they are.
pub record AttemptMoves (r r' : Attempt) : Type 0 where
  pub same_id : r'.id ≡ r.id
  pub same_invocation : r'.invocation_id ≡ r.invocation_id
  pub same_number : r'.attempt_no ≡ r.attempt_no
  pub same_dispatch : r'.dispatch_key ≡ r.dispatch_key
  pub same_effect : r'.effect_key ≡ r.effect_key
  pub version_grows : r.version ≤ r'.version
  pub pinned :
      r'.version ≡ r.version → (r'.status ≡ r.status) ⊎ (r'.status ≡ AttemptStatus.cancelled)
  pub reconciled_stays : is_none r.reconciliation ≡ false → is_none r'.reconciliation ≡ false

pub record OutboxMoves (r r' : Outbox) : Type 0 where
  pub same_id : r'.id ≡ r.id
  pub same_attempt : r'.attempt_id ≡ r.attempt_id
  pub same_digest : r'.payload_digest ≡ r.payload_digest
  pub count_grows : r.attempt_count ≤ r'.attempt_count
  pub reference_stays : is_none r.external_ref ≡ false → is_none r'.external_ref ≡ false

-- A completed wait stays completed; only the wait for an external execution is used again.
pub record WaitMoves (r r' : Wait) : Type 0 where
  pub same_id : r'.id ≡ r.id
  pub same_namespace : r'.namespace ≡ r.namespace
  pub same_key : r'.wait_key ≡ r.wait_key
  pub same_run : r'.run_id ≡ r.run_id
  pub completed_stays :
      r.status ≡ WaitStatus.completed
      → is_observation r.wait_key ≡ false
      → r'.status ≡ WaitStatus.completed

-- A finished command never changes again.
pub record CommandMoves (r r' : Command) : Type 0 where
  pub same_id : r'.id ≡ r.id
  pub same_key : r'.idempotency_key ≡ r.idempotency_key
  pub same_fingerprint : r'.fingerprint ≡ r.fingerprint
  pub finished : r.status ≢ CommandStatus.accepted → r' ≡ r

pub record Evolves (s s' : Db) : Type 0 where
  pub runs : Grows RunMoves s.runs s'.runs
  pub scopes : Grows ScopeMoves s.scopes s'.scopes
  pub invocations : Grows InvocationMoves s.invocations s'.invocations
  pub attempts : Grows AttemptMoves s.attempts s'.attempts
  pub outbox : Grows OutboxMoves s.outbox s'.outbox
  pub waits : Grows WaitMoves s.waits s'.waits
  pub commands : Grows CommandMoves s.commands s'.commands
  pub dialogue : DialogueEvolves s.dialogue s'.dialogue
  pub events : Grows (λ (e e' : Event). e' ≡ e) s.events s'.events

-- A pending wait has no owner, and a claimed one has an owner and the time of its claim.
abbrev pub IsOwned : WaitStatus → Option String → Option ℕ → Type 0
IsOwned WaitStatus.pending worker claimed = (is_none worker ≡ true) × (is_none claimed ≡ true)
IsOwned WaitStatus.claimed worker claimed = (is_none worker ≡ false) × (is_none claimed ≡ false)
IsOwned _ worker claimed = Unit

abbrev pub IsOwnedWait : Wait → Type 0
IsOwnedWait w = IsOwned w.status w.worker_id w.claimed_at

-- The events of a run are numbered one after the other, from 1.
abbrev pub IsNumbered : List Event → Type 0
IsNumbered es = (k : ℕ) → Numbered k 0 es

-- The ids of each table and the keys of the waits are distinct,
-- waits have their owners, and events their numbers.
pub record IsValid (s : Db) : Type 0 where
  pub run_ids : Distinct (λ (r : Run). r.id) s.runs
  pub scope_ids : Distinct (λ (r : Scope). r.id) s.scopes
  pub invocation_ids : Distinct (λ (r : Invocation). r.id) s.invocations
  pub attempt_ids : Distinct (λ (r : Attempt). r.id) s.attempts
  pub outbox_ids : Distinct (λ (r : Outbox). r.id) s.outbox
  pub wait_ids : Distinct (λ (r : Wait). r.id) s.waits
  pub wait_keys : DistinctKeys s.waits
  pub command_ids : Distinct (λ (r : Command). r.id) s.commands
  pub owned : All IsOwnedWait s.waits
  pub numbered : IsNumbered s.events
  pub dialogue : DialogueIsValid s.dialogue

-- `m` keeps validity, and moves the state as a transaction may.
pub record Keeps {A : Type 0} (m : Tx A) (s : Db) : Type 0 where
  pub at : IsValid s → (a : A) (s' : Db) → m s ≡ ok (a, s') → IsValid s' × Evolves s s'
