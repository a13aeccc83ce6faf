-- ===== src/Ledger/Leases.antt =====
-- runtime/ledger.py, turn leases of native sessions: one writer at a time holds the turn of a native
-- session, under a fencing token that grows with every new owner. `digest` is `_digest(_json(...))`
-- of the identity of a session; attempt ids are numbers here, so that the test of a blank one has no
-- place.
pub mod Evolution
pub mod Exclusive
pub mod Fencing
use multiverse.Base.{
  ℕ, ◌+◌, String, Bool, true, false, not, ◌&&◌, ◌||◌, Option, none, some, List, [], ◌∷◌, ◌==◌, leb,
  str_eq, is_blank, select, select_all, if◌then◌else◌,
}
use multiverse.Ledger.Status.LeaseStatus
use multiverse.Ledger.Status.LeaseStatus.{LeaseStatus}
use multiverse.Ledger.Status.AttemptStatus
use multiverse.Ledger.Schema.{Attempt, SessionIdentity, TurnLease}
use multiverse.Ledger.Tx.Monad.{
  Error, Entity, Conflict, conflict, pure, raise, gets, or_raise, raise_if, branch, ◌>>=◌, ◌>>◌,
}
use multiverse.Ledger.Tx.Database.{Db, Tx}
use multiverse.Ledger.Tx.Dialogue.{update_leases, insert_lease}
use multiverse.Ledger.Queries.{attempt_of}

-- SELECT * FROM native_session_turn_leases WHERE id = ?
abbrev pub lease_of : ℕ → Db → Option TurnLease
lease_of k s = select (λ (l : TurnLease). l.id == k) s.dialogue.leases

abbrev pub is_incomplete : SessionIdentity → Bool
is_incomplete i =
    is_blank i.provider_id
    || is_blank i.installation_id
    || is_blank i.storage_id
    || is_blank i.native_session_id

abbrev pub new_lease : ℕ → ℕ → SessionIdentity → ℕ → String → TurnLease
new_lease now k identity attempt owner = record {
  id = k;
  identity = identity;
  fencing_token = 1;
  owner_attempt_id = attempt;
  owner_token = owner;
  status = LeaseStatus.active;
  acquired_at = now;
  released_at = none;
}

abbrev pub is_held_by : ℕ → String → TurnLease → Bool
is_held_by attempt owner l = l.owner_attempt_id == attempt && str_eq l.owner_token owner

-- The attempt that holds the lease is there, and its status is one of the last three.
abbrev pub holder_over : Option Attempt → Bool
holder_over none = false
holder_over (some a) = AttemptStatus.is_terminal a.status

abbrev pub released : ℕ → TurnLease → TurnLease
released now l = record l { status = LeaseStatus.released; released_at = some now }

abbrev pub taken : ℕ → ℕ → ℕ → String → TurnLease → TurnLease
taken now token attempt owner l = record l {
  fencing_token = token;
  owner_attempt_id = attempt;
  owner_token = owner;
  status = LeaseStatus.active;
  acquired_at = now;
  released_at = none;
}

-- The end of an acquisition: the row as it is stored.
unfoldable pub stored_lease : ℕ → Tx TurnLease
stored_lease k = do
  result ← gets (lease_of k)
  or_raise (conflict Conflict.lease_not_persisted) result

-- A lease that is released goes to the new owner under the next token.
unfoldable pub take_over : ℕ → ℕ → ℕ → ℕ → String → Tx TurnLease
unfolding stored_lease
take_over now k token attempt owner = do
  update_leases (λ l. l.id == k && LeaseStatus.is_released l.status)
      (taken now (token + 1) attempt owner)
  stored_lease k

-- `if row["status"] == "active"`, for another owner.
unfoldable pub evict : ℕ → ℕ → TurnLease → Tx (Unit {0})
evict now k row = do
  holder ← gets (attempt_of row.owner_attempt_id)
  raise_if (not (holder_over holder)) (conflict Conflict.held_by_other)
  update_leases
      (λ l.
        l.id == k
        && LeaseStatus.is_active l.status
        && l.fencing_token == row.fencing_token
        && str_eq l.owner_token row.owner_token)
      (released now)
  pure tt

unfoldable pub acquire_from : ℕ → ℕ → SessionIdentity → ℕ → String → Option TurnLease → Tx TurnLease
unfolding take_over evict stored_lease
acquire_from now k identity attempt owner none = do
  insert_lease (new_lease now k identity attempt owner)
  stored_lease k
acquire_from now k identity attempt owner (some row) =
    branch (LeaseStatus.is_active row.status)
      (branch (is_held_by attempt owner row) (pure row)
        (do evict now k row; take_over now k row.fencing_token attempt owner))
      (take_over now k row.fencing_token attempt owner)

unfoldable pub acquire_native_session_turn :
    (SessionIdentity → ℕ) → ℕ → SessionIdentity → ℕ → String → Tx TurnLease
unfolding acquire_from
acquire_native_session_turn digest now identity attempt owner = do
  raise_if (is_incomplete identity) (conflict Conflict.lease_identity)
  raise_if (is_blank owner) (conflict Conflict.lease_owner_token)
  row ← gets (lease_of (digest identity))
  acquire_from now (digest identity) identity attempt owner row

unfoldable pub release_native_session_turn : ℕ → ℕ → ℕ → String → ℕ → Tx (Option TurnLease)
release_native_session_turn now k attempt owner token = do
  found ← gets (lease_of k)
  row ← or_raise (conflict Conflict.lease_not_found) found
  raise_if
      (not (LeaseStatus.is_active row.status)
        || not (row.owner_attempt_id == attempt)
        || not (str_eq row.owner_token owner)
        || not (row.fencing_token == token))
      (conflict Conflict.lease_stale)
  update_leases
      (λ l.
        l.id == k
        && LeaseStatus.is_active l.status
        && l.owner_attempt_id == attempt
        && str_eq l.owner_token owner
        && l.fencing_token == token)
      (released now)
  gets (lease_of k)

unfoldable pub release_row : ℕ → ℕ → Option TurnLease → Tx (Option TurnLease)
release_row now attempt none = pure none
release_row now attempt (some row) = do
  update_leases
      (λ l.
        l.id == row.id
        && l.owner_attempt_id == attempt
        && l.fencing_token == row.fencing_token
        && LeaseStatus.is_active l.status)
      (released now)
  gets (lease_of row.id)

unfoldable pub release_native_session_turn_for_attempt : ℕ → ℕ → Tx (Option TurnLease)
unfolding release_row
release_native_session_turn_for_attempt now attempt = do
  row ← gets (λ s.
      select (λ (l : TurnLease). l.owner_attempt_id == attempt && LeaseStatus.is_active l.status)
        s.dialogue.leases)
  release_row now attempt row

-- `ORDER BY fencing_token`
unfoldable pub insert_by_token : TurnLease → List TurnLease → List TurnLease
insert_by_token l [] = l ∷ []
insert_by_token l (m ∷ ms) =
    if leb l.fencing_token m.fencing_token then l ∷ m ∷ ms else m ∷ insert_by_token l ms

unfoldable pub order_by_token : List TurnLease → List TurnLease
unfolding insert_by_token
order_by_token [] = []
order_by_token (l ∷ ls) = insert_by_token l (order_by_token ls)

abbrev pub is_of : SessionIdentity → TurnLease → Bool
is_of i l =
    str_eq l.identity.provider_id i.provider_id
    && str_eq l.identity.installation_id i.installation_id
    && str_eq l.identity.storage_id i.storage_id
    && str_eq l.identity.native_session_id i.native_session_id

unfoldable pub list_native_session_turn_leases : SessionIdentity → Tx (List TurnLease)
unfolding order_by_token
list_native_session_turn_leases identity =
    gets (λ s. order_by_token (select_all (is_of identity) s.dialogue.leases))
