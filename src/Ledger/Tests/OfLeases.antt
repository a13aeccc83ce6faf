-- ===== src/Ledger/Tests/OfLeases.antt =====
-- Theorems and tests on turn leases: attempt 6 takes the turn of a session that is over.
use multiverse.Base.{ℕ, ◌≤◌, String, true, false, none, some, [], ◌∷◌, ◌≡◌, refl, is_blank}
use multiverse.Ledger.Status.AttemptStatus.{AttemptStatus}
use multiverse.Ledger.Status.LeaseStatus
use multiverse.Ledger.Status.LeaseStatus.{LeaseStatus}
use multiverse.Ledger.Schema.{SessionIdentity, TurnLease}
use multiverse.Ledger.Tx.Monad.{Conflict, ok, err, conflict, ◌>>=◌}
use multiverse.Ledger.Tx.Database.{Db, empty}
use multiverse.Ledger.Tx.Dialogue.{update_leases}
use multiverse.Ledger.Queries.{attempt_of}
use multiverse.Ledger.Evolution.Rules.{Evolves-refl}
use multiverse.Ledger.Leases.{
  lease_of, is_held_by, holder_over, acquire_native_session_turn, release_native_session_turn,
}
use multiverse.Ledger.Leases.Exclusive.{acquire_native_session_turn-exclusive}
use multiverse.Ledger.Leases.Fencing.{acquire_native_session_turn-fences}
use multiverse.Ledger.Tests.Samples.{value_or}
use multiverse.Ledger.Tests.OfAttempts.{small}

abbrev identity : SessionIdentity
identity = record {
  provider_id = "codex";
  installation_id = "here";
  storage_id = "disk";
  native_session_id = "s1";
}

abbrev one : SessionIdentity → ℕ
one i = 1

-- The lease that attempt 6 holds under token 4.
abbrev lease : TurnLease
lease = record {
  id = 1;
  identity = identity;
  fencing_token = 4;
  owner_attempt_id = 6;
  owner_token = "old";
  status = LeaseStatus.active;
  acquired_at = 20;
  released_at = none;
}

abbrev before : AttemptStatus → Db
before st = record (small st) { dialogue = record empty.dialogue { leases = lease ∷ [] } }

abbrev acquired : TurnLease × Db
acquired =
    value_or (lease, before AttemptStatus.failed)
      (acquire_native_session_turn one 30 identity 9 "new" (before AttemptStatus.failed))

acquires :
    acquire_native_session_turn one 30 identity 9 "new" (before AttemptStatus.failed) ≡ ok acquired
unfolding acquire_native_session_turn update_leases is_blank ◌>>=◌
acquires = refl

next_token : acquired.0.fencing_token ≡ 5
unfolding acquire_native_session_turn update_leases is_blank ◌>>=◌
next_token = refl

-- While attempt 6 runs, nobody else gets the turn.
held :
    acquire_native_session_turn one 30 identity 9 "new" (before AttemptStatus.running)
    ≡ err (conflict Conflict.held_by_other)
unfolding acquire_native_session_turn is_blank ◌>>=◌
held = refl

acquire_native_session_turn-exclusive_example :
    (lease_of 1 acquired.1 ≡ some acquired.0)
    × (LeaseStatus.is_active acquired.0.status ≡ true)
    × (is_held_by 9 "new" acquired.0 ≡ true)
    × ((now' : ℕ) → acquire_native_session_turn one now' identity 9 "new" acquired.1 ≡ ok acquired)
    × ((now' attempt' : ℕ) (owner' : String)
        → is_blank owner' ≡ false
        → is_held_by attempt' owner' acquired.0 ≡ false
        → holder_over (attempt_of acquired.0.owner_attempt_id acquired.1) ≡ false
        → acquire_native_session_turn one now' identity attempt' owner' acquired.1
          ≡ err (conflict Conflict.held_by_other))
unfolding is_blank
acquire_native_session_turn-exclusive_example =
    acquire_native_session_turn-exclusive one 30 identity 9 "new" (before AttemptStatus.failed)
      acquired refl acquires

acquire_native_session_turn-fences_example :
    (acquired.0.fencing_token ≡ 5)
    × ((now' attempt' : ℕ) (owner' : String) (token : ℕ)
        → token ≤ 4
        → release_native_session_turn now' 1 attempt' owner' token acquired.1
          ≡ err (conflict Conflict.lease_stale))
acquire_native_session_turn-fences_example =
    acquire_native_session_turn-fences one 30 identity 9 "new" (before AttemptStatus.failed)
      acquired lease acquired.1 refl refl acquires (Evolves-refl acquired.1)
