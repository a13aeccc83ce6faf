-- ===== src/Ledger/Leases/Fencing.antt =====
-- Fencing: a token that was handed out before the present one is of no use any more.
use multiverse.Base.{
  ℕ, ◌+◌, ◌<◌, ◌≤◌, String, ◌≡◌, false, ◌&&◌, some, arith, Grows-select, ap, ◌∙◌, Bool-cases, inl,
  inr,
}
use multiverse.Ledger.Status.LeaseStatus
use multiverse.Ledger.Schema.{SessionIdentity, TurnLease}
use multiverse.Ledger.Tx.Monad.{Conflict, conflict, ok, err, ◌>>=◌}
use multiverse.Ledger.Tx.Database.{Db}
use multiverse.Ledger.Dialogue.{LeaseMoves}
use multiverse.Ledger.Evolution.{Evolves}
use multiverse.Ledger.Leases.{
  lease_of, is_held_by, acquire_native_session_turn, release_native_session_turn,
}
use multiverse.Ledger.Leases.Exclusive.{token_after, acquire-parts}

stale :
    (now k attempt : ℕ) (owner : String) (token : ℕ) (t : Db) (l : TurnLease)
    → lease_of k t ≡ some l
    → token < l.fencing_token
    → release_native_session_turn now k attempt owner token t ≡ err (conflict Conflict.lease_stale)
unfolding release_native_session_turn ◌>>=◌
stale now k attempt owner token t l here less = elim (Bool-cases (LeaseStatus.is_active l.status)) [
  | inl busy ↦ ground (arith, here, busy)
  | inr free ↦ ground (arith, here, free)
]

-- An acquisition that takes the turn from a lease which the caller does not hold gets the next
-- fencing token, and in every state that transactions lead to from there, a release with an earlier
-- token, for any attempt and owner, is rejected as stale.
pub acquire_native_session_turn-fences :
    (digest : SessionIdentity → ℕ) (now : ℕ) (identity : SessionIdentity) (attempt : ℕ)
    (owner : String) (s : Db) (r : TurnLease × Db) (row : TurnLease) (t : Db)
    → lease_of (digest identity) s ≡ some row
    → (LeaseStatus.is_active row.status && is_held_by attempt owner row) ≡ false
    → acquire_native_session_turn digest now identity attempt owner s ≡ ok r
    → Evolves r.1 t
    → (r.0.fencing_token ≡ row.fencing_token + 1)
      × ((now' attempt' : ℕ) (owner' : String) (token : ℕ)
          → token ≤ row.fencing_token
          → release_native_session_turn now' (digest identity) attempt' owner' token t
            ≡ err (conflict Conflict.lease_stale))
acquire_native_session_turn-fences digest now identity attempt owner s r row t found other e later =
    let (complete, a) = acquire-parts digest now identity attempt owner s r e in
    let next : r.0.fencing_token ≡ row.fencing_token + 1 =
      a.token ∙ ap (token_after attempt owner) found ∙ ground (arith, other) in
    let (l, here, moved) =
      Grows-select LeaseMoves (λ (x : TurnLease). x.id) (λ x y m. m.same_id) (digest identity)
        r.1.dialogue.leases t.dialogue.leases r.0 later.dialogue.leases a.here in
    (
      next,
      λ now' attempt' owner' token h.
          stale now' (digest identity) attempt' owner' token t l here
            (omega (arith, next, moved.token_grows)),
    )
