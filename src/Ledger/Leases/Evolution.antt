-- ===== src/Ledger/Leases/Evolution.antt =====
-- The methods on turn leases keep the ledger valid and move it as promised.
use multiverse.Base.{
  ℕ, ◌≤◌, String, ◌≡◌, refl, Bool, true, Option, none, some, arith, ◌==◌, select, select-update,
  update_where, subst, ap, ◌∙◌, updated, eq_iff, select-key,
}
use multiverse.Ledger.Status.LeaseStatus
use multiverse.Ledger.Status.LeaseStatus.{LeaseStatus}
use multiverse.Ledger.Schema.{SessionIdentity, TurnLease}
use multiverse.Ledger.Tx.Monad.{ok}
use multiverse.Ledger.Tx.Database.{Db}
use multiverse.Ledger.Tx.Dialogue.{update_leases}
use multiverse.Ledger.Tx.Inversion.{bind-ok, check-ok, gets-ok, pure-ok}
use multiverse.Ledger.Dialogue.{LeaseMoves}
use multiverse.Ledger.Evolution.{Keeps}
use multiverse.Ledger.Evolution.Rules.{
  Keeps-pure, Keeps-gets, Keeps-branch, Keeps-raise_if, Keeps-or_raise, Keeps-read, Keeps-required,
  Keeps-bind, Keeps-insert_lease, Keeps-update_lease_guarded, Keeps-update_leases,
}
use multiverse.Ledger.Leases.{
  lease_of, stored_lease, take_over, evict, acquire_from, acquire_native_session_turn, released,
  release_native_session_turn, release_row, release_native_session_turn_for_attempt,
}

stored_lease-Keeps : (s : Db) (k : ℕ) → Keeps (stored_lease k) s
unfolding stored_lease
stored_lease-Keeps s k = Keeps-read s _ _ (Keeps-required s _ _)

take_over-Keeps :
    (s : Db) (now k token attempt : ℕ) (owner : String) (x : TurnLease)
    → lease_of k s ≡ some x
    → x.fencing_token ≤ token
    → Keeps (take_over now k token attempt owner) s
unfolding take_over
take_over-Keeps s now k token attempt owner x found h =
    Keeps-update_lease_guarded s k _ x _ _ found (λ l. refl) (λ e. ground arith)
      (stored_lease-Keeps _ k)

-- A lease that is released stays the lease of its owner.
released-Moves : (now : ℕ) (l : TurnLease) → LeaseMoves l (released now l)
released-Moves now l = ground arith

evict-Keeps : (s : Db) (now k : ℕ) (row : TurnLease) → Keeps (evict now k row) s
unfolding evict
evict-Keeps s now k row = Keeps-read s _ _ (
    Keeps-raise_if s _ _ _
      λ _. Keeps-update_leases s _ _ _ (λ l e. released-Moves now l) (Keeps-pure _ _))

update_leases-ok :
    (p : TurnLease → Bool) (f : TurnLease → TurnLease) (s : Db) (r : ℕ × Db)
    → update_leases p f s ≡ ok r
    → r.1.dialogue.leases ≡ update_where p f s.dialogue.leases
unfolding update_leases
update_leases-ok p f s r e = ground arith

-- A lookup after an update.
pub lease_of-update :
    (k : ℕ) (p : TurnLease → Bool) (f : TurnLease → TurnLease) (s : Db) (r : ℕ × Db)
    → ((l : TurnLease) → (f l).id ≡ l.id)
    → update_leases p f s ≡ ok r
    → lease_of k r.1 ≡ updated p f (lease_of k s)
lease_of-update k p f s r same e =
    ap (select (λ (l : TurnLease). l.id == k)) (update_leases-ok p f s r e)
    ∙ select-update (λ (l : TurnLease). l.id) k p f same s.dialogue.leases

-- What an eviction makes of the lease.
pub evict-ok :
    (s : Db) (now k : ℕ) (row : TurnLease) (r : Unit {0} × Db)
    → lease_of k s ≡ some row
    → LeaseStatus.is_active row.status ≡ true
    → evict now k row s ≡ ok r
    → lease_of k r.1 ≡ some (released now row)
unfolding evict
evict-ok s now k row r found held e =
    let (c, f0) = check-ok _ _ _ s r (gets-ok _ _ s r e) in
    let (n, s1, e1, f1) = bind-ok _ _ s r f0 in
    let at = lease_of-update k _ _ s (n, s1) (λ l. refl) e1 in
    let own = select-key (λ (l : TurnLease). l.id) k s.dialogue.leases row found in
    let fits : lease_of k s1 ≡ some (released now row) =
      ground (arith, at, found, held, own, eq_iff row.owner_token row.owner_token) in
    subst (λ t. lease_of k t ≡ some (released now row)) (pure-ok tt s1 r f1) fits

module _ (s : Db) (now k : ℕ) (identity : SessionIdentity) (attempt : ℕ) (owner : String) where
  acquire_from-Keeps :
      (o : Option TurnLease)
      → lease_of k s ≡ o
      → Keeps (acquire_from now k identity attempt owner o) s
  unfolding acquire_from
  acquire_from-Keeps none e = Keeps-insert_lease s _ _ (stored_lease-Keeps _ k)
  acquire_from-Keeps (some row) e =
      Keeps-branch s _ _ _
        (λ held.
          Keeps-branch s _ _ _ (λ _. Keeps-pure s row)
            (λ _. Keeps-bind s _ _ (evict-Keeps s now k row) λ u t r.
              take_over-Keeps t now k row.fencing_token attempt owner (released now row)
                (evict-ok s now k row (u, t) e held r) (ground arith)))
        (λ _. take_over-Keeps s now k row.fencing_token attempt owner row e (ground arith))

pub acquire_native_session_turn-Keeps :
    (s : Db) (digest : SessionIdentity → ℕ) (now : ℕ) (identity : SessionIdentity) (attempt : ℕ)
    (owner : String)
    → Keeps (acquire_native_session_turn digest now identity attempt owner) s
unfolding acquire_native_session_turn
acquire_native_session_turn-Keeps s digest now identity attempt owner = Keeps-raise_if s _ _ _ λ _.
    Keeps-raise_if s _ _ _ λ _. Keeps-read s _ _ (
      acquire_from-Keeps s now (digest identity) identity attempt owner
        (lease_of (digest identity) s) refl)

pub release_native_session_turn-Keeps :
    (s : Db) (now k attempt : ℕ) (owner : String) (token : ℕ)
    → Keeps (release_native_session_turn now k attempt owner token) s
unfolding release_native_session_turn
release_native_session_turn-Keeps s now k attempt owner token = Keeps-read s _ _ (
    Keeps-or_raise s _ _ _ λ row _.
      Keeps-raise_if s _ _ _
        λ _. Keeps-update_leases s _ _ _ (λ l e. released-Moves now l) (Keeps-gets _ _))

release_row-Keeps :
    (s : Db) (now attempt : ℕ) (o : Option TurnLease) → Keeps (release_row now attempt o) s
unfolding release_row
release_row-Keeps s now attempt none = Keeps-pure s _
release_row-Keeps s now attempt (some row) =
    Keeps-update_leases s _ _ _ (λ l e. released-Moves now l) (Keeps-gets _ _)

pub release_native_session_turn_for_attempt-Keeps :
    (s : Db) (now attempt : ℕ) → Keeps (release_native_session_turn_for_attempt now attempt) s
unfolding release_native_session_turn_for_attempt
release_native_session_turn_for_attempt-Keeps s now attempt =
    Keeps-read s _ _ (release_row-Keeps s now attempt _)
