-- ===== src/Ledger/Leases/Exclusive.antt =====
-- One writer at a time: what an acquisition leaves, and who is turned away.
use multiverse.Base.{
  ℕ, ◌+◌, String, ◌≡◌, refl, true, false, ◌&&◌, Option, none, some, arith, ◌==◌, select,
  select-append_new, subst, sym, ap, ◌∙◌, eq_iff, if◌then◌else◌, Bool-cases, inl, inr, select-key,
  is_blank, same_found, [], ◌∷◌, ◌++◌, exists_where,
}
use multiverse.Ledger.Status.LeaseStatus
use multiverse.Ledger.Status.LeaseStatus.{LeaseStatus}
use multiverse.Ledger.Schema.{SessionIdentity, TurnLease}
use multiverse.Ledger.Tx.Monad.{Conflict, conflict, ok, err, ◌>>=◌}
use multiverse.Ledger.Tx.Database.{Db}
use multiverse.Ledger.Tx.Dialogue.{insert_lease}
use multiverse.Ledger.Tx.Inversion.{
  bind-ok, check-ok, gets-ok, then-ok, else-ok, pure-ok, pure-value,
}
use multiverse.Ledger.Queries.{attempt_of}
use multiverse.Ledger.Leases.{
  lease_of, new_lease, is_incomplete, is_held_by, holder_over, stored_lease, take_over,
  acquire_from, acquire_native_session_turn, released, taken,
}
use multiverse.Ledger.Leases.Evolution.{lease_of-update, evict-ok}

-- The token that an acquisition hands out, after the row that it has found.
abbrev pub token_after : ℕ → String → Option TurnLease → ℕ
token_after attempt owner none = 1
token_after attempt owner (some row) =
    if LeaseStatus.is_active row.status && is_held_by attempt owner row
    then row.fencing_token
    else row.fencing_token + 1

-- What an acquisition leaves.
pub record Acquired (k attempt : ℕ) (owner : String) (o : Option TurnLease) (r : TurnLease × Db)
    : Type 0 where
  pub here : lease_of k r.1 ≡ some r.0
  pub active : LeaseStatus.is_active r.0.status ≡ true
  pub held : is_held_by attempt owner r.0 ≡ true
  pub token : r.0.fencing_token ≡ token_after attempt owner o

stored_lease-ok :
    (k : ℕ) (s : Db) (r : TurnLease × Db) → stored_lease k s ≡ ok r → lease_of k r.1 ≡ some r.0
unfolding stored_lease ◌>>=◌
stored_lease-ok k s r e = ground arith

stored_lease-same : (k : ℕ) (s : Db) (r : TurnLease × Db) → stored_lease k s ≡ ok r → s ≡ r.1
unfolding stored_lease ◌>>=◌
stored_lease-same k s r e = ground arith

insert_lease-ok :
    (l : TurnLease) (s : Db) (r : Unit {0} × Db)
    → insert_lease l s ≡ ok r
    → (exists_where (λ (o : TurnLease). o.id == l.id) s.dialogue.leases ≡ false)
      × (r.1.dialogue.leases ≡ s.dialogue.leases ++ l ∷ [])
unfolding insert_lease
insert_lease-ok l s r e = ground arith

take_over-ok :
    (now k token attempt : ℕ) (owner : String) (x : TurnLease) (s : Db) (r : TurnLease × Db)
    → lease_of k s ≡ some x
    → LeaseStatus.is_released x.status ≡ true
    → take_over now k token attempt owner s ≡ ok r
    → (lease_of k r.1 ≡ some r.0) × (r.0 ≡ taken now (token + 1) attempt owner x)
unfolding take_over
take_over-ok now k token attempt owner x s r found free e =
    let (n, s1, e1, f1) = bind-ok _ _ s r e in
    let at = lease_of-update k _ _ s (n, s1) (λ l. refl) e1 in
    let own = select-key (λ (l : TurnLease). l.id) k s.dialogue.leases x found in
    let fits : lease_of k s1 ≡ some (taken now (token + 1) attempt owner x) =
      ground (arith, at, found, free, own) in
    let here = stored_lease-ok k s1 r f1 in
    let same = stored_lease-same k s1 r f1 in
    let there =
      subst (λ t. lease_of k t ≡ some (taken now (token + 1) attempt owner x)) same fits in
    (here, same_found (lease_of k r.1) r.0 (taken now (token + 1) attempt owner x) here there)

module _ (now k : ℕ) (identity : SessionIdentity) (attempt : ℕ) (owner : String) (s : Db) where
  taken-Acquired :
      (o : Option TurnLease) (token : ℕ) (x : TurnLease) (r : TurnLease × Db)
      → token + 1 ≡ token_after attempt owner o
      → (lease_of k r.1 ≡ some r.0) × (r.0 ≡ taken now (token + 1) attempt owner x)
      → Acquired k attempt owner o r
  taken-Acquired o token x r n h = record {
    here = h.0;
    active = ap (λ l. LeaseStatus.is_active l.status) h.1;
    held = ap (is_held_by attempt owner) h.1 ∙ ground (arith, eq_iff owner owner);
    token = ap (λ l. l.fencing_token) h.1 ∙ n;
  }

  acquire_from-Acquired :
      (o : Option TurnLease) (r : TurnLease × Db)
      → lease_of k s ≡ o
      → acquire_from now k identity attempt owner o s ≡ ok r
      → Acquired k attempt owner o r
  unfolding acquire_from
  acquire_from-Acquired none r missing e =
      let (u, s1, e1, f1) = bind-ok _ _ s r e in
      let (absent, rows) = insert_lease-ok _ s (u, s1) e1 in
      let fits : lease_of k s1 ≡ some (new_lease now k identity attempt owner) =
        ap (select (λ (l : TurnLease). l.id == k)) rows
        ∙ select-append_new (λ (l : TurnLease). l.id) k s.dialogue.leases
            (new_lease now k identity attempt owner) absent refl in
      let here = stored_lease-ok k s1 r f1 in
      let there =
        subst (λ t. lease_of k t ≡ some (new_lease now k identity attempt owner))
          (stored_lease-same k s1 r f1) fits in
      let same = same_found (lease_of k r.1) r.0 _ here there in
      record {
        here = here;
        active = ap (λ l. LeaseStatus.is_active l.status) same;
        held = ap (is_held_by attempt owner) same ∙ ground (arith, eq_iff owner owner);
        token = ap (λ l. l.fencing_token) same;
      }
  acquire_from-Acquired (some row) r found e =
      elim (Bool-cases (LeaseStatus.is_active row.status)) [
        | inr free ↦ taken-Acquired (some row) row.fencing_token row r (ground (arith, free)) (
            take_over-ok now k row.fencing_token attempt owner row s r found (ground (arith, free))
              (else-ok _ _ _ s r free e))
        | inl busy ↦ elim (Bool-cases (is_held_by attempt owner row)) [
          | inl own ↦
              let kept = then-ok _ _ _ s r own (then-ok _ _ _ s r busy e) in
              let same = pure-ok row s r kept in
              let value = pure-value row s r kept in
              record {
                here = subst (λ t. lease_of k t ≡ some r.0) same (found ∙ ap some value);
                active = rw (sym value) busy;
                held = rw (sym value) own;
                token = rw (busy, own, sym value) refl;
              }
          | inr other ↦
              let (u, s1, e1, f1) =
                bind-ok _ _ s r (else-ok _ _ _ s r other (then-ok _ _ _ s r busy e)) in
              taken-Acquired (some row) row.fencing_token (released now row) r
                (rw (busy, other) refl)
                (take_over-ok now k row.fencing_token attempt owner (released now row) s1 r
                  (evict-ok s now k row (u, s1) found busy e1) refl f1)
        ]
      ]

pub acquire-parts :
    (digest : SessionIdentity → ℕ) (now : ℕ) (identity : SessionIdentity) (attempt : ℕ)
    (owner : String) (s : Db) (r : TurnLease × Db)
    → acquire_native_session_turn digest now identity attempt owner s ≡ ok r
    → (is_incomplete identity ≡ false)
      × Acquired (digest identity) attempt owner (lease_of (digest identity) s) r
unfolding acquire_native_session_turn
acquire-parts digest now identity attempt owner s r e =
    let (complete, f1) = check-ok _ _ _ s r e in
    let (named, f2) = check-ok _ _ _ s r f1 in
    (
      complete,
      acquire_from-Acquired now (digest identity) identity attempt owner s
          (lease_of (digest identity) s) r refl (gets-ok _ _ s r f2),
    )

module _ (digest : SessionIdentity → ℕ) (now : ℕ) (identity : SessionIdentity) (attempt : ℕ)
    (owner : String) (t : Db) (l : TurnLease) (complete : is_incomplete identity ≡ false)
    (named : is_blank owner ≡ false) (here : lease_of (digest identity) t ≡ some l)
    (active : LeaseStatus.is_active l.status ≡ true) where
  keeps_own :
      is_held_by attempt owner l ≡ true
      → acquire_native_session_turn digest now identity attempt owner t ≡ ok (l, t)
  unfolding acquire_native_session_turn ◌>>=◌
  keeps_own own = rw (complete, named, here, acquire_from, active, own) refl

  turned_away :
      is_held_by attempt owner l ≡ false
      → holder_over (attempt_of l.owner_attempt_id t) ≡ false
      → acquire_native_session_turn digest now identity attempt owner t
        ≡ err (conflict Conflict.held_by_other)
  unfolding acquire_native_session_turn ◌>>=◌
  turned_away other alive = ground (arith, complete, named, here, active, other, alive)

-- The turn of a native session has one writer. After an acquisition the lease of the session is
-- active and in the hands of the caller; as long as nothing else is written, the same call again
-- gives the same lease and writes nothing, and a call for the session by any other attempt or
-- owner, with an owner's token that is not blank, is turned away while the attempt of the holder has
-- not ended. The owner's token of the caller must not be blank.
pub acquire_native_session_turn-exclusive :
    (digest : SessionIdentity → ℕ) (now : ℕ) (identity : SessionIdentity) (attempt : ℕ)
    (owner : String) (s : Db) (r : TurnLease × Db)
    → is_blank owner ≡ false
    → acquire_native_session_turn digest now identity attempt owner s ≡ ok r
    → (lease_of (digest identity) r.1 ≡ some r.0)
      × (LeaseStatus.is_active r.0.status ≡ true)
      × (is_held_by attempt owner r.0 ≡ true)
      × ((now' : ℕ) → acquire_native_session_turn digest now' identity attempt owner r.1 ≡ ok r)
      × ((now' attempt' : ℕ) (owner' : String)
          → is_blank owner' ≡ false
          → is_held_by attempt' owner' r.0 ≡ false
          → holder_over (attempt_of r.0.owner_attempt_id r.1) ≡ false
          → acquire_native_session_turn digest now' identity attempt' owner' r.1
            ≡ err (conflict Conflict.held_by_other))
acquire_native_session_turn-exclusive digest now identity attempt owner s r named e =
    let (complete, a) = acquire-parts digest now identity attempt owner s r e in
    (
      a.here,
      a.active,
      a.held,
      (λ now'.
          keeps_own digest now' identity attempt owner r.1 r.0 complete named a.here a.active
            a.held),
      λ now' attempt' owner' named' other alive.
          turned_away digest now' identity attempt' owner' r.1 r.0 complete named' a.here a.active
            other alive,
    )
