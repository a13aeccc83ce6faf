-- ===== src/Ledger/Listings/Latest.antt =====
-- `latest_attempt` after `create_attempt`.
use multiverse.Base.{
  ℕ, ◌+◌, ◌<◌, ◌≡◌, ◌∙◌, ap, sym, subst, refl, Option, none, some, List, [], ◌∷◌, ◌++◌, arith, ◌==◌,
  All, select,
}
use multiverse.Ledger.Schema.{Attempt}
use multiverse.Ledger.Tx.Monad.{ok, gets}
use multiverse.Ledger.Tx.Inversion.{bind-ok, read-ok}
use multiverse.Ledger.Tx.Database.{Db, insert_attempt}
use multiverse.Ledger.Queries.{get_attempt}
use multiverse.Ledger.Attempts.{create_attempt, max_attempt_no}
use multiverse.Ledger.Attempts.Outcomes.{max_attempt_no-bound, insert_attempt-new, event-attempts}
use multiverse.Ledger.Listings.{highest, latest_attempt}

-- A last row with a number above the others of its invocation is the highest.
highest-append :
    (k : ℕ) (t : List Attempt) (a : Attempt)
    → a.invocation_id ≡ k
    → All (λ (b : Attempt). b.invocation_id ≡ k → b.attempt_no < a.attempt_no) t
    → highest k (t ++ a ∷ []) ≡ some a
highest-append k [] a same above = ground arith
highest-append k (b ∷ t) a same above = ground (arith, highest-append k t a same above.1, above.0)

insert_attempt-ok :
    (x : Attempt) (s : Db) (r : (Unit {0}) × Db)
    → insert_attempt x s ≡ ok r
    → r.1.attempts ≡ s.attempts ++ x ∷ []
unfolding insert_attempt
insert_attempt-ok x s r e = ground arith

-- After a new attempt was created without a number of its own, it is the latest attempt of its
-- invocation: the read answers the very row that the creation has returned, and changes nothing.
pub create_attempt-latest :
    (digest : ℕ → ℕ) (now new k input dispatch effect : ℕ) (s : Db) (r : Option Attempt × Db)
    → create_attempt digest now new k input dispatch effect none s ≡ ok r
    → (a : Attempt) × (r.0 ≡ some a) × (latest_attempt k r.1 ≡ ok (some a, r.1))
unfolding create_attempt get_attempt gets latest_attempt
create_attempt-latest digest now new k input dispatch effect s r e =
    let (i, found, f1) = read-ok _ _ _ s r e in
    let (last, s1, e1, f2) = bind-ok _ _ s r f1 in
    let (_, s2, e2, f3) = bind-ok _ _ s1 r f2 in
    let (_, s3, e3, f4) = bind-ok _ _ s2 r f3 in
    let here = insert_attempt-new _ s1 (_, s2) e2 in
    let same = event-attempts _ _ _ _ _ _ s2 (_, s3) e3 in
    let rows = insert_attempt-ok _ s1 (_, s2) e2 in
    let top : last ≡ max_attempt_no k s1.attempts = ground (arith, e1) in
    let end : s3 ≡ r.1 = ground (arith, f4) in
    let above =
      subst (λ n. All (λ (b : Attempt). b.invocation_id ≡ k → b.attempt_no < n + 1) s1.attempts)
        (sym top) (max_attempt_no-bound k s1.attempts) in
    let latest = ap (highest k) (same ∙ rows) ∙ highest-append k s1.attempts _ refl above in
    (
      _,
      ground (arith, f4) ∙ ap (select (λ (a : Attempt). a.id == new)) same ∙ here,
      ap (λ o. ok (o, r.1)) (ap (λ (d : Db). highest k d.attempts) (sym end) ∙ latest),
    )
