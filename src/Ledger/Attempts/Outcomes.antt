-- ===== src/Ledger/Attempts/Outcomes.antt =====
-- `create_attempt`: how an attempt is numbered.
use multiverse.Base.{
  ℕ, ◌+◌, ◌<◌, ◌≤◌, ◌≡◌, ◌∙◌, ap, sym, subst, refl, ◌&&◌, ◌||◌, Option, none, some, List, [], ◌∷◌,
  arith, ◌==◌, All, select, select-append_new, exists-false_or,
}
use multiverse.Ledger.Status.AttemptStatus.{AttemptStatus}
use multiverse.Ledger.Schema.{EventPayload, Attempt}
use multiverse.Ledger.Tx.Monad.{ok, gets}
use multiverse.Ledger.Tx.Inversion.{bind-ok, read-ok}
use multiverse.Ledger.Tx.Database.{Db, insert_attempt, event}
use multiverse.Ledger.Queries.{attempt_of, get_attempt}
use multiverse.Ledger.Attempts.{create_attempt, max_attempt_no}

pub max_attempt_no-bound :
    (k : ℕ) (t : List Attempt)
    → All (λ (a : Attempt). a.invocation_id ≡ k → a.attempt_no < max_attempt_no k t + 1) t
unfolding max_attempt_no
max_attempt_no-bound k t = below k t (max_attempt_no k t) (omega arith)
  where
    below :
        (i : ℕ) (u : List Attempt) (n : ℕ)
        → max_attempt_no i u ≤ n
        → All (λ (a : Attempt). a.invocation_id ≡ i → a.attempt_no < n + 1) u
    below i [] n h = tt
    below i (a ∷ u) n h = (λ same. ground arith, below i u n (ground arith))

pub insert_attempt-new :
    (x : Attempt) (s : Db) (r : (Unit {0}) × Db)
    → insert_attempt x s ≡ ok r
    → attempt_of x.id r.1 ≡ some x
unfolding insert_attempt
insert_attempt-new x s r e =
    let free =
      exists-false_or (λ (o : Attempt). o.id == x.id)
        (λ o.
          o.dispatch_key == x.dispatch_key
          || o.invocation_id == x.invocation_id && o.attempt_no == x.attempt_no)
        s.attempts in
    let key = λ (o : Attempt). o.id in ground (arith, free, select-append_new key x.id s.attempts x)

pub event-attempts :
    (now k : ℕ) (payload : EventPayload) (scope invocation attempt : Option ℕ) (s : Db)
    (r : (Unit {0}) × Db)
    → event now k payload scope invocation attempt s ≡ ok r
    → r.1.attempts ≡ s.attempts
unfolding event
event-attempts now k payload scope invocation attempt s r e = ground arith

-- A new attempt that is created without a number of its own gets one above those of all the
-- attempts of its invocation so far, and starts as created, at version 1.
pub create_attempt-numbers :
    (digest : ℕ → ℕ) (now new k input dispatch effect : ℕ) (s : Db) (r : Option Attempt × Db)
    → create_attempt digest now new k input dispatch effect none s ≡ ok r
    → (a : Attempt) × (r.0 ≡ some a)
      × (a.invocation_id ≡ k)
      × (a.status ≡ AttemptStatus.created)
      × (a.version ≡ 1)
      × All (λ (b : Attempt). b.invocation_id ≡ k → b.attempt_no < a.attempt_no) s.attempts
unfolding create_attempt get_attempt gets
create_attempt-numbers digest now new k input dispatch effect s r e =
    let (i, found, f1) = read-ok _ _ _ s r e in
    let (last, s1, e1, f2) = bind-ok _ _ s r f1 in
    let (_, s2, e2, f3) = bind-ok _ _ s1 r f2 in
    let (_, s3, e3, f4) = bind-ok _ _ s2 r f3 in
    let here = insert_attempt-new _ s1 (_, s2) e2 in
    let same = event-attempts _ _ _ _ _ _ s2 (_, s3) e3 in
    let top : last ≡ max_attempt_no k s.attempts = ground (arith, e1) in
    (
      _,
      ground (arith, f4) ∙ ap (select (λ (a : Attempt). a.id == new)) same ∙ here,
      refl,
      refl,
      refl,
      subst (λ n. All (λ (b : Attempt). b.invocation_id ≡ k → b.attempt_no < n + 1) s.attempts)
          (sym top) (max_attempt_no-bound k s.attempts),
    )
