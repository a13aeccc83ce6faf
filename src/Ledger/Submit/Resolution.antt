-- ===== src/Ledger/Submit/Resolution.antt =====
-- `resolve_unknown_submit`: what an operator's finding does to the attempt.
use multiverse.Base.{
  ℕ, ◌+◌, String, ◌≡◌, ◌∙◌, ap, subst, refl, Bool, true, false, ◌&&◌, some, arith, ◌==◌,
  found-update, same_found, update_where,
}
use multiverse.Ledger.Status.OutboxStatus
use multiverse.Ledger.Status.OutboxStatus.{OutboxStatus}
use multiverse.Ledger.Status.AttemptStatus.{AttemptStatus}
use multiverse.Ledger.Schema.{Outbox, Invocation, Attempt, Run, EventPayload}
use multiverse.Ledger.Tx.Monad.{ok, ◌>>=◌, ◌>>◌}
use multiverse.Ledger.Tx.Inversion.{bind-ok, check-ok, read-ok, else-ok}
use multiverse.Ledger.Tx.Database.{
  Db, update_outbox, update_attempts, update_invocations, update_runs, event,
}
use multiverse.Ledger.Queries.{outbox_of, attempt_of}
use multiverse.Ledger.Submit.{outbox_by_id}
use multiverse.Ledger.Submit.Outcomes.{resolve_unknown_submit, resubmit, unblock_run}

-- The end of a resolution leaves the attempts alone.
unblock-attempts :
    (now k : ℕ) (row : Outbox) (payload : EventPayload) (run : Run) (s : Db) (r : Outbox × Db)
    → unblock_run now run
        (event now row.run_id payload
            (some row.scope_id)
            (some row.invocation_id)
            (some row.attempt_id)
          >> outbox_by_id k)
        s
      ≡ ok r
    → r.1.attempts ≡ s.attempts
unfolding unblock_run update_runs event outbox_by_id ◌>>=◌
unblock-attempts now k row payload run s r e = ground arith

outbox-attempts :
    (p : Outbox → Bool) (f : Outbox → Outbox) (s : Db) (r : ℕ × Db)
    → update_outbox p f s ≡ ok r
    → r.1.attempts ≡ s.attempts
unfolding update_outbox
outbox-attempts p f s r e = ground arith

invocations-attempts :
    (p : Invocation → Bool) (f : Invocation → Invocation) (s : Db) (r : ℕ × Db)
    → update_invocations p f s ≡ ok r
    → r.1.attempts ≡ s.attempts
unfolding update_invocations
invocations-attempts p f s r e = ground arith

attempts-updated :
    (p : Attempt → Bool) (f : Attempt → Attempt) (s : Db) (r : ℕ × Db)
    → update_attempts p f s ≡ ok r
    → r.1.attempts ≡ update_where p f s.attempts
unfolding update_attempts
attempts-updated p f s r e = ground arith

abbrev resubmitted : ℕ → String → Attempt → Attempt
resubmitted now ref a = record a {
  external_ref = some ref;
  status = AttemptStatus.submitted;
  version = a.version + 1;
  updated_at = now;
}

resubmit-attempts :
    (now k : ℕ) (ref : String) (evidence : ℕ) (row : Outbox) (s : Db) (r : Outbox × Db)
    → resubmit now k ref evidence row s ≡ ok r
    → r.1.attempts ≡ update_where (λ x. x.id == row.attempt_id) (resubmitted now ref) s.attempts
unfolding resubmit
resubmit-attempts now k ref evidence row s r e =
    let (b, _, f1) = read-ok _ _ _ s r e in
    let (_, f2) = check-ok _ _ _ s r f1 in
    let (_, s2, e2, f3) = bind-ok _ _ s r f2 in
    let (i, _, f4) = read-ok _ _ _ s2 r f3 in
    let (_, s3, e3, f5) = bind-ok _ _ s2 r f4 in
    let (run, _, f6) = read-ok _ _ _ s3 r f5 in
    unblock-attempts now k row _ run s3 r f6
    ∙ invocations-attempts _ _ s2 (_, s3) e3
    ∙ attempts-updated _ _ s (_, s2) e2

resolve-attempts :
    (now k : ℕ) (ref : String) (evidence : ℕ) (s : Db) (row : Outbox) (r : Outbox × Db)
    → outbox_of k s ≡ some row
    → row.status ≡ OutboxStatus.unknown
    → resolve_unknown_submit now k ref evidence true s ≡ ok r
    → r.1.attempts ≡ update_where (λ x. x.id == row.attempt_id) (resubmitted now ref) s.attempts
unfolding resolve_unknown_submit
resolve-attempts now k ref evidence s row r there unknown e =
    let (_, f1) = check-ok _ _ _ s r e in
    let (_, f2) = check-ok _ _ _ s r f1 in
    let (row', there', f3) = read-ok _ _ _ s r f2 in
    let same : row' ≡ row = same_found (outbox_of k s) row' row there' there in
    let f4 =
      else-ok _ _ _ s r (not_yet row'.status _ (ap (λ (o : Outbox). o.status) same ∙ unknown)) f3 in
    let (_, f5) = check-ok _ _ _ s r f4 in
    let (_, s1, e1, f6) = bind-ok _ _ s r f5 in
    subst
      (λ (o : Outbox).
        r.1.attempts ≡ update_where (λ x. x.id == o.attempt_id) (resubmitted now ref) s.attempts)
      same
      (resubmit-attempts now k ref evidence row' s1 r f6
        ∙ ap (update_where (λ x. x.id == row'.attempt_id) (resubmitted now ref))
            (outbox-attempts _ _ s (_, s1) e1))
  where
    not_yet :
        (st : OutboxStatus) (b : Bool)
        → st ≡ OutboxStatus.unknown
        → OutboxStatus.is_submitted st && b ≡ false
    not_yet st b h = ground arith

-- A resolution of an unknown submission that succeeds leaves its attempt submitted, with the
-- reference that was found and the next version, whatever the attempt's status was, and leaves its
-- reconciliation as it was.
pub resolve_unknown_submit-reopens :
    (now k : ℕ) (ref : String) (evidence : ℕ) (s : Db) (row : Outbox) (a : Attempt)
    (r : Outbox × Db)
    → outbox_of k s ≡ some row
    → row.status ≡ OutboxStatus.unknown
    → attempt_of row.attempt_id s ≡ some a
    → resolve_unknown_submit now k ref evidence true s ≡ ok r
    → (a' : Attempt) × (attempt_of row.attempt_id r.1 ≡ some a')
      × (a'.status ≡ AttemptStatus.submitted)
      × (a'.external_ref ≡ some ref)
      × (a'.version ≡ a.version + 1)
      × (a'.reconciliation ≡ a.reconciliation)
resolve_unknown_submit-reopens now k ref evidence s row a r there unknown a_there e = (
  resubmitted now ref a,
  found-update (λ (x : Attempt). x.id) row.attempt_id (resubmitted now ref) (λ x. refl) s.attempts
      r.1.attempts a (resolve-attempts now k ref evidence s row r there unknown e) a_there,
  refl,
  refl,
  refl,
  refl,
)
