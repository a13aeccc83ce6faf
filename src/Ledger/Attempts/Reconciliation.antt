-- ===== src/Ledger/Attempts/Reconciliation.antt =====
-- `reconcile_attempt`: an unknown outcome is settled once.
use multiverse.Base.{
  ℕ, ◌+◌, String, ◌≡◌, ◌≢◌, ◌∙◌, ap, refl, Bool, true, false, Option, none, some, List, arith, ◌==◌,
  select, select-key, select-update, update_where, updated,
}
use multiverse.Ledger.Status.AttemptStatus
use multiverse.Ledger.Status.AttemptStatus.{AttemptStatus}
use multiverse.Ledger.Schema.{Run, Wait, WaitKey, Attempt, Conclusion, Reconciliation, OutputJson}
use multiverse.Ledger.Tx.Monad.{ok, gets, or_raise, branch, pure, Error, Entity, ◌>>=◌, ◌>>◌}
use multiverse.Ledger.Tx.Inversion.{bind-ok, check-ok, read-ok}
use multiverse.Ledger.Tx.Database.{Db, update_attempts, update_waits, insert_wait}
use multiverse.Ledger.Queries.{run_of, attempt_of, get_attempt, attempt_of_joined}
use multiverse.Ledger.Waits.{wait_at}
use multiverse.Ledger.Attempts.Outcomes.{event-attempts}
use multiverse.Ledger.Attempts.Reconcile.{
  reconcile_attempt, ensure_reconcile_wait, status_of, error_of, stored_output,
}

status_of_known : (c : Conclusion) → AttemptStatus.is_unknown (status_of c) ≡ false
status_of_known Conclusion.confirmed_succeeded = refl
status_of_known Conclusion.confirmed_failed = refl
status_of_known Conclusion.confirmed_cancelled = refl
status_of_known Conclusion.confirmed_not_started = refl

is_unknown_sound :
    (st : AttemptStatus) → AttemptStatus.is_unknown st ≡ true → st ≡ AttemptStatus.unknown
is_unknown_sound st h = ground arith

-- The wake leaves the attempts alone.
wake-attempts :
    (now new k : ℕ) (row : Attempt) (run : Run) (version : ℕ) (o : Option Wait) (s : Db)
    (r : (Unit {0}) × Db)
    → ensure_reconcile_wait now new k row run version o s ≡ ok r
    → r.1.attempts ≡ s.attempts
unfolding ensure_reconcile_wait insert_wait update_waits branch pure ◌>>=◌
wake-attempts now new k row run version none s r e = ground arith
wake-attempts now new k row run version (some w) s r e = ground arith

reconcile_end :
    (now new k : ℕ) (row : Attempt) (version : ℕ) (enqueue : Bool) (s : Db)
    (r : Option Attempt × Db)
    → branch enqueue
        (do
          found_run ← gets (run_of row.run_id)
          run ← or_raise (Error.not_found Entity.run row.run_id) found_run
          existing ← gets (wait_at run.namespace (WaitKey.attempt_reconcile k))
          ensure_reconcile_wait now new k row run version existing
          get_attempt k)
        (get_attempt k)
        s
      ≡ ok r
    → r.1.attempts ≡ s.attempts
unfolding branch get_attempt gets
reconcile_end now new k row version true s r e =
    let (run, _, f1) = read-ok _ _ _ s r e in
    let (existing, s1, e1, f2) = bind-ok _ _ s r f1 in
    let (_, s2, e2, f3) = bind-ok _ _ s1 r f2 in
    let kept = wake-attempts now new k row run version existing s1 (_, s2) e2 in
    ground (arith, e1, kept, f3)
reconcile_end now new k row version false s r e = ground arith

-- The row of a reconciled attempt.
abbrev reconciled :
    ℕ → ℕ → Conclusion → Reconciliation → String → Option OutputJson → Attempt → Attempt
reconciled now version conclusion reconciliation reason output a = record a {
  status = status_of conclusion;
  output = stored_output (error_of conclusion reason) output;
  error = error_of conclusion reason;
  reconciliation = some reconciliation;
  version = version;
  updated_at = now;
}

-- Only an attempt of unknown outcome, at the version that the caller names, is reconciled.
reconcile_row :
    (now new k expected : ℕ) (conclusion : Conclusion) (evidence : List String)
    (reason actor : String) (output : Option OutputJson) (enqueue : Bool) (s : Db)
    (r : Option Attempt × Db)
    → reconcile_attempt now new k expected conclusion evidence reason actor output enqueue s ≡ ok r
    → (row : Attempt) × (attempt_of k s ≡ some row)
      × (row.version ≡ expected)
      × (AttemptStatus.is_unknown row.status ≡ true)
      × (attempt_of k r.1
          ≡ some (
              reconciled now
                (row.version + 1)
                conclusion
                (record {
                  conclusion = conclusion;
                  evidence_refs = evidence;
                  reason = reason;
                  actor = actor;
                })
                reason
                output
                row))
unfolding reconcile_attempt update_attempts get_attempt gets
reconcile_row now new k expected conclusion evidence reason actor output enqueue s r e =
    let (_, f1) = check-ok _ _ _ s r e in
    let (_, f2) = check-ok _ _ _ s r f1 in
    let (_, f3) = check-ok _ _ _ s r f2 in
    let (row, there, f4) = read-ok _ _ _ s r f3 in
    let (version, f5) = check-ok _ _ _ s r f4 in
    let (unknown, f6) = check-ok _ _ _ s r f5 in
    let (_, s1, e1, f7) = bind-ok _ _ s r f6 in
    let (_, s2, e2, f8) = bind-ok _ _ s1 r f7 in
    let same = event-attempts _ _ _ _ _ _ s1 (_, s2) e2 in
    let last = reconcile_end now new k row (row.version + 1) enqueue s2 r f8 in
    let here : attempt_of k s ≡ some row = attempt_of_joined k s row there in
    let key = λ (a : Attempt). a.id in
    let change =
      reconciled now (row.version + 1) conclusion
        (record {
          conclusion = conclusion;
          evidence_refs = evidence;
          reason = reason;
          actor = actor;
        })
        reason output in
    let fits : row.id ≡ k = select-key key k s.attempts row here in
    let first : s1.attempts ≡ update_where (λ a. a.id == k) change s.attempts =
      ground (arith, e1) in
    let all : r.1.attempts ≡ update_where (λ a. a.id == k) change s.attempts =
      last ∙ same ∙ first in
    (
      row,
      here,
      ground (arith, version),
      ground (arith, unknown),
      ap (select (λ a. a.id == k)) all
          ∙ select-update key k (λ a. a.id == k) change (λ a. refl) s.attempts
          ∙ ap (updated (λ a. a.id == k) change) here
          ∙ ground (arith, fits),
    )

-- The status and the output that an attempt is settled with.
abbrev pub SettledAs : Conclusion → Option OutputJson → Attempt → Type 0
SettledAs Conclusion.confirmed_succeeded output a =
    (a.status ≡ AttemptStatus.succeeded) × (a.output ≡ output) × (a.error ≡ none)
SettledAs Conclusion.confirmed_failed output a =
    (a.status ≡ AttemptStatus.failed) × (a.error ≢ none)
SettledAs Conclusion.confirmed_cancelled output a =
    (a.status ≡ AttemptStatus.cancelled) × (a.error ≢ none)
SettledAs Conclusion.confirmed_not_started output a =
    (a.status ≡ AttemptStatus.cancelled) × (a.error ≢ none)

reconciled-SettledAs :
    (now version : ℕ) (conclusion : Conclusion) (reconciliation : Reconciliation) (reason : String)
    (output : Option OutputJson) (a : Attempt)
    → SettledAs conclusion output (reconciled now version conclusion reconciliation reason output a)
reconciled-SettledAs now version Conclusion.confirmed_succeeded reconciliation reason output a =
    (refl, refl, refl)
reconciled-SettledAs now version Conclusion.confirmed_failed reconciliation reason output a =
    (refl, λ p. ground arith)
reconciled-SettledAs now version Conclusion.confirmed_cancelled reconciliation reason output a =
    (refl, λ p. ground arith)
reconciled-SettledAs now version Conclusion.confirmed_not_started reconciliation reason output a =
    (refl, λ p. ground arith)

-- An unknown outcome is settled once: a reconciliation that succeeds has found the attempt unknown
-- at the version it names, and leaves it with the status of its conclusion (a success with the
-- output given and no error, any other with an error), with the conclusion, the evidence, the reason
-- and the actor on record, and with the next version; and every further reconciliation of the
-- attempt fails, whatever version it names.
pub reconcile_attempt-once :
    (now new k expected : ℕ) (conclusion : Conclusion) (evidence : List String)
    (reason actor : String) (output : Option OutputJson) (enqueue : Bool) (s : Db)
    (r : Option Attempt × Db)
    → reconcile_attempt now new k expected conclusion evidence reason actor output enqueue s ≡ ok r
    → (row a : Attempt) × (attempt_of k s ≡ some row)
      × (row.version ≡ expected)
      × (row.status ≡ AttemptStatus.unknown)
      × (attempt_of k r.1 ≡ some a)
      × SettledAs conclusion output a
      × (a.reconciliation
          ≡ some (record {
            conclusion = conclusion;
            evidence_refs = evidence;
            reason = reason;
            actor = actor;
          }))
      × (a.version ≡ expected + 1)
      × ((now' new' expected' : ℕ) (conclusion' : Conclusion) (evidence' : List String)
            (reason' actor' : String) (output' : Option OutputJson) (enqueue' : Bool)
            (r' : Option Attempt × Db)
          → ¬ (
              reconcile_attempt now' new' k expected' conclusion' evidence' reason' actor' output'
                enqueue' r.1
              ≡ ok r'))
reconcile_attempt-once now new k expected conclusion evidence reason actor output enqueue s r e =
    let (row, here, version, unknown, after) =
      reconcile_row now new k expected conclusion evidence reason actor output enqueue s r e in
    (
      row,
      _,
      here,
      version,
      is_unknown_sound row.status unknown,
      after,
      reconciled-SettledAs now (row.version + 1) conclusion _ reason output row,
      refl,
      ap (λ n. n + 1) version,
      λ now' new' expected' conclusion' evidence' reason' actor' output' enqueue' r' e'.
          let (row', here', _, unknown', _) =
            reconcile_row now' new' k expected' conclusion' evidence' reason' actor' output'
              enqueue' r.1 r' e' in
          ground (arith, after, here', unknown', status_of_known conclusion),
    )
