-- ===== src/Ledger/Attempts/Blocking.antt =====
-- `finish_attempt`: an attempt of unknown outcome stops its invocation and its run.
use multiverse.Base.{
  ℕ, ◌+◌, String, ◌≡◌, ◌∙◌, ap, sym, subst, refl, Bool, true, false, Option, some, List, inl, inr,
  arith, ◌==◌, select, found-update, same_found, update_where, if◌then◌else◌, Bool-cases,
}
use multiverse.Ledger.Status.RunStatus.{RunStatus}
use multiverse.Ledger.Status.InvocationStatus.{InvocationStatus}
use multiverse.Ledger.Status.AttemptStatus
use multiverse.Ledger.Status.AttemptStatus.{AttemptStatus}
use multiverse.Ledger.Schema.{Run, Invocation, Attempt, OutputJson, ErrorJson, EventPayload}
use multiverse.Ledger.Tx.Monad.{ok, gets}
use multiverse.Ledger.Tx.Inversion.{bind-ok, check-ok, read-ok, then-ok, else-ok}
use multiverse.Ledger.Tx.Database.{Db, update_attempts, update_invocations, update_runs, event}
use multiverse.Ledger.Queries.{
  run_of, invocation_of, attempt_of, joined_attempt_of, get_attempt, attempt_of_joined,
  invocation_of_id, run_of_id,
}
use multiverse.Ledger.Attempts.{finish_attempt, write_attempt, block_run, stays_closed}

-- Two states that differ in their events only.
pub record SameRows (s t : Db) : Type 0 where
  pub runs : t.runs ≡ s.runs
  pub invocations : t.invocations ≡ s.invocations
  pub attempts : t.attempts ≡ s.attempts

pub event-SameRows :
    (now k : ℕ) (payload : EventPayload) (scope invocation attempt : Option ℕ) (s : Db)
    (r : (Unit {0}) × Db)
    → event now k payload scope invocation attempt s ≡ ok r
    → SameRows s r.1
unfolding event
event-SameRows now k payload scope invocation attempt s r e = ground arith

abbrev reconciling : ℕ → ℕ → Invocation → Invocation
reconciling now version i = record i {
  status = InvocationStatus.reconciling;
  version = version;
  updated_at = now;
}

abbrev pub blocked : ℕ → ℕ → Run → Run
blocked now version r = record r { status = RunStatus.blocked; version = version; updated_at = now }

block_run-ok :
    (now k : ℕ) (row : Attempt) (i : Invocation) (run : Run) (s : Db) (r : Option Attempt × Db)
    → block_run now row i run (get_attempt k) s ≡ ok r
    → (r.1.attempts ≡ s.attempts)
      × (r.1.invocations
          ≡ update_where (λ x. x.id == i.id) (reconciling now (i.version + 1)) s.invocations)
      × (r.1.runs ≡ (
          if stays_closed run.status
          then s.runs
          else update_where (λ x. x.id == run.id) (blocked now (run.version + 1)) s.runs))
unfolding block_run update_invocations update_runs get_attempt gets
block_run-ok now k row i run s r e =
    let (_, s1, e1, f1) = bind-ok _ _ s r e in
    let (_, s2, e2, f2) = bind-ok _ _ s1 r f1 in
    let a = event-SameRows _ _ _ _ _ _ s1 (_, s2) e2 in
    elim (Bool-cases (stays_closed run.status)) [
      | inl closed ↦
          let f3 = then-ok _ _ _ s2 r closed f2 in
          (ground (arith, e1, a, f3), ground (arith, e1, a, f3), ground (arith, e1, a, f3, closed))
      | inr running ↦
          let f3 = else-ok _ _ _ s2 r running f2 in
          let (_, s3, e3, f4) = bind-ok _ _ s2 r f3 in
          let (_, s4, e4, f5) = bind-ok _ _ s3 r f4 in
          let b = event-SameRows _ _ _ _ _ _ s3 (_, s4) e4 in
          (
            ground (arith, e1, a, e3, b, f5),
            ground (arith, e1, a, e3, b, f5),
            ground (arith, e1, a, e3, b, f5, running),
          )
    ]

abbrev unknown_outcome :
    ℕ → Option OutputJson → Option ErrorJson → Option String → Attempt → Attempt
unknown_outcome now output error ref a = record a {
  status = AttemptStatus.unknown;
  output = output;
  error = error;
  external_ref = ref;
  version = a.version + 1;
  updated_at = now;
}

-- The state in which the run of an attempt that ends unknown is blocked.
unknown-ok :
    (now k : ℕ) (output : Option OutputJson) (error : Option ErrorJson) (ref : Option String)
    (s : Db) (row : Attempt) (i : Invocation) (run : Run) (r : Option Attempt × Db)
    → joined_attempt_of k s ≡ some row
    → AttemptStatus.is_unknown row.status ≡ false
    → invocation_of row.invocation_id s ≡ some i
    → run_of row.run_id s ≡ some run
    → finish_attempt now k AttemptStatus.unknown output error ref s ≡ ok r
    → (t : Db) × (t.runs ≡ s.runs)
      × (t.invocations ≡ s.invocations)
      × (t.attempts
          ≡ update_where (λ a. a.id == k) (unknown_outcome now output error ref) s.attempts)
      × (block_run now row i run (get_attempt k) t ≡ ok r)
unfolding finish_attempt write_attempt update_attempts
unknown-ok now k output error ref s row i run r there fresh i_there run_there e =
    let (row', there', f1) = read-ok _ _ _ s r e in
    let same : row' ≡ row = same_found (joined_attempt_of k s) row' row there' there in
    let (_, f2) = check-ok _ _ _ s r f1 in
    let f3 =
      else-ok _ _ _ s r
        (subst (λ (x : Attempt). AttemptStatus.same x.status AttemptStatus.unknown ≡ false)
          (sym same) (not_same row.status fresh))
        f2 in
    let (_, f4) = check-ok _ _ _ s r f3 in
    let f5 = then-ok _ _ _ s r refl f4 in
    let (i', i_there', f6) = read-ok _ _ _ s r f5 in
    let (run', run_there', f7) = read-ok _ _ _ s r f6 in
    let (_, s1, e1, f8) = bind-ok _ _ s r f7 in
    let (_, s2, e2, f9) = bind-ok _ _ s1 r f8 in
    let a = event-SameRows _ _ _ _ _ _ s1 (_, s2) e2 in
    let i_same : i' ≡ i =
      same_found (invocation_of row.invocation_id s) i' i
        (subst (λ (x : Attempt). invocation_of x.invocation_id s ≡ some i') same i_there')
        i_there in
    let run_same : run' ≡ run =
      same_found (run_of row.run_id s) run' run
        (subst (λ (x : Attempt). run_of x.run_id s ≡ some run') same run_there') run_there in
    (
      s2,
      a.runs ∙ ground (arith, e1),
      a.invocations ∙ ground (arith, e1),
      a.attempts ∙ ground (arith, e1),
      subst (λ x. block_run now x i run (get_attempt k) s2 ≡ ok r) same
          (subst (λ x. block_run now row' x run (get_attempt k) s2 ≡ ok r) i_same
            (subst (λ x. block_run now row' i' x (get_attempt k) s2 ≡ ok r) run_same f9)),
    )
  where
    not_same :
        (st : AttemptStatus)
        → AttemptStatus.is_unknown st ≡ false
        → AttemptStatus.same st AttemptStatus.unknown ≡ false
    not_same st h = ground arith

run_after :
    (closed : Bool) (k : ℕ) (f : Run → Run)
    → ((x : Run) → (f x).id ≡ x.id)
    → (t t' : List Run) (run : Run) → t' ≡ (if closed then t else update_where (λ x. x.id == k) f t)
    → select (λ (x : Run). x.id == k) t ≡ some run
    → select (λ (x : Run). x.id == k) t' ≡ some (if closed then run else f run)
run_after true k f h t t' run e there = ap (select (λ (x : Run). x.id == k)) e ∙ there
run_after false k f h t t' run e there = found-update (λ (x : Run). x.id) k f h t t' run e there

-- When `finish_attempt` ends an attempt as unknown that was not unknown before, its invocation
-- waits for the reconciliation, and its run is blocked, unless the run has ended or is blocked
-- already; each row that is written gets its next version.
pub finish_attempt-blocks :
    (now k : ℕ) (output : Option OutputJson) (error : Option ErrorJson) (ref : Option String)
    (s : Db) (row : Attempt) (i : Invocation) (run : Run) (r : Option Attempt × Db)
    → joined_attempt_of k s ≡ some row
    → AttemptStatus.is_unknown row.status ≡ false
    → invocation_of row.invocation_id s ≡ some i
    → run_of row.run_id s ≡ some run
    → finish_attempt now k AttemptStatus.unknown output error ref s ≡ ok r
    → (a : Attempt) × (i' : Invocation) × (run' : Run) × (attempt_of k r.1 ≡ some a)
      × (a.status ≡ AttemptStatus.unknown)
      × (a.version ≡ row.version + 1)
      × (invocation_of i.id r.1 ≡ some i')
      × (i'.status ≡ InvocationStatus.reconciling)
      × (i'.version ≡ i.version + 1)
      × (run_of run.id r.1 ≡ some run')
      × (run' ≡ (if stays_closed run.status then run else blocked now (run.version + 1) run))
finish_attempt-blocks now k output error ref s row i run r there fresh i_there run_there e =
    let (t, t_runs, t_invocations, t_attempts, last) =
      unknown-ok now k output error ref s row i run r there fresh i_there run_there e in
    let (attempts, invocations, runs) = block_run-ok now k row i run t r last in
    let change = blocked now (run.version + 1) in
    (
      unknown_outcome now output error ref row,
      reconciling now (i.version + 1) i,
      (if stays_closed run.status then run else change run),
      found-update (λ (x : Attempt). x.id) k (unknown_outcome now output error ref) (λ x. refl)
          s.attempts r.1.attempts row (attempts ∙ t_attempts) (attempt_of_joined k s row there),
      refl,
      refl,
      found-update (λ (x : Invocation). x.id) i.id (reconciling now (i.version + 1)) (λ x. refl)
          s.invocations r.1.invocations i
          (invocations
            ∙ ap (update_where (λ x. x.id == i.id) (reconciling now (i.version + 1))) t_invocations)
          (invocation_of_id row.invocation_id s i i_there),
      refl,
      refl,
      run_after (stays_closed run.status) run.id change (λ x. refl) s.runs r.1.runs run
          (runs
            ∙ ap
                (λ u.
                  if stays_closed run.status
                  then u
                  else update_where (λ x. x.id == run.id) change u)
                t_runs)
          (run_of_id row.run_id s run run_there),
      refl,
    )
