-- ===== src/Ledger/Control/Children.antt =====
-- `control_run`: what the parts of a cancellation write.
use multiverse.Base.{
  ℕ, ◌+◌, String, ◌≡◌, ◌≢◌, ◌⊎◌, inr, refl, Bool, true, false, ◌&&◌, Option, none, some, arith,
  ◌==◌, update_where, if◌then◌else◌, All, In, All-map, All-settled, All-every, In-update,
  exists-All, exists-In,
}
use multiverse.Ledger.Status.RunStatus.{RunStatus}
use multiverse.Ledger.Status.ControlMode.{ControlMode}
use multiverse.Ledger.Status.ScopeStatus
use multiverse.Ledger.Status.ScopeStatus.{ScopeStatus}
use multiverse.Ledger.Status.InvocationStatus
use multiverse.Ledger.Status.InvocationStatus.{InvocationStatus}
use multiverse.Ledger.Status.AttemptStatus
use multiverse.Ledger.Status.AttemptStatus.{AttemptStatus}
use multiverse.Ledger.Status.WaitStatus.{WaitStatus}
use multiverse.Ledger.Status.RequestStatus.{RequestStatus}
use multiverse.Ledger.Schema.{
  Run, Scope, Invocation, Attempt, Wait, HumanRequest, ErrorJson, Operation, Transition,
  EventPayload,
}
use multiverse.Ledger.Tx.Monad.{ok, gets, branch, ◌>>=◌}
use multiverse.Ledger.Tx.Inversion.{bind-ok}
use multiverse.Ledger.Tx.Database.{
  Db, Tx, update_runs, update_scopes, update_invocations, update_attempts, update_commands, event,
}
use multiverse.Ledger.Queries.{run_of, get_run}
use multiverse.Ledger.Control.{
  cancel_children, finish_control, mark_command, is_cancel, has_active_attempt,
}

-- The tables that the event and the mark of a command leave alone.
pub record SameChildren (s s' : Db) : Type 0 where
  pub runs : s'.runs ≡ s.runs
  pub scopes : s'.scopes ≡ s.scopes
  pub invocations : s'.invocations ≡ s.invocations
  pub attempts : s'.attempts ≡ s.attempts
  pub waits : s'.waits ≡ s.waits
  pub requests : s'.dialogue.requests ≡ s.dialogue.requests

pub mark_command-SameChildren :
    (now : ℕ) (command before : Option ℕ) (version : ℕ) (transition : Transition) (s : Db)
    (r : (Unit {0}) × Db)
    → mark_command now command before version transition s ≡ ok r
    → SameChildren s r.1
unfolding mark_command update_commands ◌>>=◌
mark_command-SameChildren now none before version transition s r e = ground arith
mark_command-SameChildren now (some c) before version transition s r e = ground arith

pub event-SameChildren :
    (now k : ℕ) (payload : EventPayload) (s : Db) (r : (Unit {0}) × Db)
    → event now k payload none none none s ≡ ok r
    → SameChildren s r.1
unfolding event
event-SameChildren now k payload s r e = ground arith

-- The run's row after an operation.
abbrev pub controlled : ℕ → Operation → RunStatus → ControlMode → ℕ → Run → Run
controlled now operation status mode version r = record r {
  status = status;
  control_mode = mode;
  version = version;
  updated_at = now;
  next_attempt_at = if is_cancel operation then none else r.next_attempt_at;
}

-- What the end of a cancellation answers and keeps.
pub finish_cancel :
    (now new : ℕ) (run : Run) (k expected : ℕ) (reason : String) (command : Option ℕ)
    (enqueue : Bool) (status : RunStatus) (transition : Transition) (s : Db) (r : Option Run × Db)
    → finish_control now new run k Operation.cancel expected reason command enqueue status
        ControlMode.cancel transition s
      ≡ ok r
    → SameChildren
        (record s {
          runs =
              update_where
                (λ x. x.id == k)
                (controlled now Operation.cancel status ControlMode.cancel (run.version + 1))
                s.runs;
        })
        r.1
      × (r.0 ≡ run_of k r.1)
unfolding finish_control branch get_run gets update_runs
finish_cancel now new run k expected reason command enqueue status transition s r e =
    let (_, s1, e1, f1) = bind-ok _ _ s r e in
    let (_, s2, e2, f2) = bind-ok _ _ s1 r f1 in
    let (_, s3, e3, f3) = bind-ok _ _ s2 r f2 in
    let b = event-SameChildren _ _ _ s1 (_, s2) e2 in
    let c =
      mark_command-SameChildren now command (some expected) (run.version + 1) transition s2 (_, s3)
        e3 in
    (ground (arith, e1, b, c, f3), ground (arith, f3))

-- The attempt has ended.
abbrev pub IsOver : AttemptStatus → Type 0
IsOver st =
    (st ≡ AttemptStatus.succeeded) ⊎ ((st ≡ AttemptStatus.failed) ⊎ (st ≡ AttemptStatus.cancelled))

-- The attempt has been created, was submitted or runs, or its outcome is unknown.
abbrev pub IsActive : AttemptStatus → Type 0
IsActive st =
    (st ≡ AttemptStatus.created)
    ⊎ ((st ≡ AttemptStatus.submitted)
        ⊎ ((st ≡ AttemptStatus.running) ⊎ (st ≡ AttemptStatus.unknown)))

-- Every wait of run `k` is completed or cancelled, and no human request of it is pending.
pub record NothingAwaited (k : ℕ) (s : Db) : Type 0 where
  pub waits :
      All
        (λ (w : Wait).
          w.run_id ≡ k → (w.status ≡ WaitStatus.completed) ⊎ (w.status ≡ WaitStatus.cancelled))
        s.waits
  pub requests :
      All
        (λ (q : HumanRequest). q.run_id ≡ k → q.status ≢ RequestStatus.pending)
        s.dialogue.requests

-- In `t`, every attempt of run `k` has ended, no invocation of it is planned, running or waiting, and
-- no scope of it is active; the invocations that waited for a retry or for a reconciliation in `s`
-- are as they were.
pub record NothingRuns (k : ℕ) (s t : Db) : Type 0 where
  pub attempts : All (λ (a : Attempt). a.run_id ≡ k → IsOver a.status) t.attempts
  pub invocations :
      All
        (λ (i : Invocation).
          i.run_id ≡ k
          → (i.status ≢ InvocationStatus.planned)
            × (i.status ≢ InvocationStatus.running)
            × (i.status ≢ InvocationStatus.waiting))
        t.invocations
  pub left :
      (i : Invocation)
      → In i s.invocations
      → (i.status ≡ InvocationStatus.retry_wait) ⊎ (i.status ≡ InvocationStatus.reconciling)
      → In i t.invocations
  pub scopes : All (λ (c : Scope). c.run_id ≡ k → c.status ≢ ScopeStatus.active) t.scopes

pub has_active_attempt-In :
    (k : ℕ) (s : Db)
    → has_active_attempt k s ≡ true
    → (a : Attempt) × In a s.attempts × (a.run_id ≡ k) × IsActive a.status
has_active_attempt-In k s h =
    let (a, i, e) =
      exists-In (λ (a : Attempt). a.run_id == k && AttemptStatus.is_active a.status) s.attempts h in
    (a, i, ground arith, ground arith)

-- An attempt that is not active waits or has ended.
pub has_active_attempt-All :
    (k : ℕ) (s : Db)
    → has_active_attempt k s ≡ false
    → All
        (λ (a : Attempt). a.run_id ≡ k → (a.status ≡ AttemptStatus.waiting) ⊎ IsOver a.status)
        s.attempts
has_active_attempt-All k s h =
    All-map (λ (a : Attempt). (a.run_id == k && AttemptStatus.is_active a.status) ≡ false)
      (λ (a : Attempt). a.run_id ≡ k → (a.status ≡ AttemptStatus.waiting) ⊎ IsOver a.status)
      (λ a e same. ground arith) s.attempts
      (exists-All (λ (a : Attempt). a.run_id == k && AttemptStatus.is_active a.status) s.attempts h)

-- What a cancellation that has succeeded has done before its end, where no attempt is active.
pub cancel_children_lem :
    (now k : ℕ) (reason : String) (rest : Tx (Option Run)) (s : Db) (r : Option Run × Db)
    → has_active_attempt k s ≡ false
    → cancel_children now k reason rest s ≡ ok r
    → (t : Db) × (rest t ≡ ok r)
      × NothingRuns k s t
      × (t.waits ≡ s.waits)
      × (t.dialogue.requests ≡ s.dialogue.requests)
      × (t.runs ≡ s.runs)
      × (t.commands ≡ s.commands)
unfolding cancel_children update_attempts update_invocations update_scopes ◌>>=◌
cancel_children_lem now k reason rest s r idle e = (
  _,
  e,
  record {
    attempts =
        All-settled (λ (a : Attempt). a.run_id ≡ k → IsOver a.status)
          (λ (a : Attempt). a.run_id == k && AttemptStatus.is_idle a.status)
          (λ a. record a {
            status = AttemptStatus.cancelled;
            error = some (ErrorJson.run_cancelled reason);
            updated_at = now;
          })
          s.attempts
          (All-map
            (λ (a : Attempt). a.run_id ≡ k → (a.status ≡ AttemptStatus.waiting) ⊎ IsOver a.status) _
            (λ a h. ((λ _ _. inr (inr refl)), λ not same. ground (arith, h same))) s.attempts
            (has_active_attempt-All k s idle));
    invocations =
        All-settled _ (λ (i : Invocation). i.run_id == k && InvocationStatus.is_open i.status)
          (λ i. record i {
            status = InvocationStatus.cancelled;
            error = some (ErrorJson.run_cancelled reason);
            version = i.version + 1;
            updated_at = now;
          })
          s.invocations
          (All-every _ (λ i. ((λ _ _. ground arith), λ not same. ground arith)) s.invocations);
    left = λ i there st.
        In-update (λ (i : Invocation). i.run_id == k && InvocationStatus.is_open i.status)
          (λ i. record i {
            status = InvocationStatus.cancelled;
            error = some (ErrorJson.run_cancelled reason);
            version = i.version + 1;
            updated_at = now;
          })
          i s.invocations (ground (arith, st)) there;
    scopes =
        All-settled _ (λ (c : Scope). c.run_id == k && ScopeStatus.is_active c.status)
          (λ c. record c {
            status = ScopeStatus.cancelled;
            error = some (ErrorJson.run_cancelled reason);
          })
          s.scopes (All-every _ (λ c. ((λ _ _. ground arith), λ not same. ground arith)) s.scopes);
  },
  refl,
  refl,
  refl,
  refl,
)
