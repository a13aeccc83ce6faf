-- ===== src/Ledger/Control/Cancellation.antt =====
-- `control_run`: what a cancellation leaves of the run and of its children.
use multiverse.Base.{
  ℕ, ◌+◌, String, ◌≡◌, ◌⊎◌, refl, Bool, true, false, ◌&&◌, Option, some, inl, inr, arith, ◌==◌,
  select, update_where, select-update, select-key, updated, ◌∙◌, ap, All, In, All-settled,
  All-every,
}
use multiverse.Ledger.Status.AttemptStatus.{AttemptStatus}
use multiverse.Ledger.Status.RunStatus.{RunStatus}
use multiverse.Ledger.Status.ControlMode.{ControlMode}
use multiverse.Ledger.Status.WaitStatus
use multiverse.Ledger.Status.WaitStatus.{WaitStatus}
use multiverse.Ledger.Status.RequestStatus
use multiverse.Ledger.Status.RequestStatus.{RequestStatus}
use multiverse.Ledger.Schema.{Attempt, Run, Wait, HumanRequest, Command, Operation, Transition}
use multiverse.Ledger.Tx.Monad.{ok, branch, ◌>>=◌}
use multiverse.Ledger.Tx.Database.{Db, Tx, update_waits}
use multiverse.Ledger.Tx.Dialogue.{update_requests}
use multiverse.Ledger.Queries.{run_of}
use multiverse.Ledger.Control.{
  control_run, apply_control, cancel_children, finish_control, given_applied, command_given,
  has_active_attempt,
}
use multiverse.Ledger.Control.Locking.{version_found}
use multiverse.Ledger.Control.Children.{
  SameChildren, NothingAwaited, NothingRuns, IsOver, IsActive, has_active_attempt-In,
  has_active_attempt-All, controlled, finish_cancel, cancel_children_lem,
}

-- The two ends of a cancellation, in the state where its end starts.
abbrev pub CancelEnds :
    ℕ → Db → (RunStatus → ControlMode → Transition → Tx (Option Run)) → Option Run × Db → Type 0
CancelEnds k s finish r =
    (t : Db) × NothingAwaited k t
    × (t.runs ≡ s.runs)
    × (t.commands ≡ s.commands)
    × (((has_active_attempt k s ≡ true)
          × (t.attempts ≡ s.attempts)
          × (finish RunStatus.stopping ControlMode.cancel Transition.run_cancel_requested t ≡ ok r))
        ⊎ ((has_active_attempt k s ≡ false)
            × NothingRuns k s t
            × (finish RunStatus.cancelled ControlMode.cancel Transition.run_cancelled t ≡ ok r)))

-- The requests and the waits of the run are cancelled first.
abbrev closed_request : ℕ → HumanRequest → HumanRequest
closed_request now q = record q {
  status = RequestStatus.cancelled;
  version = q.version + 1;
  updated_at = some now;
}

abbrev closed_wait : ℕ → Wait → Wait
closed_wait now w = record w { status = WaitStatus.cancelled; updated_at = now }

abbrev closing : ℕ → ℕ → Db → Db
closing now k s = record s {
  dialogue = record s.dialogue {
    requests =
        update_where (λ q. q.run_id == k && RequestStatus.is_pending q.status) (closed_request now)
          s.dialogue.requests;
  };
  waits =
      update_where (λ w. w.run_id == k && WaitStatus.is_open w.status) (closed_wait now) s.waits;
}

closing-NothingAwaited : (now k : ℕ) (s : Db) → NothingAwaited k (closing now k s)
closing-NothingAwaited now k s = record {
  waits =
      All-settled _ (λ (w : Wait). w.run_id == k && WaitStatus.is_open w.status) (closed_wait now)
        s.waits (All-every _ (λ w. ((λ _ _. inr refl), λ not same. ground arith)) s.waits);
  requests =
      All-settled _ (λ (q : HumanRequest). q.run_id == k && RequestStatus.is_pending q.status)
        (closed_request now) s.dialogue.requests
        (All-every _ (λ q. ((λ _ _. ground arith), λ not same. ground arith)) s.dialogue.requests);
}

NothingAwaited-same :
    (k : ℕ) (s t : Db)
    → t.waits ≡ s.waits
    → t.dialogue.requests ≡ s.dialogue.requests
    → NothingAwaited k s
    → NothingAwaited k t
NothingAwaited-same k s t a b n = record { waits = rw a n.waits; requests = rw b n.requests }

pub apply_cancel :
    (now : ℕ) (run : Run) (k : ℕ) (reason : String)
    (finish : RunStatus → ControlMode → Transition → Tx (Option Run)) (s : Db) (r : Option Run × Db)
    → apply_control now run k Operation.cancel reason finish s ≡ ok r
    → CancelEnds k s finish r
unfolding apply_control update_requests update_waits ◌>>=◌
apply_cancel now run k reason finish s r e = ends (has_active_attempt k s) refl (ground arith)
  where
    ends :
        (active : Bool)
        → has_active_attempt k s ≡ active
        → branch active
            (finish RunStatus.stopping ControlMode.cancel Transition.run_cancel_requested)
            (cancel_children now k reason
              (finish RunStatus.cancelled ControlMode.cancel Transition.run_cancelled))
            (closing now k s)
          ≡ ok r
        → CancelEnds k s finish r
    ends true a h = (closing now k s, closing-NothingAwaited now k s, refl, refl, inl (a, refl, h))
    ends false a h =
        let (t, last, children, waits, requests, runs, commands) =
          cancel_children_lem now k reason _ (closing now k s) r a h in
        (
          t,
          NothingAwaited-same k (closing now k s) t waits requests (closing-NothingAwaited now k s),
          runs,
          commands,
          inr (
            a,
            record {
              attempts = children.attempts;
              invocations = children.invocations;
              left = children.left;
              scopes = children.scopes;
            },
            last,
          ),
        )

-- The run's row after the end of a cancellation.
cancelled_row :
    (now new : ℕ) (run : Run) (k expected : ℕ) (reason : String) (command : Option ℕ)
    (enqueue : Bool) (status : RunStatus) (transition : Transition) (s t : Db) (r : Option Run × Db)
    → run_of k s ≡ some run
    → t.runs ≡ s.runs
    → finish_control now new run k Operation.cancel expected reason command enqueue status
        ControlMode.cancel transition t
      ≡ ok r
    → SameChildren t (record r.1 { runs = t.runs })
      × (r.0
          ≡ some (controlled now Operation.cancel status ControlMode.cancel (run.version + 1) run))
cancelled_row now new run k expected reason command enqueue status transition s t r there same e =
    let (kept, answer) =
      finish_cancel now new run k expected reason command enqueue status transition t r e in
    let change = controlled now Operation.cancel status ControlMode.cancel (run.version + 1) in
    let key = λ (x : Run). x.id in
    let fits = select-key key k s.runs run there in
    let here = select-update key k (λ x. x.id == k) change (λ x. refl) t.runs in
    (
      record {
        runs = refl;
        scopes = kept.scopes;
        invocations = kept.invocations;
        attempts = kept.attempts;
        waits = kept.waits;
        requests = kept.requests;
      },
      answer
          ∙ ap (select (λ x. x.id == k)) kept.runs
          ∙ here
          ∙ ap (λ o. updated (λ x. x.id == k) change (select (λ x. x.id == k) o)) same
          ∙ ap (updated (λ x. x.id == k) change) there
          ∙ ground arith,
    )

-- A cancellation that is not the repetition of an applied command leaves every wait of the run
-- completed or cancelled, and no human request of it pending. If an attempt of the run is created,
-- submitted, running or of unknown outcome, the run is stopping, and no attempt is changed.
-- Otherwise, when every attempt of the run waits or has ended, the run is cancelled, every attempt
-- of it has ended, no invocation of it is planned, running or waiting, and no scope of it is
-- active; but an invocation that waits for a retry or for a reconciliation stays as it was.
pub control_run-cancels :
    (now new k expected : ℕ) (reason : String) (command : Option ℕ) (enqueue : Bool) (s : Db)
    (given : Option Command) (r : Option Run × Db)
    → command_given command s ≡ some given
    → given_applied given k Operation.cancel expected ≡ false
    → control_run now new k Operation.cancel expected reason command enqueue s ≡ ok r
    → NothingAwaited k r.1
      × (row : Run) × (r.0 ≡ some row)
      × (row.control_mode ≡ ControlMode.cancel)
      × (((row.status ≡ RunStatus.stopping)
            × ((a : Attempt) × In a s.attempts × (a.run_id ≡ k) × IsActive a.status)
            × (r.1.attempts ≡ s.attempts))
          ⊎ ((row.status ≡ RunStatus.cancelled)
              × All
                  (λ (a : Attempt).
                    a.run_id ≡ k → (a.status ≡ AttemptStatus.waiting) ⊎ IsOver a.status)
                  s.attempts
              × NothingRuns k s r.1))
control_run-cancels now new k expected reason command enqueue s given r c fresh e =
    let (run, there, _, applied) =
      version_found now new k Operation.cancel expected reason command enqueue s given r c fresh
        e in
    let finish = finish_control now new run k Operation.cancel expected reason command enqueue in
    let (t, closed, same, _, last) = apply_cancel now run k reason finish s r applied in
    elim last [
      | inl (active, untouched, h) ↦
          let (kept, row) =
            cancelled_row now new run k expected reason command enqueue _ _ s t r there same h in
          (
            NothingAwaited-same k t r.1 kept.waits kept.requests closed,
            _,
            row,
            refl,
            inl (refl, has_active_attempt-In k s active, kept.attempts ∙ untouched),
          )
      | inr (idle, children, h) ↦
          let (kept, row) =
            cancelled_row now new run k expected reason command enqueue _ _ s t r there same h in
          (
            NothingAwaited-same k t r.1 kept.waits kept.requests closed,
            _,
            row,
            refl,
            inr (
              refl,
              has_active_attempt-All k s idle,
              record {
                attempts = rw kept.attempts children.attempts;
                invocations = rw kept.invocations children.invocations;
                left = λ i there st. rw kept.invocations (children.left i there st);
                scopes = rw kept.scopes children.scopes;
              },
            ),
          )
    ]
