-- ===== src/Ledger/Control.antt =====
-- runtime/ledger.py: `control_run` and `_command_applied_for_control`.
pub mod Evolution
pub mod Locking
pub mod Children
pub mod Cancellation
pub mod Replay
pub mod Wakes
use multiverse.Base.{
  ℕ, ◌+◌, String, Bool, true, false, not, ◌&&◌, ◌||◌, Option, none, some, ◌==◌, ltb, is_blank,
  is_none, is_some_of, exists_where, if◌then◌else◌,
}
use multiverse.Ledger.Status.RunStatus
use multiverse.Ledger.Status.RunStatus.{RunStatus}
use multiverse.Ledger.Status.ControlMode
use multiverse.Ledger.Status.ControlMode.{ControlMode}
use multiverse.Ledger.Status.ScopeStatus
use multiverse.Ledger.Status.ScopeStatus.{ScopeStatus}
use multiverse.Ledger.Status.InvocationStatus
use multiverse.Ledger.Status.InvocationStatus.{InvocationStatus}
use multiverse.Ledger.Status.AttemptStatus
use multiverse.Ledger.Status.AttemptStatus.{AttemptStatus}
use multiverse.Ledger.Status.WaitStatus
use multiverse.Ledger.Status.WaitStatus.{WaitStatus}
use multiverse.Ledger.Status.CommandStatus
use multiverse.Ledger.Status.RequestStatus
use multiverse.Ledger.Status.RequestStatus.{RequestStatus}
use multiverse.Ledger.Schema.{
  Run, Attempt, Command, Wait, WaitKey, WaitKind, Payload, ErrorJson, Operation, CommandOperation,
  Transition, EventPayload, command_operation_eq,
}
use multiverse.Ledger.Tx.Monad.{
  Error, Entity, Conflict, pure, raise, gets, or_raise, raise_if, branch, ◌>>=◌, ◌>>◌,
}
use multiverse.Ledger.Tx.Database.{
  Db, Tx, update_runs, update_scopes, update_invocations, update_attempts, update_waits,
  update_commands, insert_wait, event,
}
use multiverse.Ledger.Tx.Dialogue.{update_requests}
use multiverse.Ledger.Queries.{run_of, command_of, get_run}
use multiverse.Ledger.Waits.{new_wait}

-- The transitions that a control operation may have recorded.
abbrev pub in_transitions : Operation → Option Transition → Bool
in_transitions Operation.cancel (some Transition.run_cancel_requested) = true
in_transitions Operation.cancel (some Transition.run_cancelled) = true
in_transitions Operation.pause (some Transition.run_paused) = true
in_transitions Operation.resume (some Transition.run_resumed) = true
in_transitions _ _ = false

-- `command["after_version"] is not None and command["after_version"] > expected_version`
abbrev pub after : Option ℕ → ℕ → Bool
after none v = false
after (some a) v = ltb v a

-- `_command_applied_for_control`
unfoldable pub command_applied : Command → ℕ → Operation → ℕ → Bool
command_applied c run operation expected =
    c.resource_id == run
    && command_operation_eq c.operation (CommandOperation.control operation)
    && CommandStatus.is_accepted c.status
    && is_some_of c.before_version expected
    && after c.after_version expected
    && in_transitions operation c.transition

-- The command of the call, if it names one: `none` if there is no such command.
abbrev pub command_given : Option ℕ → Db → Option (Option Command)
command_given none s = some none
command_given (some k) s = elim (command_of k s) [ none ↦ none | some c ↦ some (some c) ]

abbrev pub or_zero : Option ℕ → ℕ
or_zero none = 0
or_zero (some k) = k

abbrev pub given_applied : Option Command → ℕ → Operation → ℕ → Bool
given_applied none run operation expected = false
given_applied (some c) run operation expected = command_applied c run operation expected

-- The command that a method was given is marked with what it changed, while it is accepted.
unfoldable pub mark_command : ℕ → Option ℕ → Option ℕ → ℕ → Transition → Tx (Unit {0})
mark_command now none before version transition = pure tt
mark_command now (some k) before version transition = do
  n ←
      update_commands (λ c. c.id == k && CommandStatus.is_accepted c.status)
        (λ c. record c {
          before_version = before;
          after_version = some version;
          transition = some transition;
          updated_at = now;
        })
  raise_if (not (n == 1)) (Error.conflict Conflict.command_not_accepted)

-- `INSERT INTO waits ... SELECT ... FROM runs WHERE id = ?`: nothing where there is no such run.
unfoldable pub insert_resume_wait : ℕ → ℕ → Option Run → Tx (Unit {0})
insert_resume_wait now new none = pure tt
insert_resume_wait now new (some r) = insert_wait (
    new_wait now new r.namespace (WaitKey.run_resume r.id) WaitKind.run_resume r.id
      r.current_scope_id r.current_invocation_id now (Payload.of_run r.id))

abbrev pub is_cancel : Operation → Bool
is_cancel Operation.cancel = true
is_cancel _ = false

abbrev pub is_resume : Operation → Bool
is_resume Operation.resume = true
is_resume _ = false

-- The end that the three operations share: the run's row, its event, the command and the wake.
unfoldable pub finish_control :
    ℕ
    → ℕ
    → Run
    → ℕ
    → Operation
    → ℕ
    → String
    → Option ℕ
    → Bool
    → RunStatus
    → ControlMode
    → Transition
    → Tx (Option Run)
unfolding mark_command insert_resume_wait get_run
finish_control now new run k operation expected reason command enqueue status mode transition = do
  let version = run.version + 1
  update_runs (λ r. r.id == k)
      (λ r. record r {
        status = status;
        control_mode = mode;
        version = version;
        updated_at = now;
        next_attempt_at = if is_cancel operation then none else r.next_attempt_at;
      })
  event now k (EventPayload.run_controlled operation reason status mode version) none none none
  mark_command now command (some expected) version transition
  branch (is_resume operation && enqueue)
      (do found ← gets (run_of k); insert_resume_wait now new found; get_run k) (get_run k)

-- An attempt of the run whose outcome is still open.
abbrev pub has_active_attempt : ℕ → Db → Bool
has_active_attempt k s =
    exists_where (λ (a : Attempt). a.run_id == k && AttemptStatus.is_active a.status) s.attempts

-- What the cancellation of a run with no active attempt writes.
unfoldable pub cancel_children : ℕ → ℕ → String → Tx (Option Run) → Tx (Option Run)
cancel_children now k reason rest = do
  update_attempts (λ a. a.run_id == k && AttemptStatus.is_idle a.status)
      (λ a. record a {
        status = AttemptStatus.cancelled;
        error = some (ErrorJson.run_cancelled reason);
        updated_at = now;
      })
  update_invocations (λ i. i.run_id == k && InvocationStatus.is_open i.status)
      (λ i. record i {
        status = InvocationStatus.cancelled;
        error = some (ErrorJson.run_cancelled reason);
        version = i.version + 1;
        updated_at = now;
      })
  update_scopes (λ c. c.run_id == k && ScopeStatus.is_active c.status)
      (λ c. record c {
        status = ScopeStatus.cancelled;
        error = some (ErrorJson.run_cancelled reason);
      })
  rest

-- The branches of `control_run` for an operation on the run's row, and their common end `finish`.
unfoldable pub apply_control :
    ℕ
    → Run
    → ℕ
    → Operation
    → String
    → (RunStatus → ControlMode → Transition → Tx (Option Run))
    → Tx (Option Run)
unfolding cancel_children
apply_control now run k Operation.pause reason finish = do
  raise_if (not (RunStatus.can_pause run.status))
      (Error.conflict (Conflict.cannot_pause run.status))
  finish RunStatus.paused ControlMode.pause Transition.run_paused
apply_control now run k Operation.resume reason finish = do
  raise_if (not (RunStatus.is_paused run.status) || not (ControlMode.is_pause run.control_mode))
      (Error.conflict Conflict.only_paused_resumes)
  finish RunStatus.running ControlMode.run Transition.run_resumed
apply_control now run k Operation.cancel reason finish = do
  raise_if (RunStatus.is_terminal run.status) (Error.conflict Conflict.run_terminal)
  active ← gets (has_active_attempt k)
  update_requests (λ q. q.run_id == k && RequestStatus.is_pending q.status)
      (λ q. record q {
        status = RequestStatus.cancelled;
        version = q.version + 1;
        updated_at = some now;
      })
  update_waits (λ w. w.run_id == k && WaitStatus.is_open w.status)
      (λ w. record w { status = WaitStatus.cancelled; updated_at = now })
  branch active (finish RunStatus.stopping ControlMode.cancel Transition.run_cancel_requested) (
      cancel_children now k reason
        (finish RunStatus.cancelled ControlMode.cancel Transition.run_cancelled))

unfoldable pub control_run : ℕ → ℕ → ℕ → Operation → ℕ → String → Option ℕ → Bool → Tx (Option Run)
unfolding apply_control finish_control command_applied
control_run now new k operation expected reason command enqueue = do
  raise_if (is_blank reason) (Error.conflict Conflict.empty_reason)
  found ← gets (run_of k)
  run ← or_raise (Error.not_found Entity.run k) found
  found_command ← gets (command_given command)
  given ← or_raise (Error.conflict (Conflict.missing_command (or_zero command))) found_command
  branch (given_applied given k operation expected) (get_run k) do
    raise_if (not (run.version == expected)) (Error.conflict Conflict.run_version)
    apply_control now run k operation reason
        (finish_control now new run k operation expected reason command enqueue)
