-- ===== src/Ledger/Control/Replay.antt =====
-- `control_run` and `_command_applied_for_control`: the repetition of a command.
use multiverse.Base.{
  ℕ, ◌+◌, String, ◌≡◌, ◌∙◌, ap, subst, sym, refl, Bool, true, false, ◌&&◌, Option, some, inl, inr,
  arith, ◌==◌, is_blank, select, select-key, select-update, update_where, updated, Option-cases,
}
use multiverse.Ledger.Status.RunStatus.{RunStatus}
use multiverse.Ledger.Status.ControlMode.{ControlMode}
use multiverse.Ledger.Status.CommandStatus
use multiverse.Ledger.Schema.{
  Run, Command, CommandOperation, Operation, Transition, command_operation_eq, operation_eq,
}
use multiverse.Ledger.Tx.Monad.{ok, gets, branch, ◌>>=◌, ◌>>◌}
use multiverse.Ledger.Tx.Inversion.{bind-ok}
use multiverse.Ledger.Tx.Database.{Db, Tx, update_runs, update_commands, insert_wait, event}
use multiverse.Ledger.Queries.{run_of, command_of, get_run}
use multiverse.Ledger.Control.Locking.{version_found}
use multiverse.Ledger.Control.Cancellation.{apply_cancel}
use multiverse.Ledger.Control.{
  control_run, apply_control, finish_control, mark_command, insert_resume_wait, command_applied,
  in_transitions, is_resume,
}

-- What the mark of a command writes.
abbrev marked : ℕ → ℕ → ℕ → Transition → Command → Command
marked now expected version transition c = record c {
  before_version = some expected;
  after_version = some version;
  transition = some transition;
  updated_at = now;
}

abbrev is_markable : ℕ → Command → Bool
is_markable k c = c.id == k && CommandStatus.is_accepted c.status

tail_commands :
    (now new k : ℕ) (operation : Operation) (enqueue : Bool) (s : Db) (r : Option Run × Db)
    → branch
        (is_resume operation && enqueue)
        (do found ← gets (run_of k); insert_resume_wait now new found; get_run k)
        (get_run k)
        s
      ≡ ok r
    → r.1.commands ≡ s.commands
unfolding branch get_run gets ◌>>=◌ insert_resume_wait insert_wait
tail_commands now new k Operation.resume true s r e = elim (Option-cases (run_of k s)) [
  | inl gone ↦ ground (arith, gone)
  | inr (row, there) ↦ ground (arith, there)
]
tail_commands now new k Operation.resume false s r e = ground arith
tail_commands now new k Operation.pause enqueue s r e = ground arith
tail_commands now new k Operation.cancel enqueue s r e = ground arith

mark_commands :
    (now expected version command : ℕ) (transition : Transition) (s : Db) (r : (Unit {0}) × Db)
    → mark_command now (some command) (some expected) version transition s ≡ ok r
    → r.1.commands
      ≡ update_where (is_markable command) (marked now expected version transition) s.commands
unfolding mark_command update_commands ◌>>=◌
mark_commands now expected version command transition s r e = ground arith

finish_commands :
    (now new : ℕ) (run : Run) (k : ℕ) (operation : Operation) (expected : ℕ) (reason : String)
    (command : ℕ) (enqueue : Bool) (status : RunStatus) (mode : ControlMode)
    (transition : Transition) (s : Db) (r : Option Run × Db)
    → finish_control now new run k operation expected reason
        (some command)
        enqueue
        status
        mode
        transition
        s
      ≡ ok r
    → r.1.commands
      ≡ update_where
          (is_markable command)
          (marked now expected (run.version + 1) transition)
          s.commands
unfolding finish_control update_runs event
finish_commands now new run k operation expected reason command enqueue status mode transition s r
      e =
    let (_, s1, e1, f1) = bind-ok _ _ s r e in
    let (_, s2, e2, f2) = bind-ok _ _ s1 r f1 in
    let (_, s3, e3, f3) = bind-ok _ _ s2 r f2 in
    let same : s2.commands ≡ s.commands = ground (arith, e1, e2) in
    tail_commands now new k operation enqueue s3 r f3
    ∙ mark_commands now expected (run.version + 1) command transition s2 (_, s3) e3
    ∙ ap (update_where (is_markable command) (marked now expected (run.version + 1) transition))
        same

-- Every operation reaches its end with the commands as they were, and ends with a transition of
-- its own.
apply_ends :
    (now : ℕ) (run : Run) (k : ℕ) (operation : Operation) (reason : String)
    (finish : RunStatus → ControlMode → Transition → Tx (Option Run)) (s : Db) (r : Option Run × Db)
    → apply_control now run k operation reason finish s ≡ ok r
    → (t : Db) × (status : RunStatus) × (mode : ControlMode) × (transition : Transition)
      × (t.commands ≡ s.commands)
      × (in_transitions operation (some transition) ≡ true)
      × (finish status mode transition t ≡ ok r)
unfolding apply_control ◌>>=◌
apply_ends now run k Operation.pause reason finish s r e =
    (s, RunStatus.paused, ControlMode.pause, Transition.run_paused, refl, refl, ground arith)
apply_ends now run k Operation.resume reason finish s r e =
    (s, RunStatus.running, ControlMode.run, Transition.run_resumed, refl, refl, ground arith)
apply_ends now run k Operation.cancel reason finish s r e =
    let (t, _, _, same, last) = apply_cancel now run k reason finish s r e in
    elim last [
      | inl (_, _, h) ↦ (
        t, RunStatus.stopping, ControlMode.cancel, Transition.run_cancel_requested, same, refl, h,
      )
      | inr (_, _, h) ↦
          (t, RunStatus.cancelled, ControlMode.cancel, Transition.run_cancelled, same, refl, h)
    ]

operation_eq_refl : (o : Operation) → operation_eq o o ≡ true
operation_eq_refl Operation.pause = refl
operation_eq_refl Operation.resume = refl
operation_eq_refl Operation.cancel = refl

-- A command that is marked by a call counts as applied for the same call.
marked_applied :
    (now expected version k : ℕ) (operation : Operation) (transition : Transition) (c : Command)
    → CommandStatus.is_accepted c.status ≡ true
    → c.resource_id ≡ k
    → c.operation ≡ CommandOperation.control operation
    → version ≡ expected
    → in_transitions operation (some transition) ≡ true
    → command_applied (marked now expected (version + 1) transition c) k operation expected ≡ true
unfolding command_applied
marked_applied now expected version k operation transition c accepted resource same same_version
      among =
    let named : command_operation_eq c.operation (CommandOperation.control operation) ≡ true =
      subst (λ o. command_operation_eq o (CommandOperation.control operation) ≡ true) (sym same)
        (operation_eq_refl operation) in
    ground arith

reason_given :
    (now new k : ℕ) (operation : Operation) (expected : ℕ) (reason : String) (command : Option ℕ)
    (enqueue : Bool) (s : Db) (r : Option Run × Db)
    → control_run now new k operation expected reason command enqueue s ≡ ok r
    → is_blank reason ≡ false
unfolding control_run ◌>>=◌
reason_given now new k operation expected reason command enqueue s r e = ground arith

-- A control command has an effect once: when a call with a command that is accepted, is for this
-- run and operation, and has not been applied yet has succeeded, the same call again, at any time
-- and with either setting of the wake flag, answers the run as it now is and writes nothing.
pub control_run-replays :
    (now new k : ℕ) (operation : Operation) (expected : ℕ) (reason : String) (command : ℕ)
    (enqueue : Bool) (s : Db) (c : Command) (r : Option Run × Db)
    → command_of command s ≡ some c
    → CommandStatus.is_accepted c.status ≡ true
    → c.resource_id ≡ k
    → c.operation ≡ CommandOperation.control operation
    → command_applied c k operation expected ≡ false
    → control_run now new k operation expected reason (some command) enqueue s ≡ ok r
    → (now' new' : ℕ) (enqueue' : Bool) (row : Run) → run_of k r.1 ≡ some row
    → control_run now' new' k operation expected reason (some command) enqueue' r.1
      ≡ ok (some row, r.1)
unfolding control_run get_run ◌>>=◌
control_run-replays now new k operation expected reason command enqueue s c r there accepted
      resource same_operation fresh e now' new' enqueue' row found =
    let (run, run_there, version, applied) =
      version_found now new k operation expected reason (some command) enqueue s (some c) r
        (ground (arith, there)) fresh e in
    let (t, status, mode, transition, same, among, last) =
      apply_ends now run k operation reason _ s r applied in
    let commands =
      finish_commands now new run k operation expected reason command enqueue status mode transition
        t r last in
    let key = λ (x : Command). x.id in
    let change = marked now expected (run.version + 1) transition in
    let fits : c.id ≡ command = select-key key command s.commands c there in
    let stored : command_of command r.1 ≡ some (change c) =
      ap (select (λ x. x.id == command)) commands
      ∙ select-update key command (is_markable command) change (λ x. refl) t.commands
      ∙ ap (λ l. updated (is_markable command) change (select (λ x. x.id == command) l)) same
      ∙ ap (updated (is_markable command) change) there
      ∙ ground (arith, fits, accepted) in
    let again : command_applied (change c) k operation expected ≡ true =
      marked_applied now expected run.version k operation transition c accepted resource
        same_operation version among in
    let named = reason_given now new k operation expected reason (some command) enqueue s r e in
    ground (arith, stored, again, named, found)
