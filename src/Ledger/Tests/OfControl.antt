-- ===== src/Ledger/Tests/OfControl.antt =====
-- A running run that is paused by a command, resumed with a wake, and cancelled.
use multiverse.Base.{
  All, In, ◌≡◌, ◌⊎◌, refl, true, false, Option, none, some, List, [], ◌∷◌, is_blank,
}
use multiverse.Ledger.Status.RunStatus.{RunStatus}
use multiverse.Ledger.Status.ControlMode.{ControlMode}
use multiverse.Ledger.Status.AttemptStatus.{AttemptStatus}
use multiverse.Ledger.Schema.{Attempt, Run, Command, Operation, CommandOperation}
use multiverse.Ledger.Tx.Monad.{ok, ◌>>=◌, transaction}
use multiverse.Ledger.Tx.Database.{
  Db, insert_run, insert_scope, insert_wait, insert_invocation, insert_attempt, insert_command,
  update_runs, update_scopes, update_invocations, update_attempts, update_waits, update_commands,
  event, max_seq,
}
use multiverse.Ledger.Tx.Dialogue.{update_requests}
use multiverse.Ledger.Evolution.{IsValid}
use multiverse.Ledger.Evolution.Rules.{Evolves-refl}
use multiverse.Ledger.Queries.{run_of, command_of}
use multiverse.Ledger.Runs.{new_run, create_queued_run, update_run}
use multiverse.Ledger.Scopes.{create_invocation}
use multiverse.Ledger.Attempts.{create_attempt, max_attempt_no}
use multiverse.Ledger.Commands.{new_command, create_command}
use multiverse.Ledger.Control.{control_run, command_applied}
use multiverse.Ledger.Control.Locking.{control_run-locked}
use multiverse.Ledger.Control.Children.{NothingAwaited, NothingRuns, IsOver, IsActive}
use multiverse.Ledger.Control.Cancellation.{control_run-cancels}
use multiverse.Ledger.Control.Replay.{control_run-replays}
use multiverse.Ledger.Control.Wakes.{control_run-one_wake}
use multiverse.Ledger.Session.{Call, after_session, after_call}
use multiverse.Ledger.Session.Evolution.{after_session-Evolves}
use multiverse.Ledger.Control.Evolution.{control_run-Keeps}
use multiverse.Ledger.Tests.Samples.{spec, started, asked, started-IsValid, value_or}

-- The run as a client has read it, at version 2.
abbrev or_run : Run → Option Run → Run
or_run d none = d
or_run d (some r) = r

abbrev cancelled : Option Run × Db
cancelled =
    value_or (none, started) (control_run 30 70 1 Operation.cancel 2 "stop" none false started)

cancels : control_run 30 70 1 Operation.cancel 2 "stop" none false started ≡ ok cancelled
unfolding after_session after_call create_queued_run create_invocation create_attempt update_run
    insert_run insert_scope insert_wait insert_invocation insert_attempt update_runs event max_seq
    max_attempt_no control_run update_scopes update_invocations update_attempts update_waits
    update_requests transaction is_blank ◌>>=◌
cancels = refl

control_run-cancels_example :
    NothingAwaited 1 cancelled.1
    × (row : Run) × (cancelled.0 ≡ some row)
    × (row.control_mode ≡ ControlMode.cancel)
    × (((row.status ≡ RunStatus.stopping)
          × ((a : Attempt) × In a started.attempts × (a.run_id ≡ 1) × IsActive a.status)
          × (cancelled.1.attempts ≡ started.attempts))
        ⊎ ((row.status ≡ RunStatus.cancelled)
            × All
                (λ (a : Attempt).
                  a.run_id ≡ 1 → (a.status ≡ AttemptStatus.waiting) ⊎ IsOver a.status)
                started.attempts
            × NothingRuns 1 started cancelled.1))
control_run-cancels_example =
    control_run-cancels 30 70 1 2 "stop" none false started none cancelled refl refl cancels

-- A client that has read the run as it was queued, at version 1, is too late for `started`; with
-- the run as it is there, it pauses it.
abbrev seen : Run
seen = or_run (new_run 10 1 7 spec none) (run_of 1 started)

seen_there : run_of 1 started ≡ some seen
unfolding after_session after_call create_queued_run create_invocation create_attempt update_run
    insert_run insert_scope insert_wait insert_invocation insert_attempt update_runs event max_seq
    max_attempt_no transaction ◌>>=◌
seen_there = refl

abbrev paused : Option Run × Db
paused =
    value_or (none, started)
      (control_run 30 70 1 Operation.pause seen.version "stop" none false started)

pauses : control_run 30 70 1 Operation.pause seen.version "stop" none false started ≡ ok paused
unfolding after_session after_call create_queued_run create_invocation create_attempt update_run
    insert_run insert_scope insert_wait insert_invocation insert_attempt update_runs event max_seq
    max_attempt_no control_run transaction is_blank ◌>>=◌
pauses = refl

control_run-locked_example :
    (run : Run) × (run_of 1 started ≡ some run)
    × (run.status ≡ seen.status)
    × (run.control_mode ≡ seen.control_mode)
control_run-locked_example =
    control_run-locked 30 70 1 Operation.pause "stop" none false started started seen none paused
      seen_there (Evolves-refl started) refl refl pauses

-- Command 20, which asks for the pause.
abbrev pause_command : Command
pause_command = new_command 16 20 50 51 (CommandOperation.control Operation.pause) 7 1 60

abbrev ordered : Option Run × Db
ordered =
    value_or (none, asked) (control_run 30 70 1 Operation.pause 2 "stop" (some 20) false asked)

command_there : command_of 20 asked ≡ some pause_command
unfolding after_session after_call create_queued_run create_invocation create_attempt update_run
    insert_run insert_scope insert_wait insert_invocation insert_attempt insert_command update_runs
    event max_seq max_attempt_no create_command transaction ◌>>=◌
command_there = refl

orders : control_run 30 70 1 Operation.pause 2 "stop" (some 20) false asked ≡ ok ordered
unfolding after_session after_call create_queued_run create_invocation create_attempt update_run
    insert_run insert_scope insert_wait insert_invocation insert_attempt insert_command update_runs
    update_commands event max_seq max_attempt_no create_command control_run transaction is_blank
    ◌>>=◌
orders = refl

abbrev paused_run : Run
paused_run = or_run (new_run 10 1 7 spec none) (run_of 1 ordered.1)

paused_there : run_of 1 ordered.1 ≡ some paused_run
unfolding after_session after_call create_queued_run create_invocation create_attempt update_run
    insert_run insert_scope insert_wait insert_invocation insert_attempt insert_command update_runs
    update_commands event max_seq max_attempt_no create_command control_run transaction is_blank
    ◌>>=◌
paused_there = refl

control_run-replays_example :
    control_run 35 71 1 Operation.pause 2 "stop" (some 20) true ordered.1
    ≡ ok (some paused_run, ordered.1)
unfolding command_applied
control_run-replays_example =
    control_run-replays 30 70 1 Operation.pause 2 "stop" 20 false asked pause_command ordered
      command_there refl refl refl refl orders 35 71 true paused_run paused_there

-- The run is paused, resumed with a wake, and paused again at version 5.
abbrev resumed : Option Run × Db
resumed = value_or (none, started) (control_run 40 72 1 Operation.resume 3 "go" none true paused.1)

resumes : control_run 40 72 1 Operation.resume 3 "go" none true paused.1 ≡ ok resumed
unfolding after_session after_call create_queued_run create_invocation create_attempt update_run
    insert_run insert_scope insert_wait insert_invocation insert_attempt update_runs event max_seq
    max_attempt_no control_run transaction is_blank ◌>>=◌
resumes = refl

paused-IsValid : IsValid paused.1
paused-IsValid =
    ((control_run-Keeps started 30 70 1 Operation.pause seen.version "stop" none false).at
      started-IsValid paused.0 paused.1 pauses).0

resumed-IsValid : IsValid resumed.1
resumed-IsValid =
    ((control_run-Keeps paused.1 40 72 1 Operation.resume 3 "go" none true).at paused-IsValid
      resumed.0 resumed.1 resumes).0

abbrev again : List Call
again = Call.control_run 50 73 1 Operation.pause 4 "stop" none false ∷ []

control_run-one_wake_example : ¬ (
    control_run 60 74 1 Operation.resume 5 "go" none true (after_session resumed.1 again)
    ≡ ok paused)
control_run-one_wake_example =
    control_run-one_wake 40 72 1 3 "go" none none paused.1 resumed (after_session resumed.1 again)
      paused-IsValid refl refl resumes (after_session-Evolves resumed.1 again resumed-IsValid).1 60
      74 5 "go" none none paused refl refl
