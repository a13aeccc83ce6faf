-- ===== src/Ledger/Tests/OfRuns.antt =====
-- Sessions on the run: what they keep, a continuation, and the outcome of a command.
use multiverse.Base.{ℕ, ◌+◌, ◌≡◌, refl, true, false, Option, none, some, if◌then◌else◌}
use multiverse.Ledger.Status.CommandStatus
use multiverse.Ledger.Status.CommandStatus.{CommandStatus}
use multiverse.Ledger.Schema.{Run, Command, ErrorJson}
use multiverse.Ledger.Tx.Monad.{Error, Conflict, ok, err, ◌>>=◌, transaction}
use multiverse.Ledger.Tx.Database.{
  Db, insert_run, insert_scope, insert_wait, insert_invocation, insert_attempt, insert_command,
  update_runs, update_commands, event, max_seq,
}
use multiverse.Ledger.Evolution.{IsValid, Evolves}
use multiverse.Ledger.Queries.{run_of, command_of}
use multiverse.Ledger.Runs.{new_run, create_queued_run, update_run}
use multiverse.Ledger.Runs.Coherence.{IsCoherent, update_run-IsCoherent}
use multiverse.Ledger.Scopes.{create_invocation}
use multiverse.Ledger.Attempts.{create_attempt, max_attempt_no}
use multiverse.Ledger.Commands.{create_command, finish_command}
use multiverse.Ledger.Commands.Idempotence.{has_outcome, finish_command-final}
use multiverse.Ledger.Session.{after_session, after_call}
use multiverse.Ledger.Session.Evolution.{after_session-Evolves}
use multiverse.Ledger.Tests.Samples.{
  spec, to_running, start_calls, queued, started, asked, queued-IsValid, value_or,
}

after_session_example :
    IsValid (after_session queued start_calls) × Evolves queued (after_session queued start_calls)
after_session_example = after_session-Evolves queued start_calls queued-IsValid

abbrev or_run : Option Run → Run → Run
or_run none d = d
or_run (some r) d = r

abbrev started_run : Run
started_run = or_run (run_of 1 started) (new_run 10 1 7 spec none)

run_there : run_of 1 started ≡ some started_run
unfolding after_session after_call create_queued_run create_invocation create_attempt update_run
    insert_run insert_scope insert_wait insert_invocation insert_attempt update_runs event max_seq
    max_attempt_no transaction ◌>>=◌
run_there = refl

abbrev moved : Option Run × Db
moved = value_or (none, started) (update_run 20 1 to_running started)

moves : update_run 20 1 to_running started ≡ ok moved
unfolding after_session after_call create_queued_run create_invocation create_attempt update_run
    insert_run insert_scope insert_wait insert_invocation insert_attempt update_runs event max_seq
    max_attempt_no transaction ◌>>=◌
moves = refl

update_run-IsCoherent_example :
    (row' : Run) × (moved.0 ≡ some row')
    × (run_of 1 moved.1 ≡ some row')
    × (row'.version ≡ started_run.version + 1)
    × IsCoherent moved.1 row'
update_run-IsCoherent_example =
    update_run-IsCoherent 20 1 to_running started started_run moved run_there moves

abbrev finished : Option Command × Db
finished = value_or (none, asked) (finish_command 30 20 CommandStatus.completed (some 3) none asked)

finishes : finish_command 30 20 CommandStatus.completed (some 3) none asked ≡ ok finished
unfolding after_session after_call create_queued_run create_invocation create_attempt update_run
    insert_run insert_scope insert_wait insert_invocation insert_attempt insert_command update_runs
    update_commands event max_seq max_attempt_no create_command finish_command transaction ◌>>=◌
finishes = refl

finish_command-final_example :
    (c : Command) × (command_of 20 finished.1 ≡ some c)
    × (has_outcome CommandStatus.completed (some 3) none c ≡ true)
    × ((now' : ℕ) (status' : CommandStatus) (version' : Option ℕ) (error' : Option ErrorJson)
        → CommandStatus.is_accepted status' ≡ false
        → finish_command now' 20 status' version' error' finished.1 ≡ (
            if has_outcome status' version' error' c
            then ok (some c, finished.1)
            else err (Error.conflict Conflict.command_terminal)))
finish_command-final_example =
    finish_command-final 30 20 CommandStatus.completed (some 3) none asked finished finishes
