-- ===== src/Ledger/Tests/Samples.antt =====
-- A run with one invocation, one attempt and its submission, as sessions of calls build it.
use multiverse.Base.{ℕ, none, some, List, [], ◌∷◌}
use multiverse.Ledger.Status.RunStatus.{RunStatus}
use multiverse.Ledger.Schema.{RunSpec, Operation, CommandOperation}
use multiverse.Ledger.Tx.Monad.{Result, ok, err}
use multiverse.Ledger.Tx.Database.{Db, empty}
use multiverse.Ledger.Evolution.{IsValid}
use multiverse.Ledger.Runs.{RunUpdate, Setting}
use multiverse.Ledger.Session.{Call, after_session}
use multiverse.Ledger.Session.Evolution.{after_session-Evolves, empty-IsValid}

abbrev pub same_digest : ℕ → ℕ
same_digest n = n

abbrev pub spec : RunSpec
spec = record {
  deployment_id = none;
  workflow_id = 30;
  package_digest = 31;
  binding_digest = none;
  plan = 32;
  input = 33;
  input_digest = 34;
  deadline_at = 90;
  rerun_of = none;
  rerun_reason = none;
}

-- Run 1 in namespace 7, its root scope 2, its start wait 3 and its entry node 4.
abbrev pub queue_calls : List Call
queue_calls = Call.create_queued_run same_digest 0 10 1 2 3 7 spec 4 none ∷ []

abbrev pub to_running : RunUpdate
to_running = record {
  status = RunStatus.running;
  node_id = some 4;
  scope_id = Setting.unset;
  invocation_id = Setting.to (some 5);
  control_mode = none;
  output = none;
  error = none;
  next_attempt_at = Setting.unset;
}

-- Invocation 5 and attempt 6 are created, and the run goes on.
abbrev pub start_calls : List Call
start_calls =
    Call.create_invocation same_digest 11 5 1 2 4 33 none
    ∷ Call.create_attempt same_digest 12 6 5 33 40 41 none
    ∷ Call.update_run 13 1 to_running
    ∷ []

-- The attempt is handed to outbox 8, with wait 9.
abbrev pub submit_calls : List Call
submit_calls =
    Call.ensure_submit_outbox same_digest 14 8 9 6 33 ∷ Call.claim_submit_outbox 15 8 ∷ []

-- Command 20 asks to pause the run.
abbrev pub command_calls : List Call
command_calls =
    Call.create_command 16 20 50 51 (CommandOperation.control Operation.pause) 7 1 60 ∷ []

abbrev pub queued : Db
queued = after_session empty queue_calls

abbrev pub started : Db
started = after_session queued start_calls

abbrev pub sent : Db
sent = after_session started submit_calls

abbrev pub asked : Db
asked = after_session started command_calls

pub queued-IsValid : IsValid queued
queued-IsValid = (after_session-Evolves empty queue_calls empty-IsValid).0

pub started-IsValid : IsValid started
started-IsValid = (after_session-Evolves queued start_calls queued-IsValid).0

pub sent-IsValid : IsValid sent
sent-IsValid = (after_session-Evolves started submit_calls started-IsValid).0

-- The value of a call that succeeds.
abbrev pub value_or : {A : Type 0} → A → Result A → A
value_or a (ok b) = b
value_or a (err x) = a
