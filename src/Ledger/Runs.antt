-- ===== src/Ledger/Runs.antt =====
-- runtime/ledger.py: `create_run`, `create_queued_run` and `update_run`. `digest` is `_digest`.
pub mod Evolution
pub mod Coherence
use multiverse.Base.{
  ℕ, ◌+◌, Bool, true, false, not, ◌&&◌, ◌||◌, Option, none, some, List, [], ◌∷◌, ◌==◌, opt_eq,
  is_none, if◌then◌else◌,
}
use multiverse.Ledger.Status.RunStatus.{RunStatus}
use multiverse.Ledger.Status.ControlMode.{ControlMode}
use multiverse.Ledger.Status.ScopeStatus.{ScopeStatus}
use multiverse.Ledger.Status.CommandStatus
use multiverse.Ledger.Schema.{
  Run, RunSpec, Scope, Invocation, WaitKey, WaitKind, Payload, ErrorJson, OutputJson, Transition,
  Continuation, EventPayload,
}
use multiverse.Ledger.Tx.Monad.{
  Error, Entity, Conflict, pure, gets, or_raise, raise_if, raise_found, ◌>>=◌, ◌>>◌,
}
use multiverse.Ledger.Tx.Database.{
  Db, Tx, update_runs, update_commands, insert_run, insert_scope, insert_wait, event,
}
use multiverse.Ledger.Queries.{run_of, scope_of, invocation_of, get_run}
use multiverse.Ledger.Waits.{new_wait}

-- A new row of runs.
abbrev pub new_run : ℕ → ℕ → ℕ → RunSpec → Option ℕ → Run
new_run now k namespace spec node = record {
  id = k;
  namespace = namespace;
  spec = spec;
  status = RunStatus.queued;
  control_mode = ControlMode.run;
  next_attempt_at = none;
  version = 1;
  current_node_id = node;
  current_scope_id = none;
  current_invocation_id = none;
  output = none;
  error = none;
  created_at = now;
  updated_at = now;
}

-- The command of a creation, while it is accepted.
unfoldable pub mark_created : ℕ → Option ℕ → Tx (Unit {0})
mark_created now none = pure tt
mark_created now (some k) = do
  n ←
      update_commands (λ c. c.id == k && CommandStatus.is_accepted c.status)
        (λ c. record c {
          after_version = some 1;
          transition = some Transition.run_created;
          updated_at = now;
        })
  raise_if (not (n == 1)) (Error.conflict Conflict.command_not_accepted)

unfoldable pub create_run : ℕ → ℕ → ℕ → RunSpec → Option ℕ → Tx (Option Run)
unfolding mark_created get_run
create_run now k namespace spec command = do
  insert_run (new_run now k namespace spec none)
  event now k (EventPayload.run_created spec.workflow_id) none none none
  mark_created now command
  get_run k

-- `root` is the path `["root"]`.
unfoldable pub create_queued_run :
    (ℕ → ℕ) → ℕ → ℕ → ℕ → ℕ → ℕ → ℕ → RunSpec → ℕ → Option ℕ → Tx (Option Run)
unfolding mark_created get_run
create_queued_run digest root now k scope_id wait_id namespace spec entry command = do
  insert_run (new_run now k namespace spec (some entry))
  event now k (EventPayload.run_created spec.workflow_id) none none none
  insert_scope (record {
    id = scope_id;
    run_id = k;
    parent_scope_id = none;
    parent_invocation_id = none;
    workflow_id = spec.workflow_id;
    path = root ∷ [];
    input = spec.input;
    input_digest = digest spec.input;
    status = ScopeStatus.active;
    output = none;
    error = none;
    created_at = now;
  })
  update_runs (λ r. r.id == k)
      (λ r. record r {
        current_scope_id = some scope_id;
        current_node_id = some entry;
        updated_at = now;
      })
  event now k (EventPayload.scope_created spec.workflow_id (digest spec.input)) (some scope_id) none
      none
  insert_wait (
      new_wait now wait_id namespace (WaitKey.run_start k) WaitKind.run_start k (some scope_id) none
        now (Payload.of_start k scope_id))
  mark_created now command
  get_run k

-- An argument that may be left out (`_UNSET`), or be given, as None too.
pub data Setting : Type 0 where
  unset : Setting
  to : Option ℕ → Setting

abbrev pub or_kept : Setting → Option ℕ → Option ℕ
or_kept Setting.unset old = old
or_kept (Setting.to v) old = v

-- The keyword arguments of `update_run`.
pub record RunUpdate : Type 0 where
  pub status : RunStatus
  pub node_id : Option ℕ
  pub scope_id : Setting
  pub invocation_id : Setting
  pub control_mode : Option ControlMode
  pub output : Option OutputJson
  pub error : Option ErrorJson
  pub next_attempt_at : Setting

-- `control_mode or row["control_mode"]`
abbrev pub mode_or : Option ControlMode → ControlMode → ControlMode
mode_or none m = m
mode_or (some n) m = n

-- `persisted_scope_id`
abbrev pub next_scope : RunUpdate → Run → Option ℕ
next_scope u row = or_kept u.scope_id row.current_scope_id

-- `persisted_invocation_id`: a new node or scope forgets the invocation, unless one is given.
abbrev pub next_invocation : RunUpdate → Run → Option ℕ
next_invocation u row = elim u.invocation_id [
  | Setting.unset ↦
      if not (opt_eq u.node_id row.current_node_id)
        || not (opt_eq (next_scope u row) row.current_scope_id)
      then none
      else row.current_invocation_id
  | Setting.to v ↦ v
]

-- The checks of the continuation that is to be stored, in the order of the code.
abbrev pub scope_problem : ℕ → Option Scope → Option Error
scope_problem run none = some (Error.conflict Conflict.foreign_scope)
scope_problem run (some c) =
    if c.run_id == run then none else some (Error.conflict Conflict.foreign_scope)

abbrev pub invocation_problem : ℕ → Option ℕ → Option ℕ → Option Invocation → Option Error
invocation_problem run scope at_node none = some (Error.conflict Conflict.foreign_invocation)
invocation_problem run scope at_node (some i) =
    if not (i.run_id == run)
    then some (Error.conflict Conflict.foreign_invocation)
    else if not (opt_eq (some i.scope_id) scope)
    then some (Error.conflict Conflict.other_scope)
    else if not (opt_eq (some i.node_id) at_node)
    then some (Error.conflict Conflict.other_node)
    else none

abbrev pub checked_scope : ℕ → Option ℕ → Db → Option Error
checked_scope run none s = none
checked_scope run (some c) s = scope_problem run (scope_of c s)

abbrev pub checked_invocation : ℕ → Option ℕ → Option ℕ → Option ℕ → Db → Option Error
checked_invocation run scope at_node none s = none
checked_invocation run scope at_node (some i) s =
    invocation_problem run scope at_node (invocation_of i s)

unfoldable pub update_run : ℕ → ℕ → RunUpdate → Tx (Option Run)
unfolding get_run
update_run now k u = do
  found ← gets (run_of k)
  row ← or_raise (Error.not_found Entity.run k) found
  let version = row.version + 1
  let mode = mode_or u.control_mode row.control_mode
  let scope = next_scope u row
  let invocation = next_invocation u row
  raise_if (is_none scope && not (is_none invocation)) (Error.conflict Conflict.scope_required)
  bad_scope ← gets (checked_scope k scope)
  raise_found bad_scope
  bad_invocation ← gets (checked_invocation k scope u.node_id invocation)
  raise_found bad_invocation
  update_runs (λ r. r.id == k)
      (λ r. record r {
        status = u.status;
        control_mode = mode;
        current_node_id = u.node_id;
        current_scope_id = scope;
        current_invocation_id = invocation;
        output = u.output;
        error = u.error;
        next_attempt_at = or_kept u.next_attempt_at row.next_attempt_at;
        version = version;
        updated_at = now;
      })
  event now k
      (EventPayload.run_updated u.status mode
        (record { scope_id = scope; node_id = u.node_id; invocation_id = invocation }) version)
      none none none
  get_run k
