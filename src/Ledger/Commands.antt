-- ===== src/Ledger/Commands.antt =====
-- runtime/ledger.py: `create_command` and `finish_command`.
pub mod Evolution
pub mod Idempotence
use multiverse.Base.{ℕ, Bool, not, ◌&&◌, Option, none, some, ◌==◌, opt_eq, select}
use multiverse.Ledger.Status.CommandStatus
use multiverse.Ledger.Status.CommandStatus.{CommandStatus}
use multiverse.Ledger.Schema.{
  Command, CommandOperation, ErrorJson, opt_error_eq, command_operation_eq,
}
use multiverse.Ledger.Tx.Monad.{
  Error, Entity, Conflict, pure, gets, or_raise, raise_if, branch, ◌>>=◌, ◌>>◌,
}
use multiverse.Ledger.Tx.Database.{Db, Tx, update_commands, insert_command}
use multiverse.Ledger.Queries.{command_of, get_command}

-- A new row of commands.
abbrev pub new_command : ℕ → ℕ → ℕ → ℕ → CommandOperation → ℕ → ℕ → ℕ → Command
new_command now k idempotency_key fingerprint operation namespace resource_id subject = record {
  id = k;
  idempotency_key = idempotency_key;
  fingerprint = fingerprint;
  operation = operation;
  namespace = namespace;
  subject = subject;
  resource_id = resource_id;
  status = CommandStatus.accepted;
  resource_version = none;
  before_version = none;
  after_version = none;
  transition = none;
  error = none;
  created_at = now;
  updated_at = now;
}

unfoldable pub create_command : ℕ → ℕ → ℕ → ℕ → CommandOperation → ℕ → ℕ → ℕ → Tx (Option Command)
unfolding get_command
create_command now k idempotency_key fingerprint operation namespace resource_id subject = do
  insert_command
      (new_command now k idempotency_key fingerprint operation namespace resource_id subject)
  get_command k

-- The three filters count only together; with one of them missing, the key alone does.
unfoldable pub get_command_by_key :
    ℕ → Option ℕ → Option ℕ → Option CommandOperation → Tx (Option Command)
get_command_by_key key (some namespace) (some subject) (some operation) = gets (λ s.
    select
      (λ (c : Command).
        c.idempotency_key == key
        && c.namespace == namespace
        && c.subject == subject
        && command_operation_eq c.operation operation)
      s.commands)
get_command_by_key key _ _ _ =
    gets (λ s. select (λ (c : Command). c.idempotency_key == key) s.commands)

unfoldable pub finish_command :
    ℕ → ℕ → CommandStatus → Option ℕ → Option ErrorJson → Tx (Option Command)
unfolding get_command
finish_command now k status resource_version error = do
  raise_if (CommandStatus.is_accepted status) (Error.conflict Conflict.command_status)
  found ← gets (command_of k)
  row ← or_raise (Error.not_found Entity.command k) found
  branch (not (CommandStatus.is_accepted row.status))
      (do
        raise_if
            (not (
              CommandStatus.same row.status status
              && opt_eq row.resource_version resource_version
              && opt_error_eq row.error error))
            (Error.conflict Conflict.command_terminal)
        pure (some row))
      do
        update_commands (λ c. c.id == k)
            (λ c. record c {
              status = status;
              resource_version = resource_version;
              error = error;
              updated_at = now;
            })
        get_command k
