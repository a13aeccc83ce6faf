-- ===== src/Ledger/Listings.antt =====
-- runtime/ledger.py: the lists of queued runs, scopes, invocations, attempts and commands, the
-- invocation of a node and the latest attempt of an invocation. Ids are in the order of their texts;
-- `ORDER BY created_at` alone keeps the order of rows with equal times here, which SQLite leaves open.
pub mod Queue
pub mod Latest
use multiverse.Base.{
  ℕ, Bool, true, ◌&&◌, ◌||◌, Option, none, some, List, [], ◌∷◌, ◌==◌, ltb, select, select_all, take,
  order_by, is_some_of, if◌then◌else◌,
}
use multiverse.Ledger.Status.RunStatus
use multiverse.Ledger.Schema.{
  Run, Scope, Invocation, Attempt, Command, CommandOperation, command_operation_eq,
}
use multiverse.Ledger.Tx.Monad.{Error, gets, raise_if, ◌>>◌}
use multiverse.Ledger.Tx.Database.{Tx}
use multiverse.Ledger.Waits.{in_scope}

-- ORDER BY created_at, id
abbrev pub run_before : Run → Run → Bool
run_before a b = ltb a.created_at b.created_at || a.created_at == b.created_at && ltb a.id b.id

-- status = 'queued', and the namespace if one is given
abbrev pub is_queued_in : Option ℕ → Run → Bool
is_queued_in ns r = RunStatus.is_queued r.status && in_scope ns r.namespace

unfoldable pub list_queued_runs : Option ℕ → ℕ → Tx (List Run)
list_queued_runs ns limit = do
  raise_if (ltb limit 1) Error.bad_limit
  gets (λ s. take limit (order_by run_before (select_all (is_queued_in ns) s.runs)))

abbrev pub scope_before : Scope → Scope → Bool
scope_before a b = ltb a.created_at b.created_at || a.created_at == b.created_at && ltb a.id b.id

unfoldable pub list_scopes : ℕ → Tx (List Scope)
list_scopes run =
    gets (λ s. order_by scope_before (select_all (λ (x : Scope). x.run_id == run) s.scopes))

unfoldable pub list_child_scopes : ℕ → Tx (List Scope)
list_child_scopes parent = gets (λ s.
    order_by scope_before
      (select_all (λ (x : Scope). is_some_of x.parent_invocation_id parent) s.scopes))

-- WHERE scope_id = ? AND node_id = ?
unfoldable pub get_invocation_for_node : ℕ → ℕ → Tx (Option Invocation)
get_invocation_for_node scope node =
    gets (λ s. select (λ (i : Invocation). i.scope_id == scope && i.node_id == node) s.invocations)

unfoldable pub list_invocations : ℕ → Tx (List Invocation)
list_invocations run = gets (λ s.
    order_by (λ (a b : Invocation). ltb a.created_at b.created_at)
      (select_all (λ (i : Invocation). i.run_id == run) s.invocations))

abbrev pub invocation_before : Invocation → Invocation → Bool
invocation_before a b =
    ltb a.created_at b.created_at || a.created_at == b.created_at && ltb a.id b.id

unfoldable pub list_scope_invocations : ℕ → Tx (List Invocation)
list_scope_invocations scope = gets (λ s.
    order_by invocation_before (select_all (λ (i : Invocation). i.scope_id == scope) s.invocations))

-- ORDER BY created_at, attempt_no
abbrev pub attempt_before : Attempt → Attempt → Bool
attempt_before a b =
    ltb a.created_at b.created_at || a.created_at == b.created_at && ltb a.attempt_no b.attempt_no

unfoldable pub list_attempts : ℕ → Tx (List Attempt)
list_attempts run =
    gets (λ s. order_by attempt_before (select_all (λ (a : Attempt). a.run_id == run) s.attempts))

-- ORDER BY attempt_no DESC LIMIT 1: the row with the highest number.
abbrev pub higher : Attempt → Option Attempt → Option Attempt
higher a none = some a
higher a (some b) = if ltb a.attempt_no b.attempt_no then some b else some a

abbrev pub highest : ℕ → List Attempt → Option Attempt
highest k [] = none
highest k (a ∷ t) = let rest = highest k t in if a.invocation_id == k then higher a rest else rest

unfoldable pub latest_attempt : ℕ → Tx (Option Attempt)
latest_attempt k = gets (λ s. highest k s.attempts)

-- ORDER BY created_at, id
abbrev pub command_before : Command → Command → Bool
command_before a b = ltb a.created_at b.created_at || a.created_at == b.created_at && ltb a.id b.id

abbrev pub of_operation : Option CommandOperation → CommandOperation → Bool
of_operation none o = true
of_operation (some x) o = command_operation_eq o x

abbrev pub is_command_with : ℕ → Option ℕ → Option ℕ → Option CommandOperation → Command → Bool
is_command_with key ns subject operation c =
    c.idempotency_key == key
    && in_scope ns c.namespace
    && in_scope subject c.subject
    && of_operation operation c.operation

unfoldable pub list_commands_by_key :
    ℕ → Option ℕ → Option ℕ → Option CommandOperation → Tx (List Command)
list_commands_by_key key ns subject operation = gets (λ s.
    order_by command_before (select_all (is_command_with key ns subject operation) s.commands))
