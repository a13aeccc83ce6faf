-- ===== src/Ledger/Scopes.antt =====
-- runtime/ledger.py: the scopes of a run and the invocations of their nodes. `digest` is `_digest`.
pub mod Evolution
use multiverse.Base.{ℕ, ◌+◌, Option, none, some, List, ◌==◌, is_none, if◌then◌else◌}
use multiverse.Ledger.Status.ScopeStatus.{ScopeStatus}
use multiverse.Ledger.Status.InvocationStatus
use multiverse.Ledger.Status.InvocationStatus.{InvocationStatus}
use multiverse.Ledger.Schema.{Scope, Invocation, OutputJson, ErrorJson, EventPayload}
use multiverse.Ledger.Tx.Monad.{Error, Entity, Conflict, gets, or_raise, raise_if, ◌>>=◌, ◌>>◌}
use multiverse.Ledger.Tx.Database.{
  Tx, update_scopes, update_invocations, insert_scope, insert_invocation, event,
}
use multiverse.Ledger.Queries.{run_of, scope_of, scope_in, invocation_of, get_scope, get_invocation}

unfoldable pub create_scope :
    (ℕ → ℕ) → ℕ → ℕ → ℕ → ℕ → List ℕ → ℕ → Option ℕ → Option ℕ → Tx (Option Scope)
unfolding get_scope
create_scope digest now new run workflow path input parent parent_invocation = do
  found ← gets (run_of run)
  or_raise (Error.not_found Entity.run run) found
  insert_scope (record {
    id = new;
    run_id = run;
    parent_scope_id = parent;
    parent_invocation_id = parent_invocation;
    workflow_id = workflow;
    path = path;
    input = input;
    input_digest = digest input;
    status = ScopeStatus.active;
    output = none;
    error = none;
    created_at = now;
  })
  event now run (EventPayload.scope_created workflow (digest input)) (some new) none none
  get_scope new

unfoldable pub finish_scope :
    ℕ → ℕ → ScopeStatus → Option OutputJson → Option ErrorJson → Tx (Option Scope)
unfolding get_scope
finish_scope now k status output error = do
  found ← gets (scope_of k)
  scope ← or_raise (Error.not_found Entity.scope k) found
  update_scopes (λ c. c.id == k) (λ c. record c { status = status; output = output; error = error })
  event now scope.run_id (EventPayload.scope_updated status) (some k) none none
  get_scope k

-- `input_digest or _digest(input_json)`
abbrev pub digest_or : Option ℕ → ℕ → ℕ
digest_or none d = d
digest_or (some k) d = k

unfoldable pub create_invocation :
    (ℕ → ℕ) → ℕ → ℕ → ℕ → ℕ → ℕ → ℕ → Option ℕ → Tx (Option Invocation)
unfolding get_invocation
create_invocation digest now new run scope node input input_digest = do
  found ← gets (scope_in scope run)
  or_raise (Error.not_found Entity.scope scope) found
  insert_invocation (record {
    id = new;
    run_id = run;
    scope_id = scope;
    node_id = node;
    status = InvocationStatus.planned;
    input = input;
    input_digest = digest_or input_digest (digest input);
    output = none;
    error = none;
    version = 1;
    created_at = now;
    updated_at = now;
  })
  event now run (EventPayload.invocation_created node) (some scope) (some new) none
  get_invocation new

unfoldable pub finish_invocation :
    ℕ → ℕ → InvocationStatus → Option OutputJson → Option ErrorJson → Tx (Option Invocation)
unfolding get_invocation
finish_invocation now k status output error = do
  found ← gets (invocation_of k)
  row ← or_raise (Error.not_found Entity.invocation k) found
  raise_if (InvocationStatus.is_terminal row.status)
      (Error.conflict (Conflict.invocation_terminal row.status))
  let version = row.version + 1
  update_invocations (λ i. i.id == k)
      (λ i. record i {
        status = status;
        output = output;
        error = error;
        version = version;
        updated_at = now;
      })
  event now row.run_id (EventPayload.invocation_updated status version) (some row.scope_id) (some k)
      none
  get_invocation k
