-- ===== src/Ledger/Queries.antt =====
-- runtime/ledger.py: the reads by primary key, and the `_require_*` methods, which raise `KeyError`.
use multiverse.Base.{
  ℕ, ◌≡◌, sym, subst, ◌&&◌, Option, none, some, arith, ◌==◌, select, select-key, if◌then◌else◌,
}
use multiverse.Ledger.Schema.{Run, Scope, Invocation, Attempt, Outbox, Command}
use multiverse.Ledger.Tx.Monad.{gets}
use multiverse.Ledger.Tx.Database.{Db, Tx, has_invocation}

abbrev pub run_of : ℕ → Db → Option Run
run_of k s = select (λ (r : Run). r.id == k) s.runs

abbrev pub scope_of : ℕ → Db → Option Scope
scope_of k s = select (λ (r : Scope). r.id == k) s.scopes

-- `WHERE id = ? AND run_id = ?`
abbrev pub scope_in : ℕ → ℕ → Db → Option Scope
scope_in k run s = select (λ (r : Scope). r.id == k && r.run_id == run) s.scopes

abbrev pub invocation_of : ℕ → Db → Option Invocation
invocation_of k s = select (λ (r : Invocation). r.id == k) s.invocations

abbrev pub attempt_of : ℕ → Db → Option Attempt
attempt_of k s = select (λ (r : Attempt). r.id == k) s.attempts

abbrev pub outbox_of : ℕ → Db → Option Outbox
outbox_of k s = select (λ (r : Outbox). r.id == k) s.outbox

abbrev pub command_of : ℕ → Db → Option Command
command_of k s = select (λ (r : Command). r.id == k) s.commands

-- An attempt, joined to its invocation: `_require_attempt`.
abbrev pub joined : Db → Option Attempt → Option Attempt
joined s none = none
joined s (some a) = if has_invocation s a.invocation_id then some a else none

abbrev pub joined_attempt_of : ℕ → Db → Option Attempt
joined_attempt_of k s = joined s (attempt_of k s)

unfoldable pub get_run : ℕ → Tx (Option Run)
get_run k = gets (run_of k)

unfoldable pub get_scope : ℕ → Tx (Option Scope)
get_scope k = gets (scope_of k)

unfoldable pub get_invocation : ℕ → Tx (Option Invocation)
get_invocation k = gets (invocation_of k)

unfoldable pub get_attempt : ℕ → Tx (Option Attempt)
get_attempt k = gets (attempt_of k)

unfoldable pub get_outbox : ℕ → Tx (Option Outbox)
get_outbox k = gets (outbox_of k)

unfoldable pub get_command : ℕ → Tx (Option Command)
get_command k = gets (command_of k)

joined-some : (s : Db) (o : Option Attempt) (a : Attempt) → joined s o ≡ some a → o ≡ some a
joined-some s none a e = ground arith
joined-some s (some b) a e = ground arith

-- A joined attempt is the row at its key.
pub attempt_of_joined :
    (k : ℕ) (s : Db) (a : Attempt) → joined_attempt_of k s ≡ some a → attempt_of k s ≡ some a
attempt_of_joined k s a e = joined-some s (attempt_of k s) a e

-- The row that a key finds is the row at its own key.
pub run_of_id : (k : ℕ) (s : Db) (r : Run) → run_of k s ≡ some r → run_of r.id s ≡ some r
run_of_id k s r e =
    subst (λ j. run_of j s ≡ some r) (sym (select-key (λ (x : Run). x.id) k s.runs r e)) e

pub invocation_of_id :
    (k : ℕ) (s : Db) (i : Invocation) → invocation_of k s ≡ some i → invocation_of i.id s ≡ some i
invocation_of_id k s i e =
    subst (λ j. invocation_of j s ≡ some i)
      (sym (select-key (λ (x : Invocation). x.id) k s.invocations i e)) e
