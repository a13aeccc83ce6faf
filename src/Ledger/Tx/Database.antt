-- ===== src/Ledger/Tx/Database.antt =====
-- The state of the database and the SQL statements that the ledger's methods are made of: updates
-- with their row count, and inserts with the PRIMARY KEY, UNIQUE and REFERENCES clauses of
-- runtime/ledger.py, `_initialize` (foreign keys are on).
use multiverse.Base.{
  ℕ, ◌+◌, max, Bool, true, not, ◌&&◌, ◌||◌, Option, none, some, List, [], ◌∷◌, ◌++◌, ◌==◌,
  if◌then◌else◌, update_where, count_where, exists_where,
}
use multiverse.Ledger.Schema.{
  Run, Scope, Invocation, Attempt, Outbox, Wait, Command, HumanRequest, HumanDecision,
  ProgressIntent, TurnLease, Interaction, Event, EventPayload, key_eq, command_operation_eq,
}
use multiverse.Ledger.Tx.Monad.{TxOn, ok, err, Error}

-- The tables of what a run asks of people and of native sessions.
pub record Dialogue : Type 0 where
  pub requests : List HumanRequest
  pub decisions : List HumanDecision
  pub intents : List ProgressIntent
  pub leases : List TurnLease
  pub interactions : List Interaction

pub record Db : Type 0 where
  pub runs : List Run
  pub scopes : List Scope
  pub invocations : List Invocation
  pub attempts : List Attempt
  pub outbox : List Outbox
  pub waits : List Wait
  pub commands : List Command
  pub dialogue : Dialogue
  pub events : List Event

abbrev pub empty : Db
empty = record {
  runs = [];
  scopes = [];
  invocations = [];
  attempts = [];
  outbox = [];
  waits = [];
  commands = [];
  dialogue = record { requests = []; decisions = []; intents = []; leases = []; interactions = [] };
  events = [];
}

abbrev pub Tx : Type 0 → Type 0
Tx = TxOn Db

-- REFERENCES runs(id) and so on, for a column that is not NULL, and for one that may be.
abbrev pub has_run : Db → ℕ → Bool
has_run s k = exists_where (λ r. r.id == k) s.runs

abbrev pub has_scope : Db → ℕ → Bool
has_scope s k = exists_where (λ r. r.id == k) s.scopes

abbrev pub has_invocation : Db → ℕ → Bool
has_invocation s k = exists_where (λ r. r.id == k) s.invocations

abbrev pub has_attempt : Db → ℕ → Bool
has_attempt s k = exists_where (λ r. r.id == k) s.attempts

abbrev pub or_null : (ℕ → Bool) → Option ℕ → Bool
or_null p none = true
or_null p (some k) = p k

unfoldable pub update_runs : (Run → Bool) → (Run → Run) → Tx ℕ
update_runs p f s = ok (count_where p s.runs, record s { runs = update_where p f s.runs })

unfoldable pub update_scopes : (Scope → Bool) → (Scope → Scope) → Tx ℕ
update_scopes p f s = ok (count_where p s.scopes, record s { scopes = update_where p f s.scopes })

unfoldable pub update_invocations : (Invocation → Bool) → (Invocation → Invocation) → Tx ℕ
update_invocations p f s =
    ok (count_where p s.invocations, record s { invocations = update_where p f s.invocations })

unfoldable pub update_attempts : (Attempt → Bool) → (Attempt → Attempt) → Tx ℕ
update_attempts p f s =
    ok (count_where p s.attempts, record s { attempts = update_where p f s.attempts })

unfoldable pub update_outbox : (Outbox → Bool) → (Outbox → Outbox) → Tx ℕ
update_outbox p f s = ok (count_where p s.outbox, record s { outbox = update_where p f s.outbox })

unfoldable pub update_waits : (Wait → Bool) → (Wait → Wait) → Tx ℕ
update_waits p f s = ok (count_where p s.waits, record s { waits = update_where p f s.waits })

unfoldable pub update_commands : (Command → Bool) → (Command → Command) → Tx ℕ
update_commands p f s =
    ok (count_where p s.commands, record s { commands = update_where p f s.commands })

-- An insert that the clauses of the table allow, or `IntegrityError`.
abbrev pub insert_if : Bool → Db → Tx (Unit {0})
insert_if allowed s' s = if allowed then ok (tt, s') else err Error.integrity

unfoldable pub insert_run : Run → Tx (Unit {0})
insert_run r s =
    insert_if (not (has_run s r.id) && or_null (has_run s) r.spec.rerun_of)
      (record s { runs = s.runs ++ r ∷ [] }) s

unfoldable pub insert_scope : Scope → Tx (Unit {0})
insert_scope r s =
    insert_if
      (not (has_scope s r.id) && has_run s r.run_id && or_null (has_scope s) r.parent_scope_id)
      (record s { scopes = s.scopes ++ r ∷ [] }) s

unfoldable pub insert_invocation : Invocation → Tx (Unit {0})
insert_invocation r s =
    insert_if
      (not (
          exists_where (λ o. o.id == r.id || o.scope_id == r.scope_id && o.node_id == r.node_id)
            s.invocations)
        && has_run s r.run_id
        && has_scope s r.scope_id)
      (record s { invocations = s.invocations ++ r ∷ [] }) s

unfoldable pub insert_attempt : Attempt → Tx (Unit {0})
insert_attempt r s =
    insert_if
      (not (
          exists_where
            (λ o.
              o.id == r.id
              || o.dispatch_key == r.dispatch_key
              || o.invocation_id == r.invocation_id && o.attempt_no == r.attempt_no)
            s.attempts)
        && has_run s r.run_id
        && has_scope s r.scope_id
        && has_invocation s r.invocation_id)
      (record s { attempts = s.attempts ++ r ∷ [] }) s

unfoldable pub insert_outbox : Outbox → Tx (Unit {0})
insert_outbox r s =
    insert_if
      (not (exists_where (λ o. o.id == r.id || o.attempt_id == r.attempt_id) s.outbox)
        && has_run s r.run_id
        && has_scope s r.scope_id
        && has_invocation s r.invocation_id
        && has_attempt s r.attempt_id)
      (record s { outbox = s.outbox ++ r ∷ [] }) s

-- The rows that UNIQUE(namespace, wait_key) and the primary key allow only once.
abbrev pub same_wait : Wait → Wait → Bool
same_wait w o = o.id == w.id || o.namespace == w.namespace && key_eq o.wait_key w.wait_key

unfoldable pub insert_wait : Wait → Tx (Unit {0})
insert_wait w s =
    insert_if
      (not (exists_where (same_wait w) s.waits)
        && has_run s w.run_id
        && or_null (has_scope s) w.scope_id
        && or_null (has_invocation s) w.invocation_id)
      (record s { waits = s.waits ++ w ∷ [] }) s

unfoldable pub insert_command : Command → Tx (Unit {0})
insert_command c s =
    insert_if
      (not (
        exists_where
          (λ o.
            o.id == c.id
            || o.namespace == c.namespace
              && o.subject == c.subject
              && command_operation_eq o.operation c.operation
              && o.idempotency_key == c.idempotency_key)
          s.commands))
      (record s { commands = s.commands ++ c ∷ [] }) s

-- SELECT COALESCE(MAX(seq), 0) FROM run_events WHERE run_id = ?
unfoldable pub max_seq : ℕ → List Event → ℕ
max_seq k [] = 0
max_seq k (e ∷ es) = let rest = max_seq k es in if e.run_id == k then max e.seq rest else rest

-- `_event`, at time `now`; the rows refer to the run by REFERENCES runs(id).
unfoldable pub event : ℕ → ℕ → EventPayload → Option ℕ → Option ℕ → Option ℕ → Tx (Unit {0})
event now run payload scope invocation attempt s =
    insert_if (has_run s run)
      (record s {
        events =
            s.events
            ++ (record {
              run_id = run;
              scope_id = scope;
              invocation_id = invocation;
              attempt_id = attempt;
              seq = max_seq run s.events + 1;
              payload = payload;
              occurred_at = now;
            })
              ∷ [];
      })
      s
