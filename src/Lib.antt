-- ===== src/Lib.antt =====
-- Multiverse: a workflow engine whose runs live in a durable ledger, an SQLite database. A run has
-- scopes, a scope has invocations of nodes, an invocation has attempts; an attempt on an external
-- executor has a row in the outbox, and observations. Waits wake workers, commands make control
-- idempotent, and events tell clients what has happened. All this state is changed by the methods of
-- the class Ledger (src/multiverse_workflow/runtime/ledger.py), each in one transaction; the runner,
-- the workers, the service and the API call those methods. The compiler checks, before a run, that
-- the graph of a workflow can be run. This library models the ledger and the checks of graphs.
--
-- Files:
--   Base             tests, tables as lists of rows, updates with their row counts, lookups by key,
--                    ORDER BY
--   Ledger/Status    the values of the status columns, and the sets of them that the code tests
--   Ledger/Schema    the rows of the tables, keys, payloads and events (`_initialize`)
--   Ledger/Tx        results and errors, `_transaction`, the tables with their UNIQUE and REFERENCES
--                    clauses, SQL updates and inserts, `_event` and its numbers
--   Ledger/Queries   reads by primary key and `_require_*`
--   Ledger/Waits     durable waits, their lists, the waits that attempts need, and the scoped
--                    claim of runtime/wait_store.py
--   Ledger/Runs      create_run, create_queued_run, update_run
--   Ledger/Control   control_run and `_command_applied_for_control`
--   Ledger/Commands  create_command, get_command_by_key, finish_command
--   Ledger/Scopes    scopes and invocations
--   Ledger/Attempts  attempts, retries and the reconciliation of unknown outcomes
--   Ledger/Submit    the outbox of submissions to external executors
--   Ledger/Observations  record_external_observation
--   Ledger/Requests  human requests, their decisions, and the progress intents
--   Ledger/Leases    the turn leases of native sessions
--   Ledger/Interactions  what native sessions ask: replies, delivery, expiry
--   Ledger/Listings  the lists of runs, scopes, invocations, attempts and commands; latest_attempt
--   Ledger/Events    record_event, list_events, list_events_after, get_event_cursor
--   Ledger/Dialogue  what a transaction may do to the tables of requests, leases and interactions
--   Ledger/Evolution what a transaction may do to each table, and the rules that show it of a method
--   Ledger/Session   any sequence of calls, each committed or rolled back
--   Ledger/Tests     the theorems at concrete runs
--   Compiler/Graph   compiler/graph.py: edges, `_reachable`, `_find_cycle`, `validate_graph`; Paths
--                    and Correct/Accepts say what a well-formed graph is
--
-- A method is a function from the database to a result with the new database, or to an error; an
-- error has no database, since the transaction is rolled back. An UPDATE is `update_where` with its
-- row count, a SELECT with `fetchone` is `select`, which takes the first row. A fresh id (`_new_id`)
-- and the time of a method (`_now`) are arguments: one number `now` stands for all the calls of
-- `_now` in a method. Texts that the code only hands on or compares (ids, digests, JSON documents) are
-- numbers; texts whose form the code tests (worker ids, references, reasons) are strings, and the
-- keys and payloads that it builds are data types. `_digest` is a parameter.
-- The modelled methods of the ledger recurse only on rows, without fuel. The searches of
-- compiler/graph.py take fuel: `_reachable` one unit for each element that it takes from its stack,
-- of which there are no more than edges and one; `_find_cycle` one for each level of its recursion,
-- of which there are no more than nodes and one.
-- The depth at which Python stops a recursion is not modelled. A key that a caller gives to
-- `create_wait` is taken to differ from those that the ledger builds (`run-start:` and so on).
--
-- Not modelled: agent sessions and native bindings, artifacts, the PostgreSQL repository, the
-- runner and the workers, the provider adapters, the rest of the compiler, the service, the API and
-- the command line. SQLite itself, its journal and its locks are taken to give each method its
-- transaction.
pub mod Base
pub mod Compiler
pub mod Ledger
