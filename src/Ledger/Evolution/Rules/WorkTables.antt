-- ===== src/Ledger/Evolution/Rules/WorkTables.antt =====
-- A change of the table of runs, scopes, invocations or attempts keeps the ledger valid if it keeps
-- what validity says of that table, and moves the ledger as promised if it moves that table so.
use multiverse.Base.{Grows, Distinct, List}
use multiverse.Ledger.Schema.{Run, Scope, Invocation, Attempt}
use multiverse.Ledger.Tx.Database.{Db}
use multiverse.Ledger.Evolution.{
  RunMoves, ScopeMoves, InvocationMoves, AttemptMoves, IsValid, Evolves,
}
use multiverse.Ledger.Evolution.Rules.Steps.{Evolves-refl}

module _ (s : Db) where
  pub runs-kept :
      (t : List Run)
      → IsValid s
      → Distinct (λ (r : Run). r.id) t
      → Grows RunMoves s.runs t
      → IsValid (record s { runs = t }) × Evolves s (record s { runs = t })
  runs-kept t v d g = (
    record {
      run_ids = d;
      scope_ids = v.scope_ids;
      invocation_ids = v.invocation_ids;
      attempt_ids = v.attempt_ids;
      outbox_ids = v.outbox_ids;
      wait_ids = v.wait_ids;
      wait_keys = v.wait_keys;
      command_ids = v.command_ids;
      owned = v.owned;
      dialogue = v.dialogue;
      numbered = v.numbered;
    },
    record {
      runs = g;
      scopes = (Evolves-refl s).scopes;
      invocations = (Evolves-refl s).invocations;
      attempts = (Evolves-refl s).attempts;
      outbox = (Evolves-refl s).outbox;
      waits = (Evolves-refl s).waits;
      commands = (Evolves-refl s).commands;
      dialogue = (Evolves-refl s).dialogue;
      events = (Evolves-refl s).events;
    },
  )

  pub scopes-kept :
      (t : List Scope)
      → IsValid s
      → Distinct (λ (r : Scope). r.id) t
      → Grows ScopeMoves s.scopes t
      → IsValid (record s { scopes = t }) × Evolves s (record s { scopes = t })
  scopes-kept t v d g = (
    record {
      run_ids = v.run_ids;
      scope_ids = d;
      invocation_ids = v.invocation_ids;
      attempt_ids = v.attempt_ids;
      outbox_ids = v.outbox_ids;
      wait_ids = v.wait_ids;
      wait_keys = v.wait_keys;
      command_ids = v.command_ids;
      owned = v.owned;
      dialogue = v.dialogue;
      numbered = v.numbered;
    },
    record {
      runs = (Evolves-refl s).runs;
      scopes = g;
      invocations = (Evolves-refl s).invocations;
      attempts = (Evolves-refl s).attempts;
      outbox = (Evolves-refl s).outbox;
      waits = (Evolves-refl s).waits;
      commands = (Evolves-refl s).commands;
      dialogue = (Evolves-refl s).dialogue;
      events = (Evolves-refl s).events;
    },
  )

  pub invocations-kept :
      (t : List Invocation)
      → IsValid s
      → Distinct (λ (r : Invocation). r.id) t
      → Grows InvocationMoves s.invocations t
      → IsValid (record s { invocations = t }) × Evolves s (record s { invocations = t })
  invocations-kept t v d g = (
    record {
      run_ids = v.run_ids;
      scope_ids = v.scope_ids;
      invocation_ids = d;
      attempt_ids = v.attempt_ids;
      outbox_ids = v.outbox_ids;
      wait_ids = v.wait_ids;
      wait_keys = v.wait_keys;
      command_ids = v.command_ids;
      owned = v.owned;
      dialogue = v.dialogue;
      numbered = v.numbered;
    },
    record {
      runs = (Evolves-refl s).runs;
      scopes = (Evolves-refl s).scopes;
      invocations = g;
      attempts = (Evolves-refl s).attempts;
      outbox = (Evolves-refl s).outbox;
      waits = (Evolves-refl s).waits;
      commands = (Evolves-refl s).commands;
      dialogue = (Evolves-refl s).dialogue;
      events = (Evolves-refl s).events;
    },
  )

  pub attempts-kept :
      (t : List Attempt)
      → IsValid s
      → Distinct (λ (r : Attempt). r.id) t
      → Grows AttemptMoves s.attempts t
      → IsValid (record s { attempts = t }) × Evolves s (record s { attempts = t })
  attempts-kept t v d g = (
    record {
      run_ids = v.run_ids;
      scope_ids = v.scope_ids;
      invocation_ids = v.invocation_ids;
      attempt_ids = d;
      outbox_ids = v.outbox_ids;
      wait_ids = v.wait_ids;
      wait_keys = v.wait_keys;
      command_ids = v.command_ids;
      owned = v.owned;
      dialogue = v.dialogue;
      numbered = v.numbered;
    },
    record {
      runs = (Evolves-refl s).runs;
      scopes = (Evolves-refl s).scopes;
      invocations = (Evolves-refl s).invocations;
      attempts = g;
      outbox = (Evolves-refl s).outbox;
      waits = (Evolves-refl s).waits;
      commands = (Evolves-refl s).commands;
      dialogue = (Evolves-refl s).dialogue;
      events = (Evolves-refl s).events;
    },
  )
