-- ===== src/Ledger/Evolution/Rules/DeliveryTables.antt =====
-- The same for the tables of submissions, waits, commands and events, and for those of dialogue.
use multiverse.Base.{◌≡◌, Grows, Distinct, All, List}
use multiverse.Ledger.Schema.{Outbox, Wait, Command, Event}
use multiverse.Ledger.Tx.Database.{Db, Dialogue}
use multiverse.Ledger.Tx.WaitKeys.{DistinctKeys}
use multiverse.Ledger.Dialogue.{DialogueIsValid, DialogueEvolves}
use multiverse.Ledger.Evolution.{
  OutboxMoves, WaitMoves, CommandMoves, IsOwnedWait, IsNumbered, IsValid, Evolves,
}
use multiverse.Ledger.Evolution.Rules.Steps.{Evolves-refl}

module _ (s : Db) where
  pub outbox-kept :
      (t : List Outbox)
      → IsValid s
      → Distinct (λ (r : Outbox). r.id) t
      → Grows OutboxMoves s.outbox t
      → IsValid (record s { outbox = t }) × Evolves s (record s { outbox = t })
  outbox-kept t v d g = (
    record {
      run_ids = v.run_ids;
      scope_ids = v.scope_ids;
      invocation_ids = v.invocation_ids;
      attempt_ids = v.attempt_ids;
      outbox_ids = d;
      wait_ids = v.wait_ids;
      wait_keys = v.wait_keys;
      command_ids = v.command_ids;
      owned = v.owned;
      dialogue = v.dialogue;
      numbered = v.numbered;
    },
    record {
      runs = (Evolves-refl s).runs;
      scopes = (Evolves-refl s).scopes;
      invocations = (Evolves-refl s).invocations;
      attempts = (Evolves-refl s).attempts;
      outbox = g;
      waits = (Evolves-refl s).waits;
      commands = (Evolves-refl s).commands;
      dialogue = (Evolves-refl s).dialogue;
      events = (Evolves-refl s).events;
    },
  )

  pub commands-kept :
      (t : List Command)
      → IsValid s
      → Distinct (λ (r : Command). r.id) t
      → Grows CommandMoves s.commands t
      → IsValid (record s { commands = t }) × Evolves s (record s { commands = t })
  commands-kept t v d g = (
    record {
      run_ids = v.run_ids;
      scope_ids = v.scope_ids;
      invocation_ids = v.invocation_ids;
      attempt_ids = v.attempt_ids;
      outbox_ids = v.outbox_ids;
      wait_ids = v.wait_ids;
      wait_keys = v.wait_keys;
      command_ids = d;
      owned = v.owned;
      dialogue = v.dialogue;
      numbered = v.numbered;
    },
    record {
      runs = (Evolves-refl s).runs;
      scopes = (Evolves-refl s).scopes;
      invocations = (Evolves-refl s).invocations;
      attempts = (Evolves-refl s).attempts;
      outbox = (Evolves-refl s).outbox;
      waits = (Evolves-refl s).waits;
      commands = g;
      dialogue = (Evolves-refl s).dialogue;
      events = (Evolves-refl s).events;
    },
  )

  pub waits-kept :
      (t : List Wait)
      → IsValid s
      → Distinct (λ (r : Wait). r.id) t
      → DistinctKeys t
      → All IsOwnedWait t
      → Grows WaitMoves s.waits t
      → IsValid (record s { waits = t }) × Evolves s (record s { waits = t })
  waits-kept t v d k o g = (
    record {
      run_ids = v.run_ids;
      scope_ids = v.scope_ids;
      invocation_ids = v.invocation_ids;
      attempt_ids = v.attempt_ids;
      outbox_ids = v.outbox_ids;
      wait_ids = d;
      wait_keys = k;
      command_ids = v.command_ids;
      owned = o;
      dialogue = v.dialogue;
      numbered = v.numbered;
    },
    record {
      runs = (Evolves-refl s).runs;
      scopes = (Evolves-refl s).scopes;
      invocations = (Evolves-refl s).invocations;
      attempts = (Evolves-refl s).attempts;
      outbox = (Evolves-refl s).outbox;
      waits = g;
      commands = (Evolves-refl s).commands;
      dialogue = (Evolves-refl s).dialogue;
      events = (Evolves-refl s).events;
    },
  )

  pub dialogue-kept :
      (t : Dialogue)
      → IsValid s
      → DialogueIsValid t
      → DialogueEvolves s.dialogue t
      → IsValid (record s { dialogue = t }) × Evolves s (record s { dialogue = t })
  dialogue-kept t v d g = (
    record {
      run_ids = v.run_ids;
      scope_ids = v.scope_ids;
      invocation_ids = v.invocation_ids;
      attempt_ids = v.attempt_ids;
      outbox_ids = v.outbox_ids;
      wait_ids = v.wait_ids;
      wait_keys = v.wait_keys;
      command_ids = v.command_ids;
      owned = v.owned;
      dialogue = d;
      numbered = v.numbered;
    },
    record {
      runs = (Evolves-refl s).runs;
      scopes = (Evolves-refl s).scopes;
      invocations = (Evolves-refl s).invocations;
      attempts = (Evolves-refl s).attempts;
      outbox = (Evolves-refl s).outbox;
      waits = (Evolves-refl s).waits;
      commands = (Evolves-refl s).commands;
      dialogue = g;
      events = (Evolves-refl s).events;
    },
  )

  pub events-kept :
      (t : List Event)
      → IsValid s
      → IsNumbered t
      → Grows (λ (e e' : Event). e' ≡ e) s.events t
      → IsValid (record s { events = t }) × Evolves s (record s { events = t })
  events-kept t v d g = (
    record {
      run_ids = v.run_ids;
      scope_ids = v.scope_ids;
      invocation_ids = v.invocation_ids;
      attempt_ids = v.attempt_ids;
      outbox_ids = v.outbox_ids;
      wait_ids = v.wait_ids;
      wait_keys = v.wait_keys;
      command_ids = v.command_ids;
      owned = v.owned;
      dialogue = v.dialogue;
      numbered = d;
    },
    record {
      runs = (Evolves-refl s).runs;
      scopes = (Evolves-refl s).scopes;
      invocations = (Evolves-refl s).invocations;
      attempts = (Evolves-refl s).attempts;
      outbox = (Evolves-refl s).outbox;
      waits = (Evolves-refl s).waits;
      commands = (Evolves-refl s).commands;
      dialogue = (Evolves-refl s).dialogue;
      events = g;
    },
  )
