-- ===== src/Ledger/Tests/OfEvents.antt =====
-- A client of the run's events.
use multiverse.Base.{take, ℕ, ◌≡◌, List, ◌++◌, arith}
use multiverse.Ledger.Schema.{Event}
use multiverse.Ledger.Tx.Monad.{ok}
use multiverse.Ledger.Events.{list_events, list_events_after, get_event_cursor}
use multiverse.Ledger.Events.Streaming.{list_events_after-new}
use multiverse.Ledger.Session.Evolution.{after_session-Evolves}
use multiverse.Ledger.Tests.Samples.{queued, started, start_calls, queued-IsValid, started-IsValid}

list_events_after-new_example :
    (old : List Event) × (new : List Event) × (cursor : ℕ) × (get_event_cursor 1 queued
      ≡ ok (cursor, queued))
    × (list_events 1 queued ≡ ok (old, queued))
    × (list_events 1 started ≡ ok (old ++ new, started))
    × (list_events_after 1 cursor 10 started ≡ ok (take 10 new, started))
list_events_after-new_example =
    list_events_after-new 1 10 queued started started-IsValid
      (after_session-Evolves queued start_calls queued-IsValid).1 (omega arith)
