-- ===== src/Ledger/Events.antt =====
-- runtime/ledger.py, `record_event` and the reads of events: `list_events`, `list_events_after`, `get_event_cursor`.
-- A negative `after_seq`, which the code refuses, is no number here.
pub mod Streaming
pub mod Evolution
use multiverse.Base.{
  ℕ, Bool, ◌&&◌, Option, List, [], ◌∷◌, ◌==◌, ltb, select_all, take, if◌then◌else◌,
}
use multiverse.Ledger.Schema.{Event, EventPayload}
use multiverse.Ledger.Queries.{run_of}
use multiverse.Ledger.Tx.Monad.{Error, Entity, gets, or_raise, raise_if, ◌>>=◌, ◌>>◌}
use multiverse.Ledger.Tx.Database.{Db, Tx, event, max_seq}

unfoldable pub record_event : ℕ → ℕ → ℕ → ℕ → Option ℕ → Option ℕ → Option ℕ → Tx (Unit {0})
record_event now run type payload scope invocation attempt = do
  found ← gets (run_of run)
  or_raise (Error.not_found Entity.run run) found
  event now run (EventPayload.recorded type payload) scope invocation attempt

-- ORDER BY seq, row by row
abbrev pub insert_by_seq : Event → List Event → List Event
insert_by_seq e [] = e ∷ []
insert_by_seq e (x ∷ l) =
    let rest = insert_by_seq e l in if ltb x.seq e.seq then x ∷ rest else e ∷ x ∷ l

abbrev pub order_by_seq : List Event → List Event
order_by_seq [] = []
order_by_seq (e ∷ l) = insert_by_seq e (order_by_seq l)

abbrev pub is_of_run : ℕ → Event → Bool
is_of_run k e = e.run_id == k

abbrev pub is_after : ℕ → ℕ → Event → Bool
is_after k after e = e.run_id == k && ltb after e.seq

unfoldable pub list_events : ℕ → Tx (List Event)
list_events k = gets (λ s. order_by_seq (select_all (is_of_run k) s.events))

unfoldable pub list_events_after : ℕ → ℕ → ℕ → Tx (List Event)
list_events_after k after limit = do
  raise_if (ltb limit 1) Error.bad_limit
  gets (λ s. take limit (order_by_seq (select_all (is_after k after) s.events)))

unfoldable pub get_event_cursor : ℕ → Tx ℕ
get_event_cursor k = gets (λ s. max_seq k s.events)
