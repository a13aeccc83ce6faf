-- ===== src/Ledger/Events/Evolution.antt =====
-- `record_event` keeps the ledger valid and moves it as promised.
use multiverse.Base.{ℕ, Option}
use multiverse.Ledger.Tx.Database.{Db}
use multiverse.Ledger.Evolution.{Keeps}
use multiverse.Ledger.Evolution.Rules.{
  Keeps-pure, Keeps-read, Keeps-or_raise, Keeps-event, Keeps-last,
}
use multiverse.Ledger.Events.{record_event}

pub record_event-Keeps :
    (s : Db) (now run type payload : ℕ) (scope invocation attempt : Option ℕ)
    → Keeps (record_event now run type payload scope invocation attempt) s
unfolding record_event
record_event-Keeps s now run type payload scope invocation attempt =
    Keeps-read s _ _ (
      Keeps-or_raise s _ _ _
        λ r _. Keeps-last s _ (Keeps-event s _ _ _ _ _ _ _ λ e. Keeps-pure _ _))
