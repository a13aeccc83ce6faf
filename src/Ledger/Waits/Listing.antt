-- ===== src/Ledger/Waits/Listing.antt =====
-- runtime/ledger.py: `list_waits`. `statuses` is a tuple of values of the column.
use multiverse.Base.{
  ℕ, Bool, true, false, ◌&&◌, ◌||◌, Option, none, some, List, [], ◌∷◌, select_all,
}
use multiverse.Ledger.Status.WaitStatus
use multiverse.Ledger.Status.WaitStatus.{WaitStatus}
use multiverse.Ledger.Schema.{Wait, WaitKind, kind_eq}
use multiverse.Ledger.Tx.Monad.{gets, pure}
use multiverse.Ledger.Tx.Database.{Tx}
use multiverse.Ledger.Waits.{in_scope}
use multiverse.Ledger.Waits.Due.{order_due}

-- `status IN (?, ...)`
abbrev pub status_in : List WaitStatus → WaitStatus → Bool
status_in [] status = false
status_in (x ∷ xs) status = WaitStatus.status_eq x status || status_in xs status

-- `kind = ?`, where a kind is given.
abbrev pub of_kind : Option WaitKind → WaitKind → Bool
of_kind none kind = true
of_kind (some k) kind = kind_eq kind k

abbrev pub is_listed : Option ℕ → Option WaitKind → List WaitStatus → Wait → Bool
is_listed run kind statuses w =
    status_in statuses w.status && in_scope run w.run_id && of_kind kind w.kind

-- With no status there is no row, as the early return says.
unfoldable pub list_waits : Option ℕ → Option WaitKind → List WaitStatus → Tx (List Wait)
list_waits run kind [] = pure []
list_waits run kind statuses =
    gets (λ s. order_due (select_all (is_listed run kind statuses) s.waits))
