-- ===== src/Ledger/Waits/Due.antt =====
-- runtime/ledger.py, `list_due_waits`. The numbers of ids are in the order of their texts.
use multiverse.Base.{ℕ, Bool, ◌&&◌, ◌||◌, Option, List, ◌==◌, ltb, leb, select_all, take, order_by}
use multiverse.Ledger.Status.WaitStatus
use multiverse.Ledger.Schema.{Wait}
use multiverse.Ledger.Tx.Monad.{Error, gets, raise_if, ◌>>◌}
use multiverse.Ledger.Tx.Database.{Tx}
use multiverse.Ledger.Waits.{in_scope}

-- ORDER BY not_before, created_at, id
abbrev pub comes_before : Wait → Wait → Bool
comes_before a b =
    ltb a.not_before b.not_before
    || a.not_before == b.not_before
      && (ltb a.created_at b.created_at || a.created_at == b.created_at && ltb a.id b.id)

abbrev pub order_due : List Wait → List Wait
order_due l = order_by comes_before l

abbrev pub is_due : ℕ → Option ℕ → Wait → Bool
is_due now ns w = WaitStatus.is_pending w.status && leb w.not_before now && in_scope ns w.namespace

unfoldable pub list_due_waits : ℕ → Option ℕ → ℕ → Tx (List Wait)
list_due_waits now ns limit = do
  raise_if (ltb limit 1) Error.bad_limit
  gets (λ s. take limit (order_due (select_all (is_due now ns) s.waits)))
