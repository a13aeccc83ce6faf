-- ===== src/Ledger/Listings/Queue.antt =====
-- `list_queued_runs`: the earliest queued runs, each once, and no others.
use multiverse.Base.{
  ℕ, ◌≤◌, ◌<◌, ◌≡◌, ◌≢◌, ◌⊎◌, ◌↔◌, subst, true, false, Option, List, [], ◌++◌, arith, length,
  select_all, take, drop, order_by, take-drop, length-take, full-take, Lists, order_by-Lists,
}
use multiverse.Ledger.Status.RunStatus.{RunStatus}
use multiverse.Ledger.Schema.{Run}
use multiverse.Ledger.Tx.Monad.{ok, ◌>>=◌}
use multiverse.Ledger.Tx.Database.{Db}
use multiverse.Ledger.Evolution.{IsValid}
use multiverse.Ledger.Waits.Schedule.{Within, in_scope-Within}
use multiverse.Ledger.Listings.{run_before, is_queued_in, list_queued_runs}

-- The earlier of two runs: by their creations, then by their ids.
abbrev pub CreatedFirst : Run → Run → Type 0
CreatedFirst a b = (a.created_at < b.created_at) ⊎ ((a.created_at ≡ b.created_at) × (a.id < b.id))

-- A queued run of the namespace that is asked for.
abbrev pub Queued : Option ℕ → Run → Type 0
Queued ns r = (r.status ≡ RunStatus.queued) × Within ns r.namespace

run_before_asym : (x w : Run) → run_before x w ≡ true → run_before w x ≡ false
run_before_asym x w h = ground arith

run_before_trans :
    (y x w : Run) → run_before y x ≡ false → run_before x w ≡ false → run_before y w ≡ false
run_before_trans y x w h e = ground arith

run_before-CreatedFirst : (x y : Run) → run_before y x ≡ false → y.id ≢ x.id → CreatedFirst x y
run_before-CreatedFirst x y h d = ground arith

is_queued_in-Queued : (ns : Option ℕ) (r : Run) → (is_queued_in ns r ≡ true) ↔ Queued ns r
is_queued_in-Queued ns r = ground (arith, in_scope-Within ns r.namespace)

answers :
    (ns : Option ℕ) (limit : ℕ) (s : Db)
    → 1 ≤ limit
    → list_queued_runs ns limit s
      ≡ ok (take limit (order_by run_before (select_all (is_queued_in ns) s.runs)), s)
unfolding list_queued_runs ◌>>=◌
answers ns limit s positive = ground arith

-- In a valid ledger, the page of queued runs, followed by the runs that it leaves out, lists the
-- runs of status queued, of the namespace if one is given, and no others, strictly by their
-- creations, then their ids; the page is no longer than the limit, and leaves runs out only if it
-- is full. The read changes nothing.
pub list_queued_runs-earliest :
    (ns : Option ℕ) (limit : ℕ) (s : Db)
    → IsValid s
    → 1 ≤ limit
    → (page : List Run) × (rest : List Run) × (list_queued_runs ns limit s ≡ ok (page, s))
      × Lists CreatedFirst (Queued ns) s.runs (page ++ rest)
      × (length page ≤ limit)
      × ((rest ≡ []) ⊎ (length page ≡ limit))
list_queued_runs-earliest ns limit s v positive =
    let all = order_by run_before (select_all (is_queued_in ns) s.runs) in
    (
      take limit all,
      drop limit all,
      answers ns limit s positive,
      subst (Lists CreatedFirst (Queued ns) s.runs) (take-drop limit all) (
          order_by-Lists (λ (r : Run). r.id) run_before CreatedFirst (is_queued_in ns) (Queued ns)
            run_before_asym run_before_trans run_before-CreatedFirst (is_queued_in-Queued ns) s.runs
            v.run_ids),
      length-take limit all,
      full-take limit all,
    )
