-- ===== src/Ledger/Waits/Schedule.antt =====
-- `list_due_waits`: the earliest due waits, each once, and no others.
use multiverse.Base.{
  ℕ, ◌≤◌, ◌<◌, ◌≡◌, ◌≢◌, ◌⊎◌, ◌↔◌, subst, Bool, true, false, Option, none, some, List, [], ◌++◌,
  arith, length, select_all, take, drop, take-drop, length-take, full-take, Lists, order_by-Lists,
}
use multiverse.Ledger.Status.WaitStatus.{WaitStatus}
use multiverse.Ledger.Schema.{Wait}
use multiverse.Ledger.Tx.Monad.{ok, ◌>>=◌}
use multiverse.Ledger.Tx.Database.{Db}
use multiverse.Ledger.Evolution.{IsValid}
use multiverse.Ledger.Waits.{in_scope}
use multiverse.Ledger.Waits.Due.{comes_before, order_due, is_due, list_due_waits}

-- The earlier of two waits: by their times, then by their creations, then by their ids.
abbrev pub Earlier : Wait → Wait → Type 0
Earlier a b =
    (a.not_before < b.not_before)
    ⊎ ((a.not_before ≡ b.not_before)
        × ((a.created_at < b.created_at) ⊎ ((a.created_at ≡ b.created_at) × (a.id < b.id))))

-- An optional filter: nothing, or the number that is asked for.
abbrev pub Within : Option ℕ → ℕ → Type 0
Within none n = Unit
Within (some m) n = n ≡ m

-- A pending wait whose time has come, in the namespace that is asked for.
abbrev pub Due : ℕ → Option ℕ → Wait → Type 0
Due now ns w = (w.status ≡ WaitStatus.pending) × (w.not_before ≤ now) × Within ns w.namespace

comes_before_asym : (x w : Wait) → comes_before x w ≡ true → comes_before w x ≡ false
comes_before_asym x w h = ground arith

not_before_trans :
    (y x w : Wait) → comes_before y x ≡ false → comes_before x w ≡ false → comes_before y w ≡ false
not_before_trans y x w h e = ground arith

comes_before-Earlier : (x y : Wait) → comes_before y x ≡ false → y.id ≢ x.id → Earlier x y
comes_before-Earlier x y h d = ground arith

pub in_scope-Within : (ns : Option ℕ) (n : ℕ) → (in_scope ns n ≡ true) ↔ Within ns n
in_scope-Within none n = ground arith
in_scope-Within (some m) n = ground arith

is_due-Due : (now : ℕ) (ns : Option ℕ) (w : Wait) → (is_due now ns w ≡ true) ↔ Due now ns w
is_due-Due now ns w = ground (arith, in_scope-Within ns w.namespace)

-- A selection of waits in the order of the due waits.
pub order_due-Lists :
    (p : Wait → Bool) (P : Wait → Type 0)
    → ((w : Wait) → (p w ≡ true) ↔ P w)
    → (s : Db) → IsValid s
    → Lists Earlier P s.waits (order_due (select_all p s.waits))
order_due-Lists p P fits s v =
    order_by-Lists (λ (w : Wait). w.id) comes_before Earlier p P comes_before_asym not_before_trans
      comes_before-Earlier fits s.waits v.wait_ids

answers :
    (now : ℕ) (ns : Option ℕ) (limit : ℕ) (s : Db)
    → 1 ≤ limit
    → list_due_waits now ns limit s
      ≡ ok (take limit (order_due (select_all (is_due now ns) s.waits)), s)
unfolding list_due_waits ◌>>=◌
answers now ns limit s positive = ground arith

-- In a valid ledger, the page of due waits that a worker reads, followed by the waits that it
-- leaves out, lists the pending waits whose time has come, of the namespace if one is given, and no
-- others, strictly by their times, then their creations, then their ids; the page is no longer than
-- the limit, and leaves waits out only if it is full. The read changes nothing.
pub list_due_waits-earliest :
    (now : ℕ) (ns : Option ℕ) (limit : ℕ) (s : Db)
    → IsValid s
    → 1 ≤ limit
    → (page : List Wait) × (rest : List Wait) × (list_due_waits now ns limit s ≡ ok (page, s))
      × Lists Earlier (Due now ns) s.waits (page ++ rest)
      × (length page ≤ limit)
      × ((rest ≡ []) ⊎ (length page ≡ limit))
list_due_waits-earliest now ns limit s v positive =
    let all = order_due (select_all (is_due now ns) s.waits) in
    (
      take limit all,
      drop limit all,
      answers now ns limit s positive,
      subst (Lists Earlier (Due now ns) s.waits) (take-drop limit all)
          (order_due-Lists (is_due now ns) (Due now ns) (is_due-Due now ns) s v),
      length-take limit all,
      full-take limit all,
    )
