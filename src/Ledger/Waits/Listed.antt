-- ===== src/Ledger/Waits/Listed.antt =====
-- `list_waits`: the waits that the filters fit, each once, in the order of the due waits.
use multiverse.Base.{
  ℕ, ◌≡◌, ◌↔◌, refl, Bool, true, false, Option, none, some, List, [], ◌∷◌, arith, select_all, In,
  Lists,
}
use multiverse.Ledger.Status.WaitStatus
use multiverse.Ledger.Status.WaitStatus.{WaitStatus}
use multiverse.Ledger.Schema.{Wait, WaitKind, kind_eq_iff}
use multiverse.Ledger.Tx.Monad.{ok, pure, gets}
use multiverse.Ledger.Tx.Database.{Db}
use multiverse.Ledger.Evolution.{IsValid}
use multiverse.Ledger.Waits.Due.{order_due}
use multiverse.Ledger.Waits.Schedule.{Earlier, Within, in_scope-Within, order_due-Lists}
use multiverse.Ledger.Waits.Listing.{status_in, of_kind, is_listed, list_waits}

-- An optional filter on kinds.
abbrev pub OfKind : Option WaitKind → WaitKind → Type 0
OfKind none kind = Unit
OfKind (some k) kind = kind ≡ k

-- A wait of one of the statuses, of the run and of the kind that are asked for.
abbrev pub Listed : Option ℕ → Option WaitKind → List WaitStatus → Wait → Type 0
Listed run kind statuses w = In w.status statuses × Within run w.run_id × OfKind kind w.kind

status_in-In : (xs : List WaitStatus) (st : WaitStatus) → (status_in xs st ≡ true) ↔ In st xs
status_in-In [] st = ground arith
status_in-In (x ∷ xs) st = ground (arith, status_in-In xs st, WaitStatus.status_eq_iff x st)

of_kind-OfKind : (kind : Option WaitKind) (k : WaitKind) → (of_kind kind k ≡ true) ↔ OfKind kind k
of_kind-OfKind none k = ground arith
of_kind-OfKind (some x) k = kind_eq_iff k x

is_listed-Listed :
    (run : Option ℕ) (kind : Option WaitKind) (statuses : List WaitStatus) (w : Wait)
    → (is_listed run kind statuses w ≡ true) ↔ Listed run kind statuses w
is_listed-Listed run kind statuses w = ground (
  arith,
  status_in-In statuses w.status,
  in_scope-Within run w.run_id,
  of_kind-OfKind kind w.kind,
)

select_none : (p : Wait → Bool) → ((w : Wait) → p w ≡ false) → (t : List Wait) → select_all p t ≡ []
select_none p h [] = refl
select_none p h (w ∷ t) = ground (arith, h w, select_none p h t)

listed-order :
    (run : Option ℕ) (kind : Option WaitKind) (statuses : List WaitStatus) (s : Db)
    → list_waits run kind statuses s
      ≡ ok (order_due (select_all (is_listed run kind statuses) s.waits), s)
unfolding list_waits pure gets
listed-order run kind [] s = rw (select_none (is_listed run kind []) (λ w. refl) s.waits) refl
listed-order run kind (x ∷ xs) s = refl

-- In a valid ledger, a listing of waits succeeds, changes nothing, and lists the waits of the table
-- whose status is among those given, of the run and of the kind if one is given, and no others,
-- strictly by their times, then their creations, then their ids.
pub list_waits-exact :
    (run : Option ℕ) (kind : Option WaitKind) (statuses : List WaitStatus) (s : Db)
    → IsValid s
    → (rows : List Wait) × (list_waits run kind statuses s ≡ ok (rows, s))
      × Lists Earlier (Listed run kind statuses) s.waits rows
list_waits-exact run kind statuses s v = (
  _,
  listed-order run kind statuses s,
  order_due-Lists (is_listed run kind statuses) (Listed run kind statuses)
      (is_listed-Listed run kind statuses) s v,
)
