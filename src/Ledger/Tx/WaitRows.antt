-- ===== src/Ledger/Tx/WaitRows.antt =====
-- What the statements on waits do to a lookup by key.
use multiverse.Base.{
  ◌≡◌, refl, Bool, false, some, List, [], ◌∷◌, ◌++◌, arith, ==_refl, select, update_where, updated,
  exists_where,
}
use multiverse.Ledger.Schema.{Wait, key_eq_refl}
use multiverse.Ledger.Tx.Monad.{ok}
use multiverse.Ledger.Tx.Database.{Db, insert_wait, same_wait}
use multiverse.Ledger.Tx.WaitKeys.{at_key}

pub at_key-append :
    (t : List Wait) (w : Wait)
    → exists_where (same_wait w) t ≡ false
    → select (at_key w.namespace w.wait_key) (t ++ w ∷ []) ≡ some w
at_key-append [] w h = ground (arith, key_eq_refl w.wait_key, ==_refl w.namespace)
at_key-append (x ∷ t) w h = ground (arith, at_key-append t w)

-- A new row is the last one, and its id and its key are new.
pub insert_wait-ok :
    (w : Wait) (s : Db) (r : Unit {0} × Db)
    → insert_wait w s ≡ ok r
    → (exists_where (same_wait w) s.waits ≡ false) × (r.1.waits ≡ s.waits ++ w ∷ [])
unfolding insert_wait
insert_wait-ok w s r e = ground arith

-- A change that keeps what a lookup tests does not move the row that it finds.
pub select-update_kept :
    (p q : Wait → Bool) (f : Wait → Wait)
    → ((w : Wait) → p (f w) ≡ p w)
    → (t : List Wait) → select p (update_where q f t) ≡ updated q f (select p t)
select-update_kept p q f h [] = refl
select-update_kept p q f h (w ∷ t) = ground (arith, h w, select-update_kept p q f h t)
