-- ===== src/Ledger/Waits/Leases.antt =====
-- Claims that outlive their worker: `requeue_stale_waits`, and the claim that comes after it.
use multiverse.Base.{
  ℕ, ◌≤◌, ◌<◌, ◌≡◌, ◌≢◌, ◌∙◌, ap, refl, true, Option, some, arith, select_all, length, update_where,
  select-update, updated, count-select_all, count-cleared, update-none,
}
use multiverse.Ledger.Status.WaitStatus.{WaitStatus}
use multiverse.Ledger.Schema.{Wait}
use multiverse.Ledger.Tx.Monad.{ok, ◌>>=◌}
use multiverse.Ledger.Tx.Database.{Db, update_waits}
use multiverse.Ledger.Evolution.{IsValid}
use multiverse.Ledger.Waits.Evolution.{requeue_stale_waits-Keeps}
use multiverse.Ledger.Waits.Owner.{IsFree, pending-IsFree}
use multiverse.Ledger.Waits.Schedule.{Within, in_scope-Within}
use multiverse.Ledger.Waits.{wait_of, requeue_stale_waits, is_stale, released}

-- What the database is after a call of `requeue_stale_waits`.
abbrev pub requeued : ℕ → ℕ → Option ℕ → Db → Db
requeued now older_than ns s = record s {
  waits = update_where (is_stale older_than ns) (released now) s.waits;
}

-- Requeueing answers the number of stale waits, and a second call at any later time finds none.
pub requeue_stale_waits-clears :
    (now later older_than : ℕ) (ns : Option ℕ) (s : Db)
    → (requeue_stale_waits now older_than ns s
        ≡ ok (length (select_all (is_stale older_than ns) s.waits), requeued now older_than ns s))
      × (requeue_stale_waits later older_than ns (requeued now older_than ns s)
          ≡ ok (0, requeued now older_than ns s))
unfolding requeue_stale_waits update_waits ◌>>=◌
requeue_stale_waits-clears now later older_than ns s =
    let none_left =
      count-cleared (is_stale older_than ns) (released now) (λ x e. ground arith) s.waits in
    (
      ground (arith, count-select_all (is_stale older_than ns) s.waits),
      ground (
        arith,
        none_left,
        update-none (is_stale older_than ns) (released later) (requeued now older_than ns s).waits
            none_left,
      ),
    )

-- What a row of the table becomes.
requeued_row :
    (now older_than : ℕ) (ns : Option ℕ) (k : ℕ) (s : Db) (w : Wait)
    → wait_of k s ≡ some w
    → wait_of k (requeued now older_than ns s)
      ≡ updated (is_stale older_than ns) (released now) (some w)
requeued_row now older_than ns k s w there =
    select-update (λ (x : Wait). x.id) k (is_stale older_than ns) (released now) (λ x. refl) s.waits
    ∙ ap (updated (is_stale older_than ns) (released now)) there

-- No wait is lost with its worker. In a valid ledger, where a wait is claimed, its claim is of a
-- given time or before, and its namespace is the one given, if one is, a call that requeues the
-- waits of such claims succeeds. The wait is then pending without an owner, and any worker with a
-- name gets it, for the same work, from its own time on, and not before; every wait whose claim is
-- younger, or which is not claimed, is as it was.
pub requeue_stale_waits-recovers :
    (now older_than : ℕ) (ns : Option ℕ) (k c : ℕ) (s : Db) (w : Wait)
    → IsValid s
    → wait_of k s ≡ some w
    → w.status ≡ WaitStatus.claimed
    → w.claimed_at ≡ some c
    → c ≤ older_than
    → Within ns w.namespace
    → (n : ℕ) × (t : Db) × (free : Wait) × (requeue_stale_waits now older_than ns s ≡ ok (n, t))
      × (wait_of k t ≡ some free)
      × (free.payload ≡ w.payload)
      × IsFree k w.not_before free t
      × ((j d : ℕ) (x : Wait)
          → wait_of j s ≡ some x
          → x.claimed_at ≡ some d
          → older_than < d
          → wait_of j t ≡ some x)
      × ((j : ℕ) (x : Wait)
          → wait_of j s ≡ some x
          → x.status ≢ WaitStatus.claimed
          → wait_of j t ≡ some x)
requeue_stale_waits-recovers now older_than ns k c s w v there held at old inside = (
  length (select_all (is_stale older_than ns) s.waits),
  requeued now older_than ns s,
  released now w,
  done,
  found,
  refl,
  pending-IsFree k (released now w) (requeued now older_than ns s) valid found refl refl refl,
  λ j d x here since young.
      requeued_row now older_than ns j s x here ∙ ground (arith, since, young),
  λ j x here other. requeued_row now older_than ns j s x here ∙ ground (arith, other),
)
  where
    done :
        requeue_stale_waits now older_than ns s
        ≡ ok (length (select_all (is_stale older_than ns) s.waits), requeued now older_than ns s)
    done = (requeue_stale_waits-clears now now older_than ns s).0

    valid : IsValid (requeued now older_than ns s)
    valid = ((requeue_stale_waits-Keeps s now older_than ns).at v _ _ done).0

    stale : is_stale older_than ns w ≡ true
    stale = ground (arith, held, at, old, (in_scope-Within ns w.namespace).1 inside)

    found : wait_of k (requeued now older_than ns s) ≡ some (released now w)
    found = requeued_row now older_than ns k s w there ∙ ground (arith, stale)
