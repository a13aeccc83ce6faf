-- ===== src/Ledger/Tests/OfWaits.antt =====
-- The start wait of a queued run: claimed once, kept by its owner, and recovered.
use multiverse.Base.{
  Lists, ◌<◌, ◌≢◌, List, [], ◌++◌, ◌⊎◌, ℕ, String, ◌≤◌, ◌≡◌, refl, false, none, some, arith, length,
  select_all, is_blank, update_where,
}
use multiverse.Ledger.Status.WaitStatus.{WaitStatus}
use multiverse.Ledger.Schema.{Wait, WaitKey, WaitKind, Payload}
use multiverse.Ledger.Tx.Monad.{Error, Conflict, ok, err, ◌>>=◌, transaction}
use multiverse.Ledger.Tx.Database.{
  Db, insert_run, insert_scope, insert_wait, update_runs, update_waits, event, max_seq,
}
use multiverse.Ledger.Evolution.{IsValid}
use multiverse.Ledger.Runs.{create_queued_run}
use multiverse.Ledger.Session.{after_session, after_call}
use multiverse.Ledger.Waits.{
  wait_of, wait_in, new_wait, claim_wait, complete_wait_owned, release_wait_owned,
  reschedule_wait_owned, requeue_stale_waits, is_stale,
}
use multiverse.Ledger.Waits.Evolution.{claim_wait-Keeps}
use multiverse.Ledger.Waits.Ownership.{
  claimed, can_claim, claim_wait-exclusive, other_worker-rejected,
}
use multiverse.Ledger.Waits.Owner.{Only, IsFree, owner-acts}
use multiverse.Ledger.Waits.Leases.{
  requeued, requeue_stale_waits-clears, requeue_stale_waits-recovers,
}
use multiverse.Ledger.Waits.Due.{list_due_waits}
use multiverse.Ledger.Waits.Schedule.{Earlier, Due, list_due_waits-earliest}
use multiverse.Ledger.Tests.Samples.{queued, queued-IsValid}

abbrev start_wait : Wait
start_wait =
    new_wait 10 3 7 (WaitKey.run_start 1) WaitKind.run_start 1 (some 2) none 10
      (Payload.of_start 1 2)

-- The wait and the database after worker `a` has claimed it at time 20.
abbrev held_wait : Wait
held_wait = claimed "a" 20 start_wait

abbrev held : Db
held = record queued { waits = update_where (can_claim 3 20) (claimed "a" 20) queued.waits }

claims : claim_wait 3 "a" 20 queued ≡ ok (some held_wait, held)
unfolding after_session after_call create_queued_run insert_run insert_scope insert_wait update_runs
    event max_seq claim_wait update_waits transaction is_blank ◌>>=◌
claims = refl

held-IsValid : IsValid held
held-IsValid = ((claim_wait-Keeps queued 3 "a" 20).at queued-IsValid (some held_wait) held claims).0

claim_wait-exclusive_example :
    (wait_of 3 held ≡ some held_wait)
    × (held_wait.status ≡ WaitStatus.claimed)
    × (held_wait.worker_id ≡ some "a")
    × (held_wait.not_before ≤ 20)
    × ((other : String) (later : ℕ)
        → is_blank other ≡ false
        → claim_wait 3 other later held ≡ ok (none, held))
claim_wait-exclusive_example =
    claim_wait-exclusive 3 "a" 20 queued held held_wait queued-IsValid claims

held_in : wait_in 3 7 held ≡ some held_wait
unfolding after_session after_call create_queued_run insert_run insert_scope insert_wait update_runs
    event max_seq transaction ◌>>=◌
held_in = refl

other_worker-rejected_example :
    (complete_wait_owned 21 3 7 "b" held ≡ err (Error.conflict Conflict.wait_of_other_worker))
    × (release_wait_owned 21 3 7 "b" held ≡ err (Error.conflict Conflict.wait_of_other_worker))
    × ((later : ℕ)
        → reschedule_wait_owned 21 3 7 "b" later held
          ≡ err (Error.conflict Conflict.wait_of_other_worker))
other_worker-rejected_example =
    other_worker-rejected 21 3 7 "b" held held-IsValid held_wait held_in refl refl

owner-acts_example :
    (done free moved : Wait) × (t u x : Db) × (complete_wait_owned 21 3 7 "a" held
      ≡ ok (some done, t))
    × Only 3 done held t
    × (done.status ≡ WaitStatus.completed)
    × ((now' : ℕ) → complete_wait_owned now' 3 7 "a" t ≡ ok (some done, t))
    × (release_wait_owned 21 3 7 "a" held ≡ ok (some free, u))
    × Only 3 free held u
    × IsFree 3 10 free u
    × (reschedule_wait_owned 21 3 7 "a" 40 held ≡ ok (some moved, x))
    × Only 3 moved held x
    × IsFree 3 40 moved x
owner-acts_example = owner-acts 21 3 7 "a" held held-IsValid held_wait held_in refl refl 40

requeue_stale_waits-clears_example :
    (requeue_stale_waits 50 30 (some 7) held
      ≡ ok (length (select_all (is_stale 30 (some 7)) held.waits), requeued 50 30 (some 7) held))
    × (requeue_stale_waits 51 30 (some 7) (requeued 50 30 (some 7) held)
        ≡ ok (0, requeued 50 30 (some 7) held))
requeue_stale_waits-clears_example = requeue_stale_waits-clears 50 51 30 (some 7) held

held_there : wait_of 3 held ≡ some held_wait
unfolding after_session after_call create_queued_run insert_run insert_scope insert_wait update_runs
    event max_seq transaction ◌>>=◌
held_there = refl

requeue_stale_waits-recovers_example :
    (n : ℕ) × (t : Db) × (free : Wait) × (requeue_stale_waits 50 30 (some 7) held ≡ ok (n, t))
    × (wait_of 3 t ≡ some free)
    × (free.payload ≡ held_wait.payload)
    × IsFree 3 10 free t
    × ((j d : ℕ) (x : Wait)
        → wait_of j held ≡ some x
        → x.claimed_at ≡ some d
        → 30 < d
        → wait_of j t ≡ some x)
    × ((j : ℕ) (x : Wait)
        → wait_of j held ≡ some x
        → x.status ≢ WaitStatus.claimed
        → wait_of j t ≡ some x)
requeue_stale_waits-recovers_example =
    requeue_stale_waits-recovers 50 30 (some 7) 3 20 held held_wait held-IsValid held_there refl
      refl (omega arith) refl

list_due_waits-earliest_example :
    (page : List Wait) × (rest : List Wait) × (list_due_waits 20 (some 7) 1 queued
      ≡ ok (page, queued))
    × Lists Earlier (Due 20 (some 7)) queued.waits (page ++ rest)
    × (length page ≤ 1)
    × ((rest ≡ []) ⊎ (length page ≡ 1))
list_due_waits-earliest_example =
    list_due_waits-earliest 20 (some 7) 1 queued queued-IsValid (omega arith)
