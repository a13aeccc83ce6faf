-- ===== src/Ledger/Waits/Owner.antt =====
-- What the owner of a claimed wait does with it, and what other workers can do then.
use multiverse.Base.{
  ℕ, ◌≤◌, ◌<◌, String, ◌≡◌, ◌≢◌, ◌∙◌, ap, refl, true, false, ◌&&◌, none, some, inl, inr, arith,
  ◌==◌, is_blank, update_where, select-update, select-key, updated, Option-cases,
}
use text.Mathlib.TextPositions.{eq_refl}
use multiverse.Ledger.Status.WaitStatus.{WaitStatus}
use multiverse.Ledger.Schema.{Wait, Payload}
use multiverse.Ledger.Tx.Monad.{ok, ◌>>=◌}
use multiverse.Ledger.Tx.WaitRows.{select-update_kept}
use multiverse.Ledger.Tx.Database.{Db, update_waits}
use multiverse.Ledger.Evolution.{IsValid}
use multiverse.Ledger.Waits.Evolution.{release_wait_owned-Keeps, reschedule_wait_owned-Keeps}
use multiverse.Ledger.Waits.Ownership.{
  can_claim, claimed, claim_wait_lem, claim_got, wait_in_id, own_count, own_select,
}
use multiverse.Ledger.Waits.{
  wait_of, wait_in, claim_wait, complete_wait_owned, release_wait_owned, reschedule_wait_owned,
  is_own, released, rescheduled,
}

-- Wait `k` is `w` in `t`, and the other waits are as in `s`.
pub record Only (k : ℕ) (w : Wait) (s t : Db) : Type 0 where
  pub stored : wait_of k t ≡ some w
  pub others : (j : ℕ) → j ≢ k → wait_of j t ≡ wait_of j s

-- A worker has got wait `k` in `t`, for the same work.
pub record Claims (k : ℕ) (worker : String) (time : ℕ) (payload : Payload) (t : Db) : Type 0 where
  pub row : Wait
  pub after : Db
  pub gets : claim_wait k worker time t ≡ ok (some row, after)
  pub stored : wait_of k after ≡ some row
  pub taken : row.status ≡ WaitStatus.claimed
  pub owner : row.worker_id ≡ some worker
  pub since : row.claimed_at ≡ some time
  pub same_work : row.payload ≡ payload

-- Wait `k` is pending in `t`, without an owner, and any worker with a name gets it from time `at`
-- on, and not before.
pub record IsFree (k at : ℕ) (w : Wait) (t : Db) : Type 0 where
  pub pending : w.status ≡ WaitStatus.pending
  pub no_worker : w.worker_id ≡ none
  pub no_claim : w.claimed_at ≡ none
  pub due : w.not_before ≡ at
  pub early :
      (worker : String) (time : ℕ)
      → is_blank worker ≡ false
      → time < at
      → claim_wait k worker time t ≡ ok (none, t)
  pub late :
      (worker : String) (time : ℕ)
      → is_blank worker ≡ false
      → at ≤ time
      → Claims k worker time w.payload t

-- A pending wait that is due is given to whoever claims it.
pub pending-Claims :
    (k : ℕ) (w : Wait) (t : Db)
    → IsValid t
    → wait_of k t ≡ some w
    → w.status ≡ WaitStatus.pending
    → (worker : String) (time : ℕ) → is_blank worker ≡ false
    → w.not_before ≤ time
    → Claims k worker time w.payload t
pending-Claims k w t v there free worker time named due =
    let after = record t {
      waits = update_where (can_claim k time) (claimed worker time) t.waits;
    } in
    let e : claim_wait k worker time t ≡ ok (some (claimed worker time w), after) =
      claim_wait_lem k worker time t v w there named ∙ ground (arith, free, due) in
    let (_, _, _, _, _, stored) = claim_got k worker time t after (claimed worker time w) v e in
    record {
      row = claimed worker time w;
      after = after;
      gets = e;
      stored = stored;
      taken = refl;
      owner = refl;
      since = refl;
      same_work = refl;
    }

pub pending-IsFree :
    (k : ℕ) (w : Wait) (t : Db)
    → IsValid t
    → wait_of k t ≡ some w
    → w.status ≡ WaitStatus.pending
    → w.worker_id ≡ none
    → w.claimed_at ≡ none
    → IsFree k w.not_before w t
pending-IsFree k w t v there free nobody never = record {
  pending = free;
  no_worker = nobody;
  no_claim = never;
  due = refl;
  early = λ worker time named soon.
      claim_wait_lem k worker time t v w there named ∙ ground (arith, free, soon);
  late = pending-Claims k w t v there free;
}

module _ (now k ns : ℕ) (worker : String) (s : Db) (v : IsValid s) (w : Wait)
    (found : wait_in k ns s ≡ some w) (held : w.status ≡ WaitStatus.claimed)
    (mine : w.worker_id ≡ some worker) where
  own : is_own k ns worker w ≡ true
  own =
      let (_, same, here) = wait_in_id k ns s w v found in
      ground (arith, held, mine, same, here, eq_refl worker)

  -- The change of the owner's row touches no other.
  others :
      (f : Wait → Wait)
      → ((x : Wait) → (f x).id ≡ x.id)
      → (j : ℕ) → j ≢ k
      → wait_of j (record s { waits = update_where (is_own k ns worker) f s.waits }) ≡ wait_of j s
  others f h j other =
      select-update (λ (x : Wait). x.id) j (is_own k ns worker) f h s.waits
      ∙ elim (Option-cases (wait_of j s)) [
        | inl gone ↦ ground (arith, gone)
        | inr (x, there) ↦
            let same = select-key (λ (y : Wait). y.id) j s.waits x there in
            ground (arith, there, same)
      ]

  touched :
      (f : Wait → Wait)
      → ((x : Wait) → (f x).id ≡ x.id)
      → Only k (f w) s (record s { waits = update_where (is_own k ns worker) f s.waits })
  touched f h = record {
    stored = own_select now k ns worker s v w found (ground arith) f h ∙ ground (arith, own);
    others = others f h;
  }

  abbrev finished : Wait → Wait
  finished x = record x { status = WaitStatus.completed; updated_at = now }

  -- In a valid ledger, the worker that has claimed a wait in its namespace can complete, release and
  -- reschedule it; each of the three stores the wait that it returns and leaves the other waits as
  -- they are. A completed wait is completed: to complete it again, at any time, returns the same row
  -- and writes nothing. A released wait is pending without an owner, and any worker with a name gets
  -- it from its own time on, and not before; a rescheduled one is, from the time asked for on.
  pub owner-acts :
      (later : ℕ)
      → (done free moved : Wait) × (t u x : Db) × (complete_wait_owned now k ns worker s
          ≡ ok (some done, t))
        × Only k done s t
        × (done.status ≡ WaitStatus.completed)
        × ((now' : ℕ) → complete_wait_owned now' k ns worker t ≡ ok (some done, t))
        × (release_wait_owned now k ns worker s ≡ ok (some free, u))
        × Only k free s u
        × IsFree k w.not_before free u
        × (reschedule_wait_owned now k ns worker later s ≡ ok (some moved, x))
        × Only k moved s x
        × IsFree k later moved x
  unfolding complete_wait_owned release_wait_owned reschedule_wait_owned update_waits ◌>>=◌
  owner-acts later =
      let count = own_count now k ns worker s v w found (ground arith) in
      let t = record s { waits = update_where (is_own k ns worker) finished s.waits } in
      let u = record s { waits = update_where (is_own k ns worker) (released now) s.waits } in
      let x = record s {
        waits = update_where (is_own k ns worker) (rescheduled now later) s.waits;
      } in
      let a = touched finished (λ x. refl) in
      let b = touched (released now) (λ x. refl) in
      let c = touched (rescheduled now later) (λ x. refl) in
      let e : release_wait_owned now k ns worker s ≡ ok (some (released now w), u) =
        ground (arith, count, found, held, own, b.stored) in
      let f : reschedule_wait_owned now k ns worker later s
          ≡ ok (some (rescheduled now later w), x) =
        ground (arith, count, found, held, own, c.stored) in
      let there : wait_in k ns t ≡ some (finished w) =
        select-update_kept (λ (r : Wait). r.id == k && r.namespace == ns) (is_own k ns worker)
          finished (λ x. refl) s.waits
        ∙ ap (updated (is_own k ns worker) finished) found
        ∙ ground (arith, own) in
      (
        finished w,
        released now w,
        rescheduled now later w,
        t,
        u,
        x,
        ground (arith, count, found, held, own, a.stored),
        a,
        refl,
        λ now'. ground (arith, there),
        e,
        b,
        pending-IsFree k (released now w) u
            ((release_wait_owned-Keeps s now k ns worker).at v _ u e).0 b.stored refl refl refl,
        f,
        c,
        pending-IsFree k (rescheduled now later w) x
            ((reschedule_wait_owned-Keeps s now k ns worker later).at v _ x f).0 c.stored refl refl
            refl,
      )
