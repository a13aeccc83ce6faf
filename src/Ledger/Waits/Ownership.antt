-- ===== src/Ledger/Waits/Ownership.antt =====
-- Who may act on a claimed wait: one claim at a time, and only its owner ends it.
use multiverse.Base.{
  select-holds, ℕ, ◌≤◌, String, ◌≡◌, refl, subst, Bool, true, false, ◌&&◌, Option, none, some, inl,
  inr, arith, ◌==◌, leb, is_blank, select, update_where, count_where, select-key, select-own_key,
  select-update, count-update, count-missing, update-none, Option-cases, updated, Bool-cases,
  if◌then◌else◌,
}
use multiverse.Ledger.Status.WaitStatus
use multiverse.Ledger.Status.WaitStatus.{WaitStatus}
use multiverse.Ledger.Schema.{Wait}
use multiverse.Ledger.Tx.Monad.{Error, Conflict, ok, err, ◌>>=◌}
use multiverse.Ledger.Tx.Database.{Db, update_waits}
use multiverse.Ledger.Evolution.{IsValid}
use multiverse.Ledger.Waits.Evolution.{claim_wait-Keeps}
use multiverse.Ledger.Waits.{
  wait_of, wait_in, claim_wait, complete_wait_owned, release_wait_owned, reschedule_wait_owned,
  is_own, owned_by,
}

-- The rows that a claim fits, and what it makes of them.
abbrev pub can_claim : ℕ → ℕ → Wait → Bool
can_claim k now w = w.id == k && WaitStatus.is_pending w.status && leb w.not_before now

abbrev pub claimed : String → ℕ → Wait → Wait
claimed worker now w = record w {
  status = WaitStatus.claimed;
  worker_id = some worker;
  claimed_at = some now;
  updated_at = now;
}

module _ (k : ℕ) (worker : String) (now : ℕ) (s : Db) (v : IsValid s) (w : Wait)
    (there : wait_of k s ≡ some w) where
  abbrev key : Wait → ℕ
  key x = x.id

  claim_count : count_where (can_claim k now) s.waits ≡ (if can_claim k now w then 1 else 0)
  claim_count =
      count-update key k (can_claim k now) (λ x e. ground arith) s.waits w v.wait_ids there

  claim_select :
      select (λ (r : Wait). r.id == k) (update_where (can_claim k now) (claimed worker now) s.waits)
      ≡ updated (can_claim k now) (claimed worker now) (some w)
  claim_select =
      subst
        (λ o.
          select (λ (r : Wait). r.id == k)
            (update_where (can_claim k now) (claimed worker now) s.waits)
          ≡ updated (can_claim k now) (claimed worker now) o)
        there (select-update key k (can_claim k now) (claimed worker now) (λ x. refl) s.waits)

  -- A worker gets a wait exactly if it is pending and due; otherwise nothing is written.
  pub claim_wait_lem :
      is_blank worker ≡ false
      → claim_wait k worker now s ≡ (
          if WaitStatus.is_pending w.status && leb w.not_before now
          then ok (
            some (claimed worker now w),
            record s { waits = update_where (can_claim k now) (claimed worker now) s.waits },
          )
          else ok (none, s))
  unfolding claim_wait update_waits ◌>>=◌
  claim_wait_lem named = elim (Bool-cases (can_claim k now w)) [
    | inl fits ↦ ground (arith, claim_count, claim_select, select-key key k s.waits w there)
    | inr busy ↦ ground (
      arith,
      claim_count,
      update-none (can_claim k now) (claimed worker now) s.waits,
      select-key key k s.waits w there,
    )
  ]

claim_missing :
    (k : ℕ) (worker : String) (now : ℕ) (s : Db)
    → is_blank worker ≡ false
    → wait_of k s ≡ none
    → claim_wait k worker now s ≡ ok (none, s)
unfolding claim_wait update_waits ◌>>=◌
claim_missing k worker now s named e =
    let n =
      count-missing (λ (x : Wait). x.id) k (can_claim k now) (λ x e. ground arith) s.waits e in
    ground (arith, n, update-none (can_claim k now) (claimed worker now) s.waits n)

claim_named :
    (k : ℕ) (worker : String) (now : ℕ) (s : Db) (r : Option Wait × Db)
    → claim_wait k worker now s ≡ ok r
    → is_blank worker ≡ false
unfolding claim_wait ◌>>=◌
claim_named k worker now s r e = ground arith

-- What a claim that hands out a wait has found and left.
pub claim_got :
    (k : ℕ) (worker : String) (now : ℕ) (s s' : Db) (w' : Wait)
    → IsValid s
    → claim_wait k worker now s ≡ ok (some w', s')
    → (w : Wait) × (wait_of k s ≡ some w)
      × (w' ≡ claimed worker now w)
      × (WaitStatus.is_pending w.status ≡ true)
      × (leb w.not_before now ≡ true)
      × (wait_of k s' ≡ some w')
claim_got k worker now s s' w' v e = elim (Option-cases (wait_of k s)) [
  | inl gone ↦ absurd (impossible gone)
  | inr (w, there) ↦ let (a, b, c, d) = got w there in (w, there, a, b, c, d)
]
  where
    named : is_blank worker ≡ false
    named = claim_named k worker now s (some w', s') e

    impossible : wait_of k s ≡ none → ⊥
    impossible gone = ground (arith, claim_missing k worker now s named gone)

    got :
        (w : Wait)
        → wait_of k s ≡ some w
        → (w' ≡ claimed worker now w)
          × (WaitStatus.is_pending w.status ≡ true)
          × (leb w.not_before now ≡ true)
          × (wait_of k s' ≡ some w')
    got w there = ground (
      arith,
      claim_wait_lem k worker now s v w there named,
      claim_select k worker now s v w there,
      select-key (λ (x : Wait). x.id) k s.waits w there,
    )

-- In a valid ledger, a claim that hands out a wait has found it due, and has stored it as claimed
-- by this worker; in the state that it leaves, a claim of the wait by any worker with a name, at
-- any time, gets nothing and writes nothing.
pub claim_wait-exclusive :
    (k : ℕ) (worker : String) (now : ℕ) (s s' : Db) (w' : Wait)
    → IsValid s
    → claim_wait k worker now s ≡ ok (some w', s')
    → (wait_of k s' ≡ some w')
      × (w'.status ≡ WaitStatus.claimed)
      × (w'.worker_id ≡ some worker)
      × (w'.not_before ≤ now)
      × ((other : String) (later : ℕ)
          → is_blank other ≡ false
          → claim_wait k other later s' ≡ ok (none, s'))
claim_wait-exclusive k worker now s s' w' v e =
    let (w, _, made, _, due, stored) = claim_got k worker now s s' w' v e in
    let v' = (claim_wait-Keeps s k worker now).at v (some w') s' e in
    (
      stored,
      ground arith,
      ground arith,
      ground arith,
      λ other later named. ground (arith, claim_wait_lem k other later s' v'.0 w' stored named),
    )

-- A wait that is found in its namespace is the one that its id finds.
pub wait_in_id :
    (k ns : ℕ) (s : Db) (w : Wait)
    → IsValid s
    → wait_in k ns s ≡ some w
    → (wait_of k s ≡ some w) × (w.id ≡ k) × ((w.namespace == ns) ≡ true)
wait_in_id k ns s w v e =
    let key = λ (x : Wait). x.id in
    let fits = select-holds (λ (r : Wait). r.id == k && r.namespace == ns) s.waits w e in
    let own =
      select-own_key key (λ (r : Wait). r.id == k && r.namespace == ns) s.waits w v.wait_ids e in
    let same : w.id ≡ k = ground arith in
    (subst (λ i. wait_of i s ≡ some w) same own, same, ground arith)

module _ (now k ns : ℕ) (worker : String) (s : Db) (v : IsValid s) (w : Wait)
    (found : wait_in k ns s ≡ some w) (held : WaitStatus.is_claimed w.status ≡ true) where
  pub own_count : count_where (is_own k ns worker) s.waits ≡ (if is_own k ns worker w then 1 else 0)
  own_count =
      count-update (λ (x : Wait). x.id) k (is_own k ns worker) (λ x e. ground arith) s.waits w
        v.wait_ids (wait_in_id k ns s w v found).0

  pub own_select :
      (f : Wait → Wait)
      → ((x : Wait) → (f x).id ≡ x.id)
      → wait_of k (record s { waits = update_where (is_own k ns worker) f s.waits })
        ≡ updated (is_own k ns worker) f (some w)
  own_select f h =
      subst
        (λ o.
          select (λ (r : Wait). r.id == k) (update_where (is_own k ns worker) f s.waits)
          ≡ updated (is_own k ns worker) f o)
        (wait_in_id k ns s w v found).0
        (select-update (λ (x : Wait). x.id) k (is_own k ns worker) f h s.waits)

  -- In a valid ledger, a worker that does not own a claimed wait can neither complete, release nor
  -- reschedule it: each of the three calls raises the conflict on the owner.
  pub other_worker-rejected :
      owned_by worker w.worker_id ≡ false
      → (complete_wait_owned now k ns worker s ≡ err (Error.conflict Conflict.wait_of_other_worker))
        × (release_wait_owned now k ns worker s
            ≡ err (Error.conflict Conflict.wait_of_other_worker))
        × ((later : ℕ)
            → reschedule_wait_owned now k ns worker later s
              ≡ err (Error.conflict Conflict.wait_of_other_worker))
  unfolding complete_wait_owned release_wait_owned reschedule_wait_owned update_waits ◌>>=◌
  other_worker-rejected foreign = (
    ground (arith, own_count, found, held),
    ground (arith, own_count, found, held),
    λ later. ground (arith, own_count, found, held),
  )
