-- ===== src/Ledger/Requests/Progress.antt =====
-- A decision wakes its run: the wait for the request is over, and a wait for the progress of the
-- request is there, due at once.
use multiverse.Base.{
  ℕ, String, Bool, true, false, ◌&&◌, Option, none, some, List, [], ◌∷◌, ◌++◌, ◌≡◌, refl, ◌∙◌, ap,
  sym, subst, arith, ◌==◌, select, exists_where, count_where, update_where, inl, inr, Bool-cases,
  select-key,
}
use multiverse.Ledger.Status.WaitStatus
use multiverse.Ledger.Schema.{
  Run, Wait, WaitKey, WaitKind, Payload, HumanRequest, HumanDecision, ProgressIntent, EventPayload,
  key_eq,
}
use multiverse.Ledger.Tx.Monad.{ok, pure, ◌>>=◌}
use multiverse.Ledger.Tx.Database.{Db, event, has_run, update_commands, update_waits, insert_wait}
use multiverse.Ledger.Tx.Dialogue.{insert_decision, update_requests, insert_intent}
use multiverse.Ledger.Tx.WaitKeys.{at_key}
use multiverse.Ledger.Tx.WaitRows.{at_key-append, insert_wait-ok}
use multiverse.Ledger.Tx.Inversion.{bind-ok, gets-ok}
use multiverse.Ledger.Queries.{run_of}
use multiverse.Ledger.Waits.{new_wait, wait_at}
use multiverse.Ledger.Requests.{decision_by_key}
use multiverse.Ledger.Requests.Deciding.{
  mark_decision, awaited, completed_wait, insert_progress_wait, wake_run, store_decision,
  decide_human_request,
}
use multiverse.Ledger.Requests.Evolution.{require_request-ok}
use multiverse.Ledger.Requests.Decision.{Allowed, decide_now-ok}
use multiverse.Ledger.Requests.Final.{decides}

-- The wait that wakes the run.
abbrev pub progress_wait : ℕ → ℕ → HumanRequest → Run → Wait
progress_wait now new q x =
    new_wait now new x.namespace (WaitKey.human_progress q.id) WaitKind.human_progress x.id
      (some q.scope_id) (some q.invocation_id) now (Payload.of_request q.id)

-- An open wait for the request, in a namespace.
abbrev pub awaits : ℕ → ℕ → Wait → Bool
awaits ns k w =
    w.namespace == ns && key_eq w.wait_key (WaitKey.human k) && WaitStatus.is_open w.status

count-append :
    (p : Wait → Bool) (t : List Wait) (w : Wait)
    → p w ≡ false
    → count_where p (t ++ w ∷ []) ≡ count_where p t
count-append p [] w h = ground arith
count-append p (x ∷ t) w h = ground (arith, count-append p t w h)

update_waits-ok :
    (p : Wait → Bool) (f : Wait → Wait) (s : Db) (r : ℕ × Db)
    → update_waits p f s ≡ ok r
    → (r.1.waits ≡ update_where p f s.waits) × (r.1.runs ≡ s.runs)
unfolding update_waits
update_waits-ok p f s r e = ground arith

insert_intent-rest :
    (i : ProgressIntent) (s : Db) (r : Unit {0} × Db)
    → insert_intent i s ≡ ok r
    → (r.1.waits ≡ s.waits) × (r.1.runs ≡ s.runs)
unfolding insert_intent
insert_intent-rest i s r e = ground arith

-- The run is awake in `t`.
abbrev pub Awake : ℕ → ℕ → HumanRequest → Run → Db → Type 0
Awake now new q x t =
    (wait_at x.namespace (WaitKey.human_progress q.id) t ≡ some (progress_wait now new q x))
    × (count_where (awaits x.namespace q.id) t.waits ≡ 0)

inserted-Awake :
    (now new : ℕ) (q : HumanRequest) (x : Run) (o : Option Run) (s : Db) (r : Unit {0} × Db)
    → o ≡ some x
    → count_where (awaits x.namespace q.id) s.waits ≡ 0
    → insert_progress_wait now new q o s ≡ ok r
    → Awake now new q x r.1
unfolding insert_progress_wait
inserted-Awake now new q x none s r o c e = absurd (cc o)
inserted-Awake now new q x (some y) s r o c e =
    let same : y ≡ x = cc o in
    let (new_key, waits) =
      insert_wait-ok (progress_wait now new q x) s r
        (subst (λ z. insert_wait (progress_wait now new q z) s ≡ ok r) same e) in
    (
      ap (select (at_key x.namespace (WaitKey.human_progress q.id))) waits
          ∙ at_key-append s.waits (progress_wait now new q x) new_key,
      ap (count_where (awaits x.namespace q.id)) waits
          ∙ count-append (awaits x.namespace q.id) s.waits (progress_wait now new q x)
              (ground arith)
          ∙ c,
    )

count_cleared_by :
    (a p : Wait → Bool) (f : Wait → Wait)
    → ((w : Wait) → a w ≡ true → p w ≡ true)
    → ((w : Wait) → a (f w) ≡ false)
    → (t : List Wait) → count_where a (update_where p f t) ≡ 0
count_cleared_by a p f h k [] = refl
count_cleared_by a p f h k (w ∷ t) = ground (arith, h w, k w, count_cleared_by a p f h k t)

same_run : (k : ℕ) (s t : Db) → t.runs ≡ s.runs → run_of k t ≡ run_of k s
same_run k s t e = ap (select (λ (x : Run). x.id == k)) e

wake_run-Awake :
    (now decision intent wait : ℕ) (q : HumanRequest) (x : Run) (s : Db) (r : Unit {0} × Db)
    → run_of q.run_id s ≡ some x
    → wake_run now decision intent wait q s ≡ ok r
    → Awake now wait q x r.1
unfolding wake_run
wake_run-Awake now decision intent wait q x s r there e =
    let (n, s1, e1, f1) = bind-ok _ _ s r (gets-ok _ _ s r e) in
    let (waits, runs) = update_waits-ok _ _ s (n, s1) e1 in
    let (u, s2, e2, f2) = bind-ok _ _ s1 r f1 in
    let (waits', runs') = insert_intent-rest _ s1 (u, s2) e2 in
    let cleared =
      ap (count_where (awaits x.namespace q.id)) (waits' ∙ waits)
      ∙ count_cleared_by (awaits x.namespace q.id) (awaited (run_of q.run_id s) q.id)
          (completed_wait now) (λ w h. ground (arith, there)) (λ w. ground arith) s.waits in
    inserted-Awake now wait q x (run_of q.run_id s2) s2 r
      (same_run q.run_id s s2 (runs' ∙ runs) ∙ there) cleared (gets-ok _ _ s2 r f2)

-- What comes before the wake leaves the runs alone, and the event has found the run.
found_run :
    (k : ℕ) (t : List Run)
    → exists_where (λ r. r.id == k) t ≡ true
    → (x : Run) × (select (λ (r : Run). r.id == k) t ≡ some x)
found_run k [] h = absurd (ground arith)
found_run k (y ∷ t) h = elim (Bool-cases (y.id == k)) [
  | inl here ↦ (y, rw here refl)
  | inr there ↦ let (x, e) = found_run k t (rw there at h) in (x, rw there e)
]

event-run :
    (now run : ℕ) (payload : EventPayload) (scope invocation attempt : Option ℕ) (s : Db)
    (r : Unit {0} × Db)
    → event now run payload scope invocation attempt s ≡ ok r
    → (has_run s run ≡ true) × (r.1.runs ≡ s.runs)
unfolding event
event-run now run payload scope invocation attempt s r e = ground arith

mark_decision-runs :
    (now : ℕ) (command : Option ℕ) (before version : ℕ) (s : Db) (r : Unit {0} × Db)
    → mark_decision now command before version s ≡ ok r
    → r.1.runs ≡ s.runs
unfolding mark_decision update_commands pure ◌>>=◌
mark_decision-runs now none before version s r e = ground arith
mark_decision-runs now (some k) before version s r e = ground arith

insert_decision-runs :
    (d : HumanDecision) (s : Db) (r : Unit {0} × Db)
    → insert_decision d s ≡ ok r
    → r.1.runs ≡ s.runs
unfolding insert_decision
insert_decision-runs d s r e = ground arith

update_requests-runs :
    (p : HumanRequest → Bool) (f : HumanRequest → HumanRequest) (s : Db) (r : ℕ × Db)
    → update_requests p f s ≡ ok r
    → r.1.runs ≡ s.runs
unfolding update_requests
update_requests-runs p f s r e = ground arith

store_decision-Awake :
    (now new intent wait : ℕ) (q : HumanRequest) (d : HumanDecision) (command : Option ℕ) (s : Db)
    (r : HumanRequest × Db)
    → store_decision now new intent wait q d command s ≡ ok r
    → (x : Run) × (run_of q.run_id s ≡ some x) × Awake now wait q x r.1
unfolding store_decision
store_decision-Awake now new intent wait q d command s r e =
    let (u1, s1, e1, f1) = bind-ok _ _ s r e in
    let (n, s2, e2, f2) = bind-ok _ _ s1 r f1 in
    let (u3, s3, e3, f3) = bind-ok _ _ s2 r f2 in
    let (u4, s4, e4, f4) = bind-ok _ _ s3 r f3 in
    let (u5, s5, e5, f5) = bind-ok _ _ s4 r f4 in
    let (known, kept) = event-run _ _ _ _ _ _ s2 (u3, s3) e3 in
    let before = update_requests-runs _ _ s1 (n, s2) e2 ∙ insert_decision-runs d s (u1, s1) e1 in
    let after = mark_decision-runs _ _ _ _ s3 (u4, s4) e4 ∙ kept in
    let (x, found) = found_run q.run_id s2.runs known in
    let awake =
      wake_run-Awake now new intent wait q x s4 (u5, s5) (same_run q.run_id s2 s4 after ∙ found)
        e5 in
    (
      x,
      sym (same_run q.run_id s s2 before) ∙ found,
      subst (Awake now wait q x) (require_request-ok q.id s5 r.0 r.1 f5).0 awake,
    )

-- A decision with a new idempotency key that succeeds has found the request pending, of the version
-- and the subject that the caller expects, not expired, and the actor among those authorized; and
-- it wakes the run: in the namespace of the run no wait for the request is open any more, and a
-- pending wait with no owner for the progress of the request is due at once.
pub decide_human_request-wakes :
    (now new intent wait k : ℕ) (choice : Option String) (decision : Option ℕ)
    (comment expected subject : ℕ) (actor : String) (key : ℕ) (command : Option ℕ) (s : Db)
    (r : HumanRequest × Db)
    → decision_by_key key s ≡ none
    → decide_human_request now new intent wait k choice decision comment expected subject actor key
        command s
      ≡ ok r
    → (q : HumanRequest) × (x : Run) × Allowed now k choice expected subject actor s q
      × (run_of q.run_id s ≡ some x)
      × (wait_at x.namespace (WaitKey.human_progress k) r.1 ≡ some (progress_wait now wait q x))
      × (count_where (awaits x.namespace k) r.1.waits ≡ 0)
decide_human_request-wakes now new intent wait k choice decision comment expected subject actor key
      command s r fresh e =
    let (q, answer, stored, allowed, took, writes) =
      decide_now-ok now new intent wait k choice decision comment expected subject actor key command
        s r
        (decides now new intent wait k choice decision comment expected subject actor key command s
          r fresh e) in
    let (x, there, awake) = store_decision-Awake now new intent wait q _ command s r writes in
    let same : q.id ≡ k =
      select-key (λ (z : HumanRequest). z.id) k s.dialogue.requests q allowed.found in
    (
      q,
      x,
      allowed,
      there,
      subst
          (λ j.
            wait_at x.namespace (WaitKey.human_progress j) r.1 ≡ some (progress_wait now wait q x))
          same awake.0,
      subst (λ j. count_where (awaits x.namespace j) r.1.waits ≡ 0) same awake.1,
    )
