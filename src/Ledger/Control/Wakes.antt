-- ===== src/Ledger/Control/Wakes.antt =====
-- `control_run`: the wait `run-resume:...` of a run that is resumed with `enqueue_resume`.
use multiverse.Base.{
  ℕ, ◌+◌, String, ◌≡◌, ◌∙◌, ap, subst, refl, Bool, true, false, Option, some, arith, ◌==◌, select,
  select-key, select-update, update_where, updated, exists_where, exists-or_false, exists-appended,
  Grows-select, Grows-exists,
}
use multiverse.Ledger.Status.RunStatus.{RunStatus}
use multiverse.Ledger.Status.ControlMode.{ControlMode}
use multiverse.Ledger.Schema.{WaitKind, Payload, Run, Wait, WaitKey, Command, Operation, Transition}
use multiverse.Ledger.Tx.Monad.{ok, gets, branch, ◌>>=◌}
use multiverse.Ledger.Tx.Inversion.{bind-ok}
use multiverse.Ledger.Tx.Database.{Db, Tx, update_runs, insert_wait}
use multiverse.Ledger.Tx.WaitKeys.{at_key, at_key_own}
use multiverse.Ledger.Evolution.{Evolves, RunMoves, WaitMoves, IsValid}
use multiverse.Ledger.Queries.{run_of, get_run}
use multiverse.Ledger.Evolution.Rules.{Evolves-trans}
use multiverse.Ledger.Waits.{new_wait}
use multiverse.Ledger.Control.Evolution.{control_run-Keeps}
use multiverse.Ledger.Control.Locking.{version_found}
use multiverse.Ledger.Control.Children.{controlled, mark_command-SameChildren, event-SameChildren}
use multiverse.Ledger.Control.{
  control_run, apply_control, finish_control, insert_resume_wait, given_applied, command_given,
}

-- There is a wait at `run-resume:k` in namespace `ns`.
abbrev pub has_wake : ℕ → ℕ → Db → Bool
has_wake ns k s = exists_where (at_key ns (WaitKey.run_resume k)) s.waits

insert_wait-new :
    (w : Wait) (s : Db) (r : (Unit {0}) × Db)
    → insert_wait w s ≡ ok r
    → (exists_where (at_key w.namespace w.wait_key) s.waits ≡ false)
      × (exists_where (at_key w.namespace w.wait_key) r.1.waits ≡ true)
unfolding insert_wait
insert_wait-new w s r e =
    let added = exists-appended (at_key w.namespace w.wait_key) s.waits w (at_key_own w) in
    (
      exists-or_false (λ (o : Wait). o.id == w.id) (at_key w.namespace w.wait_key) s.waits
          (ground arith),
      ground (arith, added),
    )

-- Only a run without a wake can get one.
insert_resume_wait-new :
    (now new k : ℕ) (row : Run) (s : Db) (r : (Unit {0}) × Db)
    → row.id ≡ k
    → insert_resume_wait now new (some row) s ≡ ok r
    → (has_wake row.namespace k s ≡ false) × (has_wake row.namespace k r.1 ≡ true)
unfolding insert_resume_wait
insert_resume_wait-new now new k row s r same e =
    subst (λ i. (has_wake row.namespace i s ≡ false) × (has_wake row.namespace i r.1 ≡ true)) same
      (insert_wait-new
        (new_wait now new row.namespace (WaitKey.run_resume row.id) WaitKind.run_resume row.id
          row.current_scope_id row.current_invocation_id now (Payload.of_run row.id))
        s r e)

-- The end of a resume that enqueues needs the key of the wake to be free, and takes it.
finish_resume :
    (now new : ℕ) (run : Run) (k expected : ℕ) (reason : String) (command : Option ℕ)
    (status : RunStatus) (mode : ControlMode) (transition : Transition) (s : Db)
    (r : Option Run × Db)
    → run_of k s ≡ some run
    → finish_control now new run k Operation.resume expected reason command true status mode
        transition s
      ≡ ok r
    → (has_wake run.namespace k s ≡ false) × (has_wake run.namespace k r.1 ≡ true)
unfolding finish_control branch get_run gets update_runs
finish_resume now new run k expected reason command status mode transition s r there e =
    let (_, s1, e1, f1) = bind-ok _ _ s r e in
    let (_, s2, e2, f2) = bind-ok _ _ s1 r f1 in
    let (_, s3, e3, f3) = bind-ok _ _ s2 r f2 in
    let (found, s4, e4, f4) = bind-ok _ _ s3 r f3 in
    let (_, s5, e5, f5) = bind-ok _ _ s4 r f4 in
    let b = event-SameChildren _ _ _ s1 (_, s2) e2 in
    let c =
      mark_command-SameChildren now command (some expected) (run.version + 1) transition s2 (_, s3)
        e3 in
    let key = λ (x : Run). x.id in
    let change = controlled now Operation.resume status mode (run.version + 1) in
    let row = change run in
    let fits : run.id ≡ k = select-key key k s.runs run there in
    let here = select-update key k (λ x. x.id == k) change (λ x. refl) s.runs in
    let moved : s3.runs ≡ update_where (λ x. x.id == k) change s.runs = ground (arith, e1, b, c) in
    let read : run_of k s3 ≡ some row =
      ap (select (λ x. x.id == k)) moved
      ∙ here
      ∙ ap (updated (λ x. x.id == k) change) there
      ∙ ground (arith, fits) in
    let got : found ≡ some row = ground (arith, e4, read) in
    let same : s4 ≡ s3 = ground (arith, e4) in
    let wake =
      insert_resume_wait-new now new k row s4 (_, s5) fits
        (subst (λ o. insert_resume_wait now new o s4 ≡ ok (_, s5)) got e5) in
    let waits : s4.waits ≡ s.waits = ground (arith, same, e1, b, c) in
    let last : s5 ≡ r.1 = ground (arith, f5) in
    (
      subst (λ w. exists_where (at_key run.namespace (WaitKey.run_resume k)) w ≡ false) waits
          wake.0,
      subst (λ t. has_wake run.namespace k t ≡ true) last wake.1,
    )

-- The wake stays: nothing deletes it, and nothing changes its namespace or its key.
has_wake-stays :
    (ns k : ℕ) (s s' : Db) → Evolves s s' → has_wake ns k s ≡ true → has_wake ns k s' ≡ true
has_wake-stays ns k s s' evolves h =
    Grows-exists WaitMoves (at_key ns (WaitKey.run_resume k))
      (λ x y m e. ground (arith, m.same_namespace, m.same_key)) s.waits s'.waits evolves.waits h

-- A resume reaches its end in the state in which it is called.
apply_resume :
    (now : ℕ) (run : Run) (k : ℕ) (reason : String)
    (finish : RunStatus → ControlMode → Transition → Tx (Option Run)) (s : Db) (r : Option Run × Db)
    → apply_control now run k Operation.resume reason finish s ≡ ok r
    → finish RunStatus.running ControlMode.run Transition.run_resumed s ≡ ok r
unfolding apply_control ◌>>=◌
apply_resume now run k reason finish s r e = ground arith

-- A run can be resumed with a wake only once: after one such resume in a valid ledger, whatever
-- transactions come between, no further resume with `enqueue_resume` that is not the repetition of
-- an applied command succeeds.
pub control_run-one_wake :
    (now new k expected : ℕ) (reason : String) (command : Option ℕ) (given : Option Command)
    (s : Db) (r : Option Run × Db) (s' : Db)
    → IsValid s
    → command_given command s ≡ some given
    → given_applied given k Operation.resume expected ≡ false
    → control_run now new k Operation.resume expected reason command true s ≡ ok r
    → Evolves r.1 s'
    → (now' new' expected' : ℕ) (reason' : String) (command' : Option ℕ) (given' : Option Command)
      (r' : Option Run × Db)
    → command_given command' s' ≡ some given'
    → given_applied given' k Operation.resume expected' ≡ false
    → ¬ (control_run now' new' k Operation.resume expected' reason' command' true s' ≡ ok r')
control_run-one_wake now new k expected reason command given s r s' v c fresh e evolves now' new'
      expected' reason' command' given' r' c' fresh' e' =
    let (run, there, _, applied) =
      version_found now new k Operation.resume expected reason command true s given r c fresh e in
    let (run', there', _, applied') =
      version_found now' new' k Operation.resume expected' reason' command' true s' given' r' c'
        fresh' e' in
    let first =
      finish_resume now new run k expected reason command _ _ _ s r there
        (apply_resume now run k reason _ s r applied) in
    let second =
      finish_resume now' new' run' k expected' reason' command' _ _ _ s' r' there'
        (apply_resume now' run' k reason' _ s' r' applied') in
    let (_, moves) =
      (control_run-Keeps s now new k Operation.resume expected reason command true).at v r.0 r.1
        e in
    let all = Evolves-trans s r.1 s' moves evolves in
    let (run'', there'', m) =
      Grows-select RunMoves (λ (x : Run). x.id) (λ x y q. q.same_id) k s.runs s'.runs run all.runs
        there in
    let same : run'' ≡ run' = ground (arith, there'', there') in
    let names : run'.namespace ≡ run.namespace = ground (arith, m.same_namespace, same) in
    let stays = has_wake-stays run.namespace k r.1 s' evolves first.1 in
    ground (arith, subst (λ n. has_wake n k s' ≡ false) names second.0)
