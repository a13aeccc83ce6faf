-- ===== src/Ledger/Attempts/Evolution.antt =====
-- The methods on attempts keep the ledger valid and move it as promised.
use multiverse.Base.{ℕ, ◌+◌, String, ◌≡◌, refl, Bool, Option, none, some, List, arith}
use multiverse.Ledger.Status.AttemptStatus.{AttemptStatus}
use multiverse.Ledger.Schema.{
  Run, Invocation, Attempt, Wait, WaitKey, ErrorJson, OutputJson, Conclusion,
}
use multiverse.Ledger.Tx.Database.{Db, Tx}
use multiverse.Ledger.Queries.{
  run_of, invocation_of, attempt_of_joined, run_of_id, invocation_of_id,
}
use multiverse.Ledger.Waits.{wait_at}
use multiverse.Ledger.Evolution.{Keeps}
use multiverse.Ledger.Evolution.Rules.{
  Keeps-pure, Keeps-gets, Keeps-branch, Keeps-raise_if, Keeps-or_raise, Keeps-read, Keeps-bind,
  Keeps-last, Keeps-update_attempts, Keeps-update_attempt_row, Keeps-update_invocation_row,
  Keeps-update_run_row, Keeps-update_wait_row, Keeps-insert_attempt, Keeps-insert_wait, Keeps-event,
}
use multiverse.Ledger.Attempts.{
  create_attempt, write_attempt, block_run, finish_attempt, schedule_retry,
}
use multiverse.Ledger.Attempts.Reconcile.{ensure_reconcile_wait, reconcile_attempt}

pub create_attempt-Keeps :
    (s : Db) (digest : ℕ → ℕ) (now new invocation input dispatch effect : ℕ) (number : Option ℕ)
    → Keeps (create_attempt digest now new invocation input dispatch effect number) s
unfolding create_attempt
create_attempt-Keeps s digest now new invocation input dispatch effect number = Keeps-read s _ _ (
    Keeps-or_raise s _ _ _ λ i _.
      Keeps-read s _ _
        (Keeps-insert_attempt s _ _ (Keeps-event _ _ _ _ _ _ _ _ λ ev. Keeps-gets _ _)))

write_attempt-Keeps :
    (s : Db) (now k : ℕ) (row : Attempt) (status : AttemptStatus) (output : Option OutputJson)
    (error : Option ErrorJson) (ref : Option String) (rest : Tx (Option Attempt))
    (invocation : Option Invocation) (run : Option Run) (i j : ℕ)
    → invocation_of i s ≡ invocation
    → run_of j s ≡ run
    → ((t : Db) → invocation_of i t ≡ invocation → run_of j t ≡ run → Keeps rest t)
    → Keeps (write_attempt now k row status output error ref rest) s
unfolding write_attempt
write_attempt-Keeps s now k row status output error ref rest invocation run i j ei ej h =
    Keeps-update_attempts s _ _ _ (λ a e. ground arith)
      (Keeps-event _ _ _ _ _ _ _ _ λ ev. h _ ei ej)

block_run-Keeps :
    (s : Db) (now : ℕ) (row : Attempt) (invocation : Invocation) (run : Run)
    (rest : Tx (Option Attempt)) (i j : ℕ)
    → invocation_of i s ≡ some invocation
    → run_of j s ≡ some run
    → ((t : Db) → Keeps rest t)
    → Keeps (block_run now row invocation run rest) s
unfolding block_run
block_run-Keeps s now row invocation run rest i j ei ej h =
    Keeps-update_invocation_row s invocation.id invocation _ _ (invocation_of_id i s invocation ei)
      (λ x. refl) (ground arith)
      (Keeps-event _ _ _ _ _ _ _ _ λ ev.
        Keeps-branch _ _ _ _ (λ _. h _)
          (λ _.
            Keeps-update_run_row _ run.id run _ _ (run_of_id j s run ej) (λ x. refl) (ground arith)
              (Keeps-event _ _ _ _ _ _ _ _ λ ev'. h _)))

pub finish_attempt-Keeps :
    (s : Db) (now k : ℕ) (status : AttemptStatus) (output : Option OutputJson)
    (error : Option ErrorJson) (ref : Option String)
    → Keeps (finish_attempt now k status output error ref) s
unfolding finish_attempt
finish_attempt-Keeps s now k status output error ref = Keeps-read s _ _ (
    Keeps-or_raise s _ _ _ λ row _. Keeps-raise_if s _ _ _ λ _.
      Keeps-branch s _ _ _ (λ _. Keeps-pure s _)
        (λ _. Keeps-raise_if s _ _ _ λ _.
          Keeps-branch s _ _ _
            (λ _. Keeps-read s _ _ (
              Keeps-or_raise s _ _ _ λ invocation ei. Keeps-read s _ _ (
                Keeps-or_raise s _ _ _ λ run ej.
                  write_attempt-Keeps s now k row status output error ref _ (some invocation)
                    (some run) row.invocation_id row.run_id ei ej
                    λ t fi fj.
                      block_run-Keeps t now row invocation run _ row.invocation_id row.run_id fi fj
                        λ u. Keeps-gets u _)))
            (λ _.
              write_attempt-Keeps s now k row status output error ref _ _ _ 0 0 refl refl
                λ t _ _. Keeps-gets t _)))

pub schedule_retry-Keeps :
    (s : Db) (now new k node next : ℕ) (error : ErrorJson) (delay : ℕ)
    → Keeps (schedule_retry now new k node next error delay) s
unfolding schedule_retry
schedule_retry-Keeps s now new k node next error delay = Keeps-read s _ _ (
    Keeps-or_raise s _ _ _ λ a ea. Keeps-raise_if s _ _ _ λ _. Keeps-read s _ _ (
      Keeps-or_raise s _ _ _ λ i ei. Keeps-read s _ _ (
        Keeps-or_raise s _ _ _ λ r er.
          Keeps-update_attempt_row s k a _ _ (attempt_of_joined k s a ea) (λ x. refl) (ground arith)
            (Keeps-event _ _ _ _ _ _ _ _ λ ev.
              Keeps-update_invocation_row _ i.id i _ _ (invocation_of_id a.invocation_id s i ei)
                (λ x. refl) (ground arith)
                (Keeps-event _ _ _ _ _ _ _ _ λ ev.
                  Keeps-update_run_row _ r.id r _ _ (run_of_id a.run_id s r er) (λ x. refl)
                    (ground arith)
                    (Keeps-event _ _ _ _ _ _ _ _ λ ev.
                      Keeps-event _ _ _ _ _ _ _ _
                        λ ev. Keeps-insert_wait _ _ _ (refl, refl) (Keeps-gets _ _)))))))

ensure_reconcile_wait-Keeps :
    (s : Db) (now new k : ℕ) (row : Attempt) (run : Run) (version : ℕ) (w : Option Wait)
    → wait_at run.namespace (WaitKey.attempt_reconcile k) s ≡ w
    → Keeps (ensure_reconcile_wait now new k row run version w) s
unfolding ensure_reconcile_wait
ensure_reconcile_wait-Keeps s now new k row run version none e =
    Keeps-last s _ (Keeps-insert_wait s _ _ (refl, refl) (Keeps-pure _ _))
ensure_reconcile_wait-Keeps s now new k row run version (some w) e =
    Keeps-branch s _ _ _
      (λ closed.
        Keeps-update_wait_row s _ _ w _ _ e (λ v. (refl, refl, refl)) (λ v. (refl, refl))
          (ground arith) (Keeps-pure _ _))
      (λ _. Keeps-pure s _)

pub reconcile_attempt-Keeps :
    (s : Db) (now new k expected : ℕ) (conclusion : Conclusion) (evidence : List String)
    (reason actor : String) (output : Option OutputJson) (enqueue : Bool)
    → Keeps (reconcile_attempt now new k expected conclusion evidence reason actor output enqueue) s
unfolding reconcile_attempt
reconcile_attempt-Keeps s now new k expected conclusion evidence reason actor output enqueue =
    Keeps-raise_if s _ _ _ λ _. Keeps-raise_if s _ _ _ λ _. Keeps-raise_if s _ _ _ λ _.
      Keeps-read s _ _ (
        Keeps-or_raise s _ _ _ λ row e. Keeps-raise_if s _ _ _ λ _. Keeps-raise_if s _ _ _ λ _.
          Keeps-update_attempt_row s k row _ _ (attempt_of_joined k s row e) (λ x. refl)
            (ground arith)
            (Keeps-event _ _ _ _ _ _ _ _ λ ev.
              Keeps-branch _ _ _ _
                (λ _. Keeps-read _ _ _ (
                  Keeps-or_raise _ _ _ _ λ run _. Keeps-read _ _ _ (
                    Keeps-bind _ _ _
                      (ensure_reconcile_wait-Keeps _ now new k row run (row.version + 1) _ refl)
                      λ _ t _. Keeps-gets t _)))
                (λ _. Keeps-gets _ _)))
