-- ===== src/Ledger/Control/Evolution.antt =====
-- The control of a run keeps the ledger valid and moves it as promised.
use multiverse.Base.{ℕ, String, ◌≡◌, refl, Bool, Option, none, some, arith}
use multiverse.Ledger.Status.RunStatus.{RunStatus}
use multiverse.Ledger.Status.ControlMode.{ControlMode}
use multiverse.Ledger.Schema.{Run, Operation, Transition}
use multiverse.Ledger.Tx.Database.{Db, Tx}
use multiverse.Ledger.Queries.{run_of}
use multiverse.Ledger.Evolution.{Keeps}
use multiverse.Ledger.Evolution.Rules.{
  Keeps-pure, Keeps-gets, Keeps-branch, Keeps-raise_if, Keeps-or_raise, Keeps-read, Keeps-check,
  Keeps-bind, Keeps-update_waits, Keeps-update_requests, Keeps-update_attempts,
  Keeps-update_invocations, Keeps-update_scopes, Keeps-update_commands, Keeps-update_run_row,
  Keeps-last, Keeps-insert_wait, Keeps-event,
}
use multiverse.Ledger.Control.{
  mark_command, insert_resume_wait, finish_control, apply_control, control_run,
}

pub mark_command-Keeps :
    (s : Db) (now : ℕ) (command before : Option ℕ) (version : ℕ) (transition : Transition)
    → Keeps (mark_command now command before version transition) s
unfolding mark_command
mark_command-Keeps s now none before version transition = Keeps-pure s tt
mark_command-Keeps s now (some k) before version transition =
    Keeps-update_commands s _ _ _ (λ c e. ground arith) (Keeps-check _ _ _)

insert_resume_wait-Keeps :
    (s : Db) (now new : ℕ) (r : Option Run) → Keeps (insert_resume_wait now new r) s
unfolding insert_resume_wait
insert_resume_wait-Keeps s now new none = Keeps-pure s tt
insert_resume_wait-Keeps s now new (some r) =
    Keeps-last s _ (Keeps-insert_wait s _ _ (refl, refl) (Keeps-pure _ _))

finish_control-Keeps :
    (s : Db) (now new : ℕ) (run : Run) (k : ℕ) (operation : Operation) (expected : ℕ)
    (reason : String) (command : Option ℕ) (enqueue : Bool) (status : RunStatus)
    (mode : ControlMode) (transition : Transition)
    → run_of k s ≡ some run
    → Keeps
        (finish_control now new run k operation expected reason command enqueue status mode
          transition)
        s
unfolding finish_control
finish_control-Keeps s now new run k operation expected reason command enqueue status mode
      transition e =
    Keeps-update_run_row s k run _ _ e (λ r. refl) (ground arith)
      (Keeps-event _ _ _ _ _ _ _ _ λ ev. Keeps-bind _ _ _ (mark_command-Keeps _ _ _ _ _ _) λ _ t _.
        Keeps-branch t _ _ _
          (λ _.
            Keeps-read t _ _
              (Keeps-bind t _ _ (insert_resume_wait-Keeps t _ _ _) λ _ u _. Keeps-gets u _))
          (λ _. Keeps-gets t _))

apply_control-Keeps :
    (s : Db) (now : ℕ) (run : Run) (k : ℕ) (operation : Operation) (reason : String)
    (finish : RunStatus → ControlMode → Transition → Tx (Option Run))
    → run_of k s ≡ some run
    → ((t : Db) (status : RunStatus) (mode : ControlMode) (transition : Transition)
        → run_of k t ≡ some run
        → Keeps (finish status mode transition) t)
    → Keeps (apply_control now run k operation reason finish) s
unfolding apply_control
apply_control-Keeps s now run k Operation.pause reason finish e h =
    Keeps-raise_if s _ _ _ λ _. h s _ _ _ e
apply_control-Keeps s now run k Operation.resume reason finish e h =
    Keeps-raise_if s _ _ _ λ _. h s _ _ _ e
apply_control-Keeps s now run k Operation.cancel reason finish e h = Keeps-raise_if s _ _ _ λ _.
    Keeps-read s _ _ (
      Keeps-update_requests s _ _ _ (λ q c. ground arith)
        (Keeps-update_waits _ _ _ _ (λ w c. ground arith) (λ w c o. tt)
          (Keeps-branch _ _ _ _ (λ _. h _ _ _ _ e)
            (λ _.
              Keeps-update_attempts _ _ _ _ (λ a c. ground arith)
                (Keeps-update_invocations _ _ _ _ (λ i c. ground arith)
                  (Keeps-update_scopes _ _ _ _ (λ c d. ground arith) (h _ _ _ _ e)))))))

pub control_run-Keeps :
    (s : Db) (now new k : ℕ) (operation : Operation) (expected : ℕ) (reason : String)
    (command : Option ℕ) (enqueue : Bool)
    → Keeps (control_run now new k operation expected reason command enqueue) s
unfolding control_run
control_run-Keeps s now new k operation expected reason command enqueue =
    Keeps-raise_if s _ _ _ λ _. Keeps-read s _ _ (
      Keeps-or_raise s _ _ _ λ run e. Keeps-read s _ _ (
        Keeps-or_raise s _ _ _ λ given _.
          Keeps-branch s _ _ _ (λ _. Keeps-gets s _)
            (λ _. Keeps-raise_if s _ _ _ λ _.
              apply_control-Keeps s now run k operation reason _ e λ t status mode transition f.
                finish_control-Keeps t now new run k operation expected reason command enqueue
                  status mode transition f)))
