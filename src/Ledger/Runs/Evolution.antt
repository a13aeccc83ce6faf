-- ===== src/Ledger/Runs/Evolution.antt =====
-- The methods on runs keep the ledger valid and move it as promised.
use multiverse.Base.{ℕ, refl, Option, none, some, arith, select-append_new}
use multiverse.Ledger.Schema.{Run, RunSpec}
use multiverse.Ledger.Tx.Database.{Db}
use multiverse.Ledger.Evolution.{Keeps}
use multiverse.Ledger.Evolution.Rules.{
  Keeps-pure, Keeps-gets, Keeps-check, Keeps-raise_if, Keeps-raise_found, Keeps-or_raise,
  Keeps-read, Keeps-bind, Keeps-update_run_row, Keeps-update_commands, Keeps-insert_run,
  Keeps-insert_scope, Keeps-insert_wait, Keeps-event,
}
use multiverse.Ledger.Runs.{
  mark_created, new_run, create_run, create_queued_run, RunUpdate, update_run,
}

mark_created-Keeps : (s : Db) (now : ℕ) (command : Option ℕ) → Keeps (mark_created now command) s
unfolding mark_created
mark_created-Keeps s now none = Keeps-pure s tt
mark_created-Keeps s now (some k) =
    Keeps-update_commands s _ _ _ (λ c e. ground arith) (Keeps-check _ _ _)

pub create_run-Keeps :
    (s : Db) (now k namespace : ℕ) (spec : RunSpec) (command : Option ℕ)
    → Keeps (create_run now k namespace spec command) s
unfolding create_run
create_run-Keeps s now k namespace spec command = Keeps-insert_run s _ _ λ _.
    Keeps-event _ _ _ _ _ _ _ _
      λ ev. Keeps-bind _ _ _ (mark_created-Keeps _ now command) λ _ t _. Keeps-gets t _

pub create_queued_run-Keeps :
    (s : Db) (digest : ℕ → ℕ) (root now k scope wait namespace : ℕ) (spec : RunSpec) (entry : ℕ)
    (command : Option ℕ)
    → Keeps (create_queued_run digest root now k scope wait namespace spec entry command) s
unfolding create_queued_run
create_queued_run-Keeps s digest root now k scope wait namespace spec entry command =
    Keeps-insert_run s _ _ λ fresh. Keeps-event _ _ _ _ _ _ _ _ λ ev. Keeps-insert_scope _ _ _ (
      Keeps-update_run_row _ k (new_run now k namespace spec (some entry)) _ _
        (select-append_new (λ (r : Run). r.id) k s.runs _ fresh refl) (λ r. refl) (ground arith)
        (Keeps-event _ _ _ _ _ _ _ _ λ ev'.
          Keeps-insert_wait _ _ _ (refl, refl)
            (Keeps-bind _ _ _ (mark_created-Keeps _ now command) λ _ t _. Keeps-gets t _)))

pub update_run-Keeps : (s : Db) (now k : ℕ) (u : RunUpdate) → Keeps (update_run now k u) s
unfolding update_run
update_run-Keeps s now k u = Keeps-read s _ _ (
    Keeps-or_raise s _ _ _ λ row e. Keeps-raise_if s _ _ _ λ _. Keeps-read s _ _ (
      Keeps-raise_found s _ _ λ _. Keeps-read s _ _ (
        Keeps-raise_found s _ _ λ _.
          Keeps-update_run_row s k row _ _ e (λ r. refl) (ground arith)
            (Keeps-event _ _ _ _ _ _ _ _ λ ev. Keeps-gets _ _))))
