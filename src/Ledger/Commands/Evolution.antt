-- ===== src/Ledger/Commands/Evolution.antt =====
-- The methods on commands keep the ledger valid and move it as promised.
use multiverse.Base.{ℕ, refl, Option, arith}
use multiverse.Ledger.Status.CommandStatus.{CommandStatus}
use multiverse.Ledger.Schema.{CommandOperation, ErrorJson}
use multiverse.Ledger.Tx.Database.{Db}
use multiverse.Ledger.Evolution.{Keeps}
use multiverse.Ledger.Evolution.Rules.{
  Keeps-pure, Keeps-gets, Keeps-branch, Keeps-raise_if, Keeps-or_raise, Keeps-read,
  Keeps-update_command_row, Keeps-insert_command,
}
use multiverse.Ledger.Commands.{create_command, finish_command}

module _ (s : Db) where
  pub create_command-Keeps :
      (now k key fingerprint : ℕ) (operation : CommandOperation) (namespace resource subject : ℕ)
      → Keeps (create_command now k key fingerprint operation namespace resource subject) s
  unfolding create_command
  create_command-Keeps now k key fingerprint operation namespace resource subject =
      Keeps-insert_command s _ _ (Keeps-gets _ _)

  pub finish_command-Keeps :
      (now k : ℕ) (status : CommandStatus) (version : Option ℕ) (error : Option ErrorJson)
      → Keeps (finish_command now k status version error) s
  unfolding finish_command
  finish_command-Keeps now k status version error = Keeps-raise_if s _ _ _ λ _. Keeps-read s _ _ (
      Keeps-or_raise s _ _ _ λ row e.
        Keeps-branch s _ _ _ (λ _. Keeps-raise_if s _ _ _ λ _. Keeps-pure s _)
          (λ open_row.
            Keeps-update_command_row s k row _ _ e (λ c. refl) (ground arith) (Keeps-gets _ _)))
