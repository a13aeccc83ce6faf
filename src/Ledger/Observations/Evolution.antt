-- ===== src/Ledger/Observations/Evolution.antt =====
-- The methods on observations keep the ledger valid and move it as promised.
use multiverse.Base.{ℕ, arith}
use multiverse.Ledger.Tx.Database.{Db}
use multiverse.Ledger.Evolution.{Keeps}
use multiverse.Ledger.Evolution.Rules.{
  Keeps-pure, Keeps-gets, Keeps-branch, Keeps-raise_if, Keeps-raise_found, Keeps-or_raise,
  Keeps-read, Keeps-bind, Keeps-update_attempts,
}
use multiverse.Ledger.Observations.{Document, parse, record_external_observation}

parse-Keeps : (s : Db) (d : Document) → Keeps (parse d) s
unfolding parse
parse-Keeps s d = Keeps-raise_if s _ _ _ λ _. Keeps-or_raise s _ _ _ λ _ _.
    Keeps-or_raise s _ _ _ λ _ _. Keeps-or_raise s _ _ _ λ _ _. Keeps-or_raise s _ _ _ λ _ _.
      Keeps-or_raise s _ _ _
        λ _ _. Keeps-or_raise s _ _ _ λ _ _. Keeps-raise_if s _ _ _ λ _. Keeps-pure s _

pub record_external_observation-Keeps :
    (s : Db) (now k : ℕ) (d : Document) → Keeps (record_external_observation now k d) s
unfolding record_external_observation
record_external_observation-Keeps s now k d = Keeps-bind s _ _ (parse-Keeps s d) λ o t _.
    Keeps-read t _ _ (
      Keeps-or_raise t _ _ _ λ row _. Keeps-raise_if t _ _ _ λ _. Keeps-raise_if t _ _ _ λ _.
        Keeps-branch t _ _ _ (λ _. Keeps-raise_if t _ _ _ λ _. Keeps-pure t _)
          (λ _. Keeps-raise_found t _ _ λ _.
            Keeps-raise_if t _ _ _
              λ _. Keeps-update_attempts t _ _ _ (λ a e. ground arith) (Keeps-gets _ _)))
