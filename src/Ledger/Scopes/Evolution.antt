-- ===== src/Ledger/Scopes/Evolution.antt =====
-- The methods on scopes and invocations keep the ledger valid and move it as promised.
use multiverse.Base.{ℕ, refl, Option, List, arith}
use multiverse.Ledger.Status.ScopeStatus.{ScopeStatus}
use multiverse.Ledger.Status.InvocationStatus.{InvocationStatus}
use multiverse.Ledger.Schema.{OutputJson, ErrorJson}
use multiverse.Ledger.Tx.Database.{Db}
use multiverse.Ledger.Evolution.{Keeps}
use multiverse.Ledger.Evolution.Rules.{
  Keeps-gets, Keeps-raise_if, Keeps-or_raise, Keeps-read, Keeps-update_scopes,
  Keeps-update_invocation_row, Keeps-insert_scope, Keeps-insert_invocation, Keeps-event,
}
use multiverse.Ledger.Scopes.{create_scope, finish_scope, create_invocation, finish_invocation}

module _ (s : Db) where
  pub create_scope-Keeps :
      (digest : ℕ → ℕ) (now new run workflow : ℕ) (path : List ℕ) (input : ℕ)
      (parent invocation : Option ℕ)
      → Keeps (create_scope digest now new run workflow path input parent invocation) s
  unfolding create_scope
  create_scope-Keeps digest now new run workflow path input parent invocation = Keeps-read s _ _ (
      Keeps-or_raise s _ _ _
        λ r _. Keeps-insert_scope s _ _ (Keeps-event _ _ _ _ _ _ _ _ λ ev. Keeps-gets _ _))

  pub finish_scope-Keeps :
      (now k : ℕ) (status : ScopeStatus) (output : Option OutputJson) (error : Option ErrorJson)
      → Keeps (finish_scope now k status output error) s
  unfolding finish_scope
  finish_scope-Keeps now k status output error = Keeps-read s _ _ (
      Keeps-or_raise s _ _ _ λ r _.
        Keeps-update_scopes s _ _ _ (λ c e. ground arith)
          (Keeps-event _ _ _ _ _ _ _ _ λ ev. Keeps-gets _ _))

  pub create_invocation-Keeps :
      (digest : ℕ → ℕ) (now new run scope node input : ℕ) (input_digest : Option ℕ)
      → Keeps (create_invocation digest now new run scope node input input_digest) s
  unfolding create_invocation
  create_invocation-Keeps digest now new run scope node input input_digest = Keeps-read s _ _ (
      Keeps-or_raise s _ _ _
        λ r _. Keeps-insert_invocation s _ _ (Keeps-event _ _ _ _ _ _ _ _ λ ev. Keeps-gets _ _))

  pub finish_invocation-Keeps :
      (now k : ℕ) (status : InvocationStatus) (output : Option OutputJson)
      (error : Option ErrorJson)
      → Keeps (finish_invocation now k status output error) s
  unfolding finish_invocation
  finish_invocation-Keeps now k status output error = Keeps-read s _ _ (
      Keeps-or_raise s _ _ _ λ r e. Keeps-raise_if s _ _ _ λ _.
        Keeps-update_invocation_row s k r _ _ e (λ i. refl) (ground arith)
          (Keeps-event _ _ _ _ _ _ _ _ λ ev. Keeps-gets _ _))
