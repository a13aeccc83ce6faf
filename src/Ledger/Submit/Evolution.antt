-- ===== src/Ledger/Submit/Evolution.antt =====
-- The methods on submissions keep the ledger valid and move it as promised.
use multiverse.Base.{ℕ, String, ◌≡◌, refl, Bool, Option, none, some, arith}
use multiverse.Ledger.Schema.{Run, Attempt, Outbox, Wait, WaitKey, ErrorJson}
use multiverse.Ledger.Tx.Database.{Db, Tx}
use multiverse.Ledger.Waits.{wait_at}
use multiverse.Ledger.Evolution.{Keeps}
use multiverse.Ledger.Evolution.Rules.{
  Keeps-pure, Keeps-branch, Keeps-check, Keeps-raise_if, Keeps-or_raise, Keeps-read, Keeps-bind,
  Keeps-last, Keeps-update_runs, Keeps-update_attempts, Keeps-update_invocations,
  Keeps-update_outbox, Keeps-update_wait_id, Keeps-insert_outbox, Keeps-insert_wait, Keeps-event,
}
use multiverse.Ledger.Submit.{
  outbox_by_id, renew_submit_wait, ensure_submit_wait, check_or_create, ensure_submit_outbox,
  claim_submit_outbox, mark_submit_outbox_submitted,
}
use multiverse.Ledger.Submit.Outcomes.{
  unblock_run, resolve_unknown_submit, block_attempt, mark_submit_outbox_unknown, reopen_attempt,
  mark_submit_outbox_retryable,
}

outbox_by_id-Keeps : (s : Db) (k : ℕ) → Keeps (outbox_by_id k) s
unfolding outbox_by_id
outbox_by_id-Keeps s k =
    Keeps-read s _ _ (Keeps-last s _ (Keeps-or_raise s _ _ _ λ o _. Keeps-pure s o))

renew_submit_wait-Keeps :
    (s : Db) (now new outbox k not_before : ℕ) (a : Attempt) (r : Run) (w : Option Wait)
    → wait_at r.namespace (WaitKey.submit k) s ≡ w
    → Keeps (renew_submit_wait now new outbox k not_before a r w) s
unfolding renew_submit_wait
renew_submit_wait-Keeps s now new outbox k not_before a r none e =
    Keeps-last s _ (Keeps-insert_wait s _ _ (refl, refl) (Keeps-pure _ _))
renew_submit_wait-Keeps s now new outbox k not_before a r (some w) e =
    Keeps-branch s _ _ _
      (λ closed.
        Keeps-update_wait_id s _ w _ _ e (λ v. (refl, refl, refl)) (λ v. (refl, refl))
          (ground arith) (Keeps-pure _ _))
      (λ _. Keeps-pure s _)

ensure_submit_wait-Keeps :
    (s : Db) (now new outbox k not_before : ℕ)
    → Keeps (ensure_submit_wait now new outbox k not_before) s
unfolding ensure_submit_wait
ensure_submit_wait-Keeps s now new outbox k not_before = Keeps-read s _ _ (
    Keeps-or_raise s _ _ _ λ a _. Keeps-read s _ _ (
      Keeps-or_raise s _ _ _
        λ r _. Keeps-read s _ _ (renew_submit_wait-Keeps s now new outbox k not_before a r _ refl)))

check_or_create-Keeps :
    (s : Db) (digest : ℕ → ℕ) (now new k payload : ℕ) (a : Attempt) (o : Option Outbox)
    → Keeps (check_or_create digest now new k payload a o) s
unfolding check_or_create
check_or_create-Keeps s digest now new k payload a none = Keeps-read s _ _ (
    Keeps-or_raise s _ _ _ λ ns _.
      Keeps-insert_outbox s _ _ (Keeps-last _ _ (Keeps-event _ _ _ _ _ _ _ _ λ ev. Keeps-pure _ _)))
check_or_create-Keeps s digest now new k payload a (some o) = Keeps-check s _ _

pub ensure_submit_outbox-Keeps :
    (s : Db) (digest : ℕ → ℕ) (now new new_wait k payload : ℕ)
    → Keeps (ensure_submit_outbox digest now new new_wait k payload) s
unfolding ensure_submit_outbox
ensure_submit_outbox-Keeps s digest now new new_wait k payload = Keeps-read s _ _ (
    Keeps-or_raise s _ _ _ λ a _. Keeps-read s _ _ (
      Keeps-bind s _ _ (check_or_create-Keeps s digest now new k payload a _) λ _ t _.
        Keeps-read t _ _ (
          Keeps-or_raise t _ _ _ λ o _.
            Keeps-bind t _ _ (ensure_submit_wait-Keeps t now new_wait o.id k _)
              λ _ u _. Keeps-pure u o)))

pub claim_submit_outbox-Keeps : (s : Db) (now k : ℕ) → Keeps (claim_submit_outbox now k) s
unfolding claim_submit_outbox
claim_submit_outbox-Keeps s now k =
    Keeps-update_outbox s _ _ _ (λ o e. ground arith) (outbox_by_id-Keeps _ k)

pub mark_submit_outbox_submitted-Keeps :
    (s : Db) (now k : ℕ) (ref : String) → Keeps (mark_submit_outbox_submitted now k ref) s
unfolding mark_submit_outbox_submitted
mark_submit_outbox_submitted-Keeps s now k ref = Keeps-raise_if s _ _ _ λ _. Keeps-read s _ _ (
    Keeps-or_raise s _ _ _ λ row _.
      Keeps-branch s _ _ _ (λ _. Keeps-pure s row)
        (λ _. Keeps-raise_if s _ _ _ λ _.
          Keeps-update_outbox s _ _ _ (λ o e. ground arith)
            (Keeps-update_attempts _ _ _ _ (λ a e. ground arith)
              (Keeps-event _ _ _ _ _ _ _ _ λ ev. outbox_by_id-Keeps _ k))))

unblock_run-Keeps :
    (s : Db) (now : ℕ) (r : Run) (rest : Tx Outbox)
    → ((t : Db) → Keeps rest t)
    → Keeps (unblock_run now r rest) s
unfolding unblock_run
unblock_run-Keeps s now r rest h =
    Keeps-branch s _ _ _ (λ _. Keeps-update_runs s _ _ _ (λ x e. ground arith) (h _)) (λ _. h s)

pub resolve_unknown_submit-Keeps :
    (s : Db) (now k : ℕ) (ref : String) (evidence : ℕ) (has : Bool)
    → Keeps (resolve_unknown_submit now k ref evidence has) s
unfolding resolve_unknown_submit
resolve_unknown_submit-Keeps s now k ref evidence has = Keeps-raise_if s _ _ _ λ _.
    Keeps-raise_if s _ _ _ λ _. Keeps-read s _ _ (
      Keeps-or_raise s _ _ _ λ row _.
        Keeps-branch s _ _ _ (λ _. Keeps-pure s row)
          (λ _. Keeps-raise_if s _ _ _ λ _.
            Keeps-update_outbox s _ _ _ (λ o e. ground arith)
              (Keeps-read _ _ _ (
                Keeps-or_raise _ _ _ _ λ a _. Keeps-raise_if _ _ _ _ λ _.
                  Keeps-update_attempts _ _ _ _ (λ x e. ground arith)
                    (Keeps-read _ _ _ (
                      Keeps-or_raise _ _ _ _ λ i _.
                        Keeps-update_invocations _ _ _ _ (λ x e. ground arith)
                          (Keeps-read _ _ _ (
                            Keeps-or_raise _ _ _ _ λ r _.
                              unblock_run-Keeps _ now r _ λ t.
                                Keeps-event t _ _ _ _ _ _ _ λ ev. outbox_by_id-Keeps _ k))))))))

block_attempt-Keeps :
    (s : Db) (now : ℕ) (error : ErrorJson) (row : Outbox) (rest : Tx Outbox)
    → ((t : Db) → Keeps rest t)
    → Keeps (block_attempt now error row rest) s
unfolding block_attempt
block_attempt-Keeps s now error row rest h =
    Keeps-update_attempts s _ _ _ (λ x e. ground arith)
      (Keeps-read _ _ _ (
        Keeps-or_raise _ _ _ _ λ i _.
          Keeps-update_invocations _ _ _ _ (λ x e. ground arith)
            (Keeps-read _ _ _ (
              Keeps-or_raise _ _ _ _ λ r _.
                Keeps-branch _ _ _ _ (λ _. h _)
                  (λ _. Keeps-update_runs _ _ _ _ (λ x e. ground arith) (h _))))))

pub mark_submit_outbox_unknown-Keeps :
    (s : Db) (now k : ℕ) (error : ErrorJson) → Keeps (mark_submit_outbox_unknown now k error) s
unfolding mark_submit_outbox_unknown
mark_submit_outbox_unknown-Keeps s now k error = Keeps-read s _ _ (
    Keeps-or_raise s _ _ _ λ row _.
      Keeps-update_outbox s _ _ _ (λ o e. ground arith)
        (Keeps-read _ _ _ (
          Keeps-or_raise _ _ _ _ λ a _.
            Keeps-branch _ _ _ _ (λ _. Keeps-event _ _ _ _ _ _ _ _ λ ev. outbox_by_id-Keeps _ k)
              (λ _.
                block_attempt-Keeps _ now error row _
                  λ t. Keeps-event t _ _ _ _ _ _ _ λ ev. outbox_by_id-Keeps _ k))))

reopen_attempt-Keeps :
    (s : Db) (now : ℕ) (row : Outbox) (rest : Tx Outbox)
    → ((t : Db) → Keeps rest t)
    → Keeps (reopen_attempt now row rest) s
unfolding reopen_attempt
reopen_attempt-Keeps s now row rest h = Keeps-read s _ _ (
    Keeps-or_raise s _ _ _ λ a _.
      Keeps-branch s _ _ _ (λ _. h s)
        (λ _.
          Keeps-update_attempts s _ _ _ (λ x e. ground arith)
            (Keeps-read _ _ _ (
              Keeps-or_raise _ _ _ _ λ i _.
                Keeps-update_invocations _ _ _ _ (λ x e. ground arith)
                  (Keeps-read _ _ _
                    (Keeps-or_raise _ _ _ _ λ r _. unblock_run-Keeps _ now r rest h))))))

pub mark_submit_outbox_retryable-Keeps :
    (s : Db) (now k : ℕ) → Keeps (mark_submit_outbox_retryable now k) s
unfolding mark_submit_outbox_retryable
mark_submit_outbox_retryable-Keeps s now k = Keeps-read s _ _ (
    Keeps-or_raise s _ _ _ λ row _.
      Keeps-update_outbox s _ _ _ (λ o e. ground arith)
        (Keeps-branch _ _ _ _ (λ _. Keeps-raise_if _ _ _ _ λ _. outbox_by_id-Keeps _ k)
          (λ _. reopen_attempt-Keeps _ now row _ λ t. outbox_by_id-Keeps t k)))
