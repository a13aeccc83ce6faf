-- ===== src/Ledger/Waits/Evolution.antt =====
-- Each method on waits keeps the ledger valid and moves it as promised.
use multiverse.Base.{ℕ, String, ◌≡◌, refl, Bool, Option, none, some, arith, select-holds}
use multiverse.Ledger.Schema.{Attempt, Run, Wait, WaitKey, WaitKind, Payload}
use multiverse.Ledger.Tx.WaitKeys.{at_key, at_key_sound}
use multiverse.Ledger.Tx.Database.{Db}
use multiverse.Ledger.Evolution.{Keeps}
use multiverse.Ledger.Evolution.Rules.{
  Keeps-pure, Keeps-gets, Keeps-branch, Keeps-raise_if, Keeps-or_raise, Keeps-read,
  Keeps-update_waits, Keeps-update_wait_id, Keeps-insert_wait, Keeps-last, Keeps-bind,
  Keeps-required,
}
use multiverse.Ledger.Waits.{
  create_wait, update_wait, claim_wait, complete_wait, release_wait, reschedule_wait,
  complete_wait_owned, release_wait_owned, reschedule_wait_owned, requeue_stale_waits,
  claim_wait_scoped, wait_at,
}
use multiverse.Ledger.Waits.Ensure.{
  put_observation_wait, put_reconciliation_wait, ensure_external_observation_wait,
  ensure_attempt_reconciliation_wait,
}

put_observation_wait-Keeps :
    (s : Db) (now new k : ℕ) (a : Attempt) (run : Run) (ref : String) (not_before : ℕ)
    (w : Option Wait)
    → wait_at run.namespace (WaitKey.external_observe k) s ≡ w
    → Keeps (put_observation_wait now new k a run ref not_before w) s
unfolding put_observation_wait
put_observation_wait-Keeps s now new k a run ref not_before none e =
    Keeps-last s _ (Keeps-insert_wait s _ _ (refl, refl) (Keeps-pure _ _))
put_observation_wait-Keeps s now new k a run ref not_before (some w) e =
    let fits = select-holds (at_key run.namespace (WaitKey.external_observe k)) s.waits w e in
    let key = at_key_sound run.namespace (WaitKey.external_observe k) w fits in
    Keeps-branch s _ _ _
      (λ closed.
        Keeps-update_wait_id s _ w _ _ e (λ v. (refl, refl, refl)) (λ v. (refl, refl))
          (record {
            same_id = refl;
            same_namespace = refl;
            same_key = refl;
            same_run = refl;
            completed_stays = λ _ other. absurd (ground (arith, key.1));
          })
          (Keeps-pure _ _))
      (λ _. Keeps-pure s _)

put_reconciliation_wait-Keeps :
    (s : Db) (now new k : ℕ) (a : Attempt) (run : Run) (w : Option Wait)
    → wait_at run.namespace (WaitKey.attempt_reconcile k) s ≡ w
    → Keeps (put_reconciliation_wait now new k a run w) s
unfolding put_reconciliation_wait
put_reconciliation_wait-Keeps s now new k a run none e =
    Keeps-last s _ (Keeps-insert_wait s _ _ (refl, refl) (Keeps-pure _ _))
put_reconciliation_wait-Keeps s now new k a run (some w) e =
    Keeps-branch s _ _ _
      (λ closed.
        Keeps-update_wait_id s _ w _ _ e (λ v. (refl, refl, refl)) (λ v. (refl, refl))
          (ground arith) (Keeps-pure _ _))
      (λ _. Keeps-pure s _)

module _ (s : Db) where
  pub create_wait-Keeps :
      (now new ns : ℕ) (key : WaitKey) (kind : WaitKind) (run not_before : ℕ) (payload : Payload)
      (scope invocation : Option ℕ)
      → Keeps (create_wait now new ns key kind run not_before payload scope invocation) s
  unfolding create_wait
  create_wait-Keeps now new ns key kind run not_before payload scope invocation =
      Keeps-raise_if s _ _ _ λ _.
        Keeps-read s _ _
          (Keeps-or_raise s _ _ _ λ r e. Keeps-insert_wait s _ _ (refl, refl) (Keeps-gets _ _))

  pub update_wait-Keeps : (now k not_before : ℕ) → Keeps (update_wait now k not_before) s
  unfolding update_wait
  update_wait-Keeps now k not_before =
      Keeps-update_waits s _ _ _ (λ w e. ground arith) (λ w e o. o)
        (Keeps-raise_if _ _ _ _ λ _. Keeps-gets _ _)

  pub claim_wait-Keeps : (k : ℕ) (worker : String) (now : ℕ) → Keeps (claim_wait k worker now) s
  unfolding claim_wait
  claim_wait-Keeps k worker now = Keeps-raise_if s _ _ _ λ _.
      Keeps-update_waits s _ _ _ (λ w e. ground arith) (λ w e o. ground arith)
        (Keeps-branch _ _ _ _ (λ _. Keeps-gets _ _) (λ _. Keeps-pure _ _))

  pub release_wait-Keeps : (now k : ℕ) → Keeps (release_wait now k) s
  unfolding release_wait
  release_wait-Keeps now k =
      Keeps-update_waits s _ _ _ (λ w e. ground arith) (λ w e o. ground arith)
        (Keeps-read _ _ _ (Keeps-raise_if _ _ _ _ λ _. Keeps-gets _ _))

  pub reschedule_wait-Keeps : (now k not_before : ℕ) → Keeps (reschedule_wait now k not_before) s
  unfolding reschedule_wait
  reschedule_wait-Keeps now k not_before =
      Keeps-update_waits s _ _ _ (λ w e. ground arith) (λ w e o. ground arith)
        (Keeps-branch _ _ _ _ (λ _. Keeps-gets _ _)
          (λ _.
            Keeps-read _ _ _
              (Keeps-or_raise _ _ _ _ λ w e. Keeps-raise_if _ _ _ _ λ _. Keeps-gets _ _)))

  pub complete_wait-Keeps : (now k : ℕ) → Keeps (complete_wait now k) s
  unfolding complete_wait
  complete_wait-Keeps now k = Keeps-read s _ _ (
      Keeps-or_raise s _ _ _ λ w e.
        Keeps-branch _ _ _ _ (λ _. Keeps-pure _ _)
          (λ _.
            Keeps-raise_if _ _ _ _
              λ _. Keeps-update_waits _ _ _ _ (λ v e. ground arith) (λ v e o. tt) (Keeps-gets _ _)))

  pub complete_wait_owned-Keeps :
      (now k ns : ℕ) (worker : String) → Keeps (complete_wait_owned now k ns worker) s
  unfolding complete_wait_owned
  complete_wait_owned-Keeps now k ns worker = Keeps-read s _ _ (
      Keeps-or_raise s _ _ _ λ w e.
        Keeps-branch _ _ _ _ (λ _. Keeps-pure _ _)
          (λ _. Keeps-raise_if _ _ _ _ λ _.
            Keeps-update_waits _ _ _ _ (λ v e. ground arith) (λ v e o. tt)
              (Keeps-raise_if _ _ _ _ λ _. Keeps-gets _ _)))

  pub release_wait_owned-Keeps :
      (now k ns : ℕ) (worker : String) → Keeps (release_wait_owned now k ns worker) s
  unfolding release_wait_owned
  release_wait_owned-Keeps now k ns worker = Keeps-read s _ _ (
      Keeps-or_raise s _ _ _ λ w e.
        Keeps-branch _ _ _ _ (λ _. Keeps-pure _ _)
          (λ _.
            Keeps-update_waits _ _ _ _ (λ v e. ground arith) (λ v e o. ground arith)
              (Keeps-raise_if _ _ _ _ λ _. Keeps-gets _ _)))

  pub reschedule_wait_owned-Keeps :
      (now k ns : ℕ) (worker : String) (not_before : ℕ)
      → Keeps (reschedule_wait_owned now k ns worker not_before) s
  unfolding reschedule_wait_owned
  reschedule_wait_owned-Keeps now k ns worker not_before = Keeps-read s _ _ (
      Keeps-or_raise s _ _ _ λ w e. Keeps-raise_if _ _ _ _ λ _.
        Keeps-update_waits _ _ _ _ (λ v e. ground arith) (λ v e o. ground arith)
          (Keeps-raise_if _ _ _ _ λ _. Keeps-gets _ _))

  pub claim_wait_scoped-Keeps :
      (ns k : ℕ) (worker : String) (now : ℕ) → Keeps (claim_wait_scoped ns k worker now) s
  unfolding claim_wait_scoped
  claim_wait_scoped-Keeps ns k worker now =
      Keeps-read s _ _
        (Keeps-branch _ _ _ _ (λ _. claim_wait-Keeps k worker now) (λ _. Keeps-pure _ _))

  pub requeue_stale_waits-Keeps :
      (now older_than : ℕ) (ns : Option ℕ) → Keeps (requeue_stale_waits now older_than ns) s
  unfolding requeue_stale_waits
  requeue_stale_waits-Keeps now older_than ns =
      Keeps-update_waits s _ _ _ (λ w e. ground arith) (λ w e o. ground arith) (Keeps-pure _ _)

  pub ensure_external_observation_wait-Keeps :
      (now new k : ℕ) (ref : String) (not_before : Option ℕ)
      → Keeps (ensure_external_observation_wait now new k ref not_before) s
  unfolding ensure_external_observation_wait
  ensure_external_observation_wait-Keeps now new k ref not_before = Keeps-read s _ _ (
      Keeps-or_raise s _ _ _ λ a _. Keeps-read s _ _ (
        Keeps-or_raise s _ _ _ λ run _. Keeps-read s _ _ (
          Keeps-bind s _ _ (put_observation_wait-Keeps s now new k a run ref _ _ refl)
            λ _ t _. Keeps-read t _ _ (Keeps-required t _ _))))

  pub ensure_attempt_reconciliation_wait-Keeps :
      (now new k : ℕ) (allow_unknown : Bool)
      → Keeps (ensure_attempt_reconciliation_wait now new k allow_unknown) s
  unfolding ensure_attempt_reconciliation_wait
  ensure_attempt_reconciliation_wait-Keeps now new k allow_unknown = Keeps-read s _ _ (
      Keeps-or_raise s _ _ _ λ a _. Keeps-raise_if s _ _ _ λ _. Keeps-read s _ _ (
        Keeps-or_raise s _ _ _ λ run _. Keeps-read s _ _ (
          Keeps-bind s _ _ (put_reconciliation_wait-Keeps s now new k a run _ refl)
            λ _ t _. Keeps-read t _ _ (Keeps-required t _ _))))
