-- ===== src/Ledger/Requests/Evolution.antt =====
-- The methods on human requests keep the ledger valid and move it as promised.
use multiverse.Base.{
  ℕ, String, ◌≡◌, refl, true, Option, none, some, List, arith, subst, sym, ◌∙◌, select-key,
  Option-cases, inl, inr,
}
use multiverse.Ledger.Status.RequestStatus
use multiverse.Ledger.Schema.{
  Run, RequestType, RequestText, HumanRequest, HumanDecision, DecisionJson, ProgressIntent,
}
use multiverse.Ledger.Tx.Monad.{ok, ◌>>=◌}
use multiverse.Ledger.Tx.Database.{Db, Tx}
use multiverse.Ledger.Evolution.{Keeps}
use multiverse.Ledger.Evolution.Rules.{
  Keeps-pure, Keeps-gets, Keeps-raise, Keeps-branch, Keeps-raise_if, Keeps-or_raise, Keeps-read,
  Keeps-check, Keeps-bind, Keeps-required, Keeps-update_waits, Keeps-update_commands,
  Keeps-insert_wait, Keeps-event, Keeps-last, Keeps-update_request_row, Keeps-update_intents,
  Keeps-insert_request, Keeps-insert_decision, Keeps-insert_intent,
}
use multiverse.Ledger.Requests.{request_of, decision_by_key, create_human_request, require_request}
use multiverse.Ledger.Requests.Deciding.{
  take_answer, take_choice, take_decision, mark_decision, insert_progress_wait, wake_run,
  store_decision, decide_now, answered_or, decide_human_request,
}
use multiverse.Ledger.Requests.Intents.{
  existing_or, ensure_human_progress_intent, complete_progress_wait, complete_human_progress_intent,
}

pub create_human_request-Keeps :
    (s : Db) (now new wait run scope invocation : ℕ) (type : RequestType) (text : RequestText)
    (subject : ℕ) (choices authorized : List String) (expires_at : ℕ)
    → Keeps
        (create_human_request now new wait run scope invocation type text subject choices authorized
          expires_at)
        s
unfolding create_human_request
create_human_request-Keeps s now new wait run scope invocation type text subject choices authorized
      expires_at =
    Keeps-read s _ _ (
      Keeps-or_raise s _ _ _ λ c _. Keeps-insert_request s _ _ (
        Keeps-event _ _ _ _ _ _ _ _ λ e.
          Keeps-read _ _ _
            (Keeps-or_raise _ _ _ _ λ r _. Keeps-insert_wait _ _ _ (refl, refl) (Keeps-gets _ _))))

require_request-Keeps : (s : Db) (k : ℕ) → Keeps (require_request k) s
unfolding require_request
require_request-Keeps s k = Keeps-read s _ _ (Keeps-required s _ _)

-- The row that is required is there, and nothing is written.
pub require_request-ok :
    (k : ℕ) (s : Db) (q : HumanRequest) (t : Db)
    → require_request k s ≡ ok (q, t)
    → (s ≡ t) × (request_of k s ≡ some q)
unfolding require_request ◌>>=◌
require_request-ok k s q t e = elim (Option-cases (request_of k s)) [
  | inl gone ↦ absurd (ground arith)
  | inr (x, there) ↦ (ground arith, ground arith)
]

mark_decision-Keeps :
    (s : Db) (now : ℕ) (command : Option ℕ) (before version : ℕ)
    → Keeps (mark_decision now command before version) s
unfolding mark_decision
mark_decision-Keeps s now none before version = Keeps-pure s tt
mark_decision-Keeps s now (some k) before version =
    Keeps-update_commands s _ _ _ (λ c e. ground arith) (Keeps-check _ _ _)

insert_progress_wait-Keeps :
    (s : Db) (now new : ℕ) (q : HumanRequest) (r : Option Run)
    → Keeps (insert_progress_wait now new q r) s
unfolding insert_progress_wait
insert_progress_wait-Keeps s now new q none = Keeps-pure s tt
insert_progress_wait-Keeps s now new q (some r) =
    Keeps-last s _ (Keeps-insert_wait s _ _ (refl, refl) (Keeps-pure _ _))

wake_run-Keeps :
    (s : Db) (now decision intent wait : ℕ) (q : HumanRequest)
    → Keeps (wake_run now decision intent wait q) s
unfolding wake_run
wake_run-Keeps s now decision intent wait q = Keeps-read s _ _ (
    Keeps-update_waits _ _ _ _ (λ w c. ground arith) (λ w c o. tt)
      (Keeps-insert_intent _ _ _ (Keeps-read _ _ _ (insert_progress_wait-Keeps _ _ _ q _))))

store_decision-Keeps :
    (s : Db) (now new intent wait : ℕ) (q : HumanRequest) (d : HumanDecision) (command : Option ℕ)
    → request_of q.id s ≡ some q
    → RequestStatus.is_pending q.status ≡ true
    → Keeps (store_decision now new intent wait q d command) s
unfolding store_decision
store_decision-Keeps s now new intent wait q d command found fresh = Keeps-insert_decision s _ _ (
    Keeps-update_request_row _ q.id q _ _ found (λ r. refl) (ground arith)
      (Keeps-event _ _ _ _ _ _ _ _ λ e. Keeps-bind _ _ _ (mark_decision-Keeps _ _ _ _ _) λ _ t _.
        Keeps-bind t _ _ (wake_run-Keeps t _ _ _ _ q) λ _ u _. require_request-Keeps u q.id))

take_answer-Keeps :
    (s : Db) (q : HumanRequest) (choice : Option String) (decision : Option ℕ) (comment : ℕ)
    → Keeps (take_answer q choice decision comment) s
unfolding take_answer take_choice take_decision
take_answer-Keeps s q choice decision comment =
    Keeps-branch s _ _ _ (λ _. of_choice choice) (λ _. of_decision decision)
  where
    of_choice : (c : Option String) → Keeps (take_choice q.choices c comment) s
    of_choice none = Keeps-raise s _
    of_choice (some c) = Keeps-raise_if s _ _ _ λ _. Keeps-pure s _

    of_decision : (d : Option ℕ) → Keeps (take_decision d) s
    of_decision none = Keeps-raise s _
    of_decision (some d) = Keeps-pure s _

-- The answer is taken without a write.
pub take_answer-same :
    (s t : Db) (q : HumanRequest) (choice : Option String) (decision : Option ℕ) (comment : ℕ)
    (a : String × DecisionJson)
    → take_answer q choice decision comment s ≡ ok (a, t)
    → s ≡ t
unfolding take_answer ◌>>=◌
take_answer-same s t q none none comment a e = ground arith
take_answer-same s t q none (some d) comment a e = ground arith
take_answer-same s t q (some c) none comment a e = ground arith
take_answer-same s t q (some c) (some d) comment a e = ground arith

own_key : (k : ℕ) (s : Db) (q : HumanRequest) → request_of k s ≡ some q → request_of q.id s ≡ some q
own_key k s q e =
    subst (λ j. request_of j s ≡ some q)
      (sym (select-key (λ (x : HumanRequest). x.id) k s.dialogue.requests q e)) e

module _ (s : Db) (now new intent wait k : ℕ) (choice : Option String) (decision : Option ℕ)
    (comment expected subject : ℕ) (actor : String) (key : ℕ) (command : Option ℕ) where
  decide_now-Keeps :
      Keeps
        (decide_now now new intent wait k choice decision comment expected subject actor key
          command)
        s
  unfolding decide_now
  decide_now-Keeps = Keeps-bind s _ _ (require_request-Keeps s k) λ q t r.
      let (same, found) = require_request-ok k s q t r in
      Keeps-raise_if t _ _ _ λ _. Keeps-raise_if t _ _ _ λ open_one. Keeps-raise_if t _ _ _ λ _.
        Keeps-raise_if t _ _ _ λ _.
          Keeps-bind t _ _ (take_answer-Keeps t q choice decision comment) λ a u took.
            let same' = take_answer-same t u q choice decision comment a took in
            Keeps-raise_if u _ _ _ λ _.
              store_decision-Keeps u now new intent wait q _ command
                (subst (λ x. request_of q.id x ≡ some q) (same ∙ same') (own_key k s q found))
                (ground arith)

  pub decide_human_request-Keeps :
      Keeps
        (decide_human_request now new intent wait k choice decision comment expected subject actor
          key command)
        s
  unfolding decide_human_request
  decide_human_request-Keeps = Keeps-read s _ _ (replayed (decision_by_key key s))
    where
      replayed :
          (o : Option HumanDecision)
          → Keeps
              (answered_or o k (
                decide_now now new intent wait k choice decision comment expected subject actor key
                  command))
              s
      replayed none = record { at = decide_now-Keeps.at }
      replayed (some d) = Keeps-raise_if s _ _ _ λ _. require_request-Keeps s k

existing_or-Keeps :
    (s : Db) (o : Option ProgressIntent) (rest : Tx (Option ProgressIntent))
    → Keeps rest s
    → Keeps (existing_or o rest) s
unfolding existing_or
existing_or-Keeps s none rest k = record { at = k.at }
existing_or-Keeps s (some i) rest k = Keeps-pure s _

pub ensure_human_progress_intent-Keeps :
    (s : Db) (now new k : ℕ) → Keeps (ensure_human_progress_intent now new k) s
unfolding ensure_human_progress_intent
ensure_human_progress_intent-Keeps s now new k = Keeps-read s _ _ (
    existing_or-Keeps s _ _ (
      Keeps-bind s _ _ (require_request-Keeps s k) λ q t _.
        Keeps-read t _ _
          (Keeps-or_raise t _ _ _ λ d _. Keeps-insert_intent t _ _ (Keeps-gets _ _))))

complete_progress_wait-Keeps :
    (s : Db) (now k : ℕ) (o : Option ProgressIntent) → Keeps (complete_progress_wait now k o) s
unfolding complete_progress_wait
complete_progress_wait-Keeps s now k none = Keeps-pure s tt
complete_progress_wait-Keeps s now k (some i) =
    Keeps-update_waits s _ _ _ (λ w c. ground arith) (λ w c o. tt) (Keeps-pure _ _)

pub complete_human_progress_intent-Keeps :
    (s : Db) (now k : ℕ) → Keeps (complete_human_progress_intent now k) s
unfolding complete_human_progress_intent
complete_human_progress_intent-Keeps s now k =
    Keeps-read s _ _
      (Keeps-update_intents s _ _ _ (λ i e. ground arith) (complete_progress_wait-Keeps _ _ _ _))
