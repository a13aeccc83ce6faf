-- ===== src/Ledger/Requests.antt =====
-- runtime/ledger.py, human requests: create_human_request and the reads. `now` is what `_now()` reads,
-- `_digest` a parameter, and the ids that `_new_id` makes are arguments.
pub mod Deciding
pub mod Intents
pub mod Evolution
pub mod Decision
pub mod Final
pub mod Progress
use multiverse.Base.{
  ℕ, ◌+◌, String, Bool, true, false, not, ◌&&◌, Option, none, some, List, [], ◌∷◌, ◌++◌, ◌==◌, leb,
  select, select_all, is_none, opt_eq, if◌then◌else◌, has,
}
use multiverse.Ledger.Status.RequestStatus
use multiverse.Ledger.Status.RequestStatus.{RequestStatus}
use multiverse.Ledger.Status.IntentStatus
use multiverse.Ledger.Status.IntentStatus.{IntentStatus}
use multiverse.Ledger.Status.WaitStatus
use multiverse.Ledger.Status.WaitStatus.{WaitStatus}
use multiverse.Ledger.Status.CommandStatus
use multiverse.Ledger.Schema.{
  Run, Wait, WaitKey, WaitKind, Payload, Transition, EventPayload, key_eq, RequestType, RequestText,
  HumanRequest, DecisionJson, HumanDecision, ProgressIntent,
}
use multiverse.Ledger.Tx.Monad.{
  Error, Entity, Conflict, pure, raise, gets, or_raise, raise_if, branch, ◌>>=◌, ◌>>◌,
}
use multiverse.Ledger.Tx.Database.{Db, Tx, update_waits, update_commands, insert_wait, event}
use multiverse.Ledger.Tx.Dialogue.{
  update_requests, update_intents, insert_request, insert_decision, insert_intent,
}
use multiverse.Ledger.Queries.{run_of, scope_in}
use multiverse.Ledger.Waits.{new_wait}

-- SELECT * FROM human_requests WHERE id = ?
abbrev pub request_of : ℕ → Db → Option HumanRequest
request_of k s = select (λ (r : HumanRequest). r.id == k) s.dialogue.requests

-- SELECT ... FROM human_decisions WHERE idempotency_key = ?, and WHERE request_id = ?
abbrev pub decision_by_key : ℕ → Db → Option HumanDecision
decision_by_key key s =
    select (λ (d : HumanDecision). d.idempotency_key == key) s.dialogue.decisions

abbrev pub decision_on : ℕ → Db → Option HumanDecision
decision_on k s = select (λ (d : HumanDecision). d.request_id == k) s.dialogue.decisions

-- SELECT * FROM human_progress_intents WHERE request_id = ?, and WHERE id = ?
abbrev pub intent_on : ℕ → Db → Option ProgressIntent
intent_on k s = select (λ (i : ProgressIntent). i.request_id == k) s.dialogue.intents

abbrev pub intent_of : ℕ → Db → Option ProgressIntent
intent_of k s = select (λ (i : ProgressIntent). i.id == k) s.dialogue.intents

unfoldable pub get_human_request : ℕ → Tx (Option HumanRequest)
get_human_request k = gets (request_of k)

unfoldable pub get_human_decision : ℕ → Tx (Option HumanDecision)
get_human_decision k = gets (decision_on k)

unfoldable pub get_human_decision_by_idempotency_key : ℕ → Tx (Option HumanDecision)
get_human_decision_by_idempotency_key key = gets (decision_by_key key)

unfoldable pub get_human_progress_intent : ℕ → Tx (Option ProgressIntent)
get_human_progress_intent k = gets (intent_on k)

-- `_require_human_request`
unfoldable pub require_request : ℕ → Tx HumanRequest
require_request k = do
  found ← gets (request_of k)
  or_raise (Error.not_found Entity.request k) found

-- The row that `create_human_request` inserts.
abbrev pub new_request :
    ℕ → ℕ → ℕ → ℕ → ℕ → RequestType → RequestText → ℕ → List String → List String → ℕ → HumanRequest
new_request now new run scope invocation type text subject choices authorized expires_at = record {
  id = new;
  run_id = run;
  scope_id = scope;
  invocation_id = invocation;
  request_type = type;
  text = text;
  subject_digest = subject;
  choices = choices;
  authorized_subjects = authorized;
  created_at = now;
  expires_at = expires_at;
  version = 1;
  status = RequestStatus.pending;
  decision_id = none;
  updated_at = none;
}

-- `input_digest` of the request's text is the digest of its input.
abbrev pub text_of : (ℕ → ℕ) → ℕ → ℕ → ℕ → ℕ → RequestText
text_of digest title instructions input decision_schema = record {
  title = title;
  instructions = instructions;
  input = input;
  input_digest = digest input;
  decision_schema = decision_schema;
}

unfoldable pub create_human_request :
    ℕ
    → ℕ
    → ℕ
    → ℕ
    → ℕ
    → ℕ
    → RequestType
    → RequestText
    → ℕ
    → List String
    → List String
    → ℕ
    → Tx (Option HumanRequest)
unfolding get_human_request
create_human_request now new wait run scope invocation type text subject choices authorized
      expires_at =
    do
      found ← gets (scope_in scope run)
      or_raise (Error.not_found Entity.scope scope) found
      insert_request
          (new_request now new run scope invocation type text subject choices authorized expires_at)
      event now run (EventPayload.human_created new) (some scope) (some invocation) none
      found_run ← gets (run_of run)
      r ← or_raise (Error.not_found Entity.run run) found_run
      insert_wait (
          new_wait now wait r.namespace (WaitKey.human new) WaitKind.human run (some scope)
            (some invocation) expires_at (Payload.of_request new))
      get_human_request new

-- `list_human_requests` sorts by `created_at`; `ORDER BY` keeps the order of rows with equal times
-- here, which SQLite leaves open.
abbrev pub fits : Option ℕ → Option RequestStatus → HumanRequest → Bool
fits run status r =
    elim run [ none ↦ true | some k ↦ r.run_id == k ]
    && elim status [ none ↦ true | some st ↦ RequestStatus.same r.status st ]

unfoldable pub insert_by_time : HumanRequest → List HumanRequest → List HumanRequest
insert_by_time r [] = r ∷ []
insert_by_time r (q ∷ qs) =
    if leb r.created_at q.created_at then r ∷ q ∷ qs else q ∷ insert_by_time r qs

unfoldable pub order_by_time : List HumanRequest → List HumanRequest
unfolding insert_by_time
order_by_time [] = []
order_by_time (r ∷ rs) = insert_by_time r (order_by_time rs)

unfoldable pub list_human_requests : Option ℕ → Option RequestStatus → Tx (List HumanRequest)
unfolding order_by_time
list_human_requests run status =
    gets (λ s. order_by_time (select_all (fits run status) s.dialogue.requests))
