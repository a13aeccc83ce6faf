-- ===== src/Ledger/Requests/Deciding.antt =====
-- runtime/ledger.py: `decide_human_request`, with what it writes and how it wakes the run.
use multiverse.Base.{
  ℕ, ◌+◌, String, Bool, true, false, not, ◌&&◌, Option, none, some, List, ◌==◌, leb, has,
}
use multiverse.Ledger.Status.RequestStatus
use multiverse.Ledger.Status.RequestStatus.{RequestStatus}
use multiverse.Ledger.Status.IntentStatus.{IntentStatus}
use multiverse.Ledger.Status.WaitStatus
use multiverse.Ledger.Status.WaitStatus.{WaitStatus}
use multiverse.Ledger.Status.CommandStatus
use multiverse.Ledger.Schema.{
  Run, Wait, WaitKey, WaitKind, Payload, Transition, EventPayload, key_eq, RequestType,
  HumanRequest, DecisionJson, HumanDecision, ProgressIntent,
}
use multiverse.Ledger.Tx.Monad.{Error, Conflict, pure, raise, gets, raise_if, branch, ◌>>=◌, ◌>>◌}
use multiverse.Ledger.Tx.Database.{Tx, update_waits, update_commands, insert_wait, event}
use multiverse.Ledger.Tx.Dialogue.{update_requests, insert_decision, insert_intent}
use multiverse.Ledger.Queries.{run_of}
use multiverse.Ledger.Waits.{new_wait}
use multiverse.Ledger.Requests.{decision_by_key, require_request}

abbrev pub is_choice_type : RequestType → Bool
is_choice_type RequestType.approval = true
is_choice_type RequestType.review = true
is_choice_type (RequestType.other t) = false

-- What a request of one of the two kinds takes as its answer: the choice and the stored decision.
unfoldable pub take_choice : List String → Option String → ℕ → Tx (String × DecisionJson)
unfolding has
take_choice choices none comment = raise (Error.conflict Conflict.choice_not_allowed)
take_choice choices (some choice) comment = do
  raise_if (not (has choices choice)) (Error.conflict Conflict.choice_not_allowed)
  pure (choice, DecisionJson.chosen choice comment)

unfoldable pub take_decision : Option ℕ → Tx (String × DecisionJson)
take_decision none = raise (Error.conflict Conflict.decision_required)
take_decision (some d) = pure ("", DecisionJson.structured d)

unfoldable pub take_answer :
    HumanRequest → Option String → Option ℕ → ℕ → Tx (String × DecisionJson)
unfolding take_choice take_decision
take_answer r choice decision comment =
    branch (is_choice_type r.request_type) (take_choice r.choices choice comment)
      (take_decision decision)

-- The command of the call, marked with what the decision changed.
unfoldable pub mark_decision : ℕ → Option ℕ → ℕ → ℕ → Tx (Unit {0})
mark_decision now none before version = pure tt
mark_decision now (some k) before version = do
  n ←
      update_commands (λ c. c.id == k && CommandStatus.is_accepted c.status)
        (λ c. record c {
          before_version = some before;
          after_version = some version;
          transition = some Transition.human_decided;
          updated_at = now;
        })
  raise_if (not (n == 1)) (Error.conflict Conflict.decision_command)

-- `namespace = (SELECT namespace FROM runs WHERE id = ?)`
abbrev pub in_namespace_of : Option Run → ℕ → Bool
in_namespace_of none ns = false
in_namespace_of (some r) ns = ns == r.namespace

-- `INSERT INTO waits ... SELECT ... FROM runs WHERE id = ?`
unfoldable pub insert_progress_wait : ℕ → ℕ → HumanRequest → Option Run → Tx (Unit {0})
insert_progress_wait now new q none = pure tt
insert_progress_wait now new q (some r) = insert_wait (
    new_wait now new r.namespace (WaitKey.human_progress q.id) WaitKind.human_progress r.id
      (some q.scope_id) (some q.invocation_id) now (Payload.of_request q.id))

abbrev pub new_intent : ℕ → ℕ → HumanRequest → ℕ → ProgressIntent
new_intent now new q decision = record {
  id = new;
  request_id = q.id;
  run_id = q.run_id;
  scope_id = q.scope_id;
  invocation_id = q.invocation_id;
  decision_id = decision;
  status = IntentStatus.pending;
  created_at = now;
  updated_at = now;
}

-- The open wait for an answer to the request, and that wait when it is over.
abbrev pub awaited : Option Run → ℕ → Wait → Bool
awaited run k w =
    in_namespace_of run w.namespace
    && key_eq w.wait_key (WaitKey.human k)
    && WaitStatus.is_open w.status

abbrev pub completed_wait : ℕ → Wait → Wait
completed_wait now w = record w { status = WaitStatus.completed; updated_at = now }

-- What wakes the run: its wait for the request is over, and one for its progress begins.
unfoldable pub wake_run : ℕ → ℕ → ℕ → ℕ → HumanRequest → Tx (Unit {0})
unfolding insert_progress_wait
wake_run now decision intent wait q = do
  run ← gets (run_of q.run_id)
  update_waits (awaited run q.id) (completed_wait now)
  insert_intent (new_intent now intent q decision)
  again ← gets (run_of q.run_id)
  insert_progress_wait now wait q again

abbrev pub new_decision :
    ℕ → ℕ → HumanRequest → String → ℕ → DecisionJson → String → ℕ → ℕ → HumanDecision
new_decision now new q choice comment stored actor subject key = record {
  id = new;
  request_id = q.id;
  request_version = q.version + 1;
  choice = choice;
  comment = comment;
  decision = stored;
  actor = actor;
  subject_digest = subject;
  idempotency_key = key;
  created_at = now;
}

abbrev pub decided : ℕ → ℕ → ℕ → HumanRequest → HumanRequest
decided now decision version q = record q {
  status = RequestStatus.decided;
  version = version;
  decision_id = some decision;
  updated_at = some now;
}

-- What a decision that has passed the checks writes.
unfoldable pub store_decision :
    ℕ → ℕ → ℕ → ℕ → HumanRequest → HumanDecision → Option ℕ → Tx HumanRequest
unfolding mark_decision wake_run require_request
store_decision now new intent wait q d command = do
  insert_decision d
  update_requests (λ r. r.id == q.id) (decided now new (q.version + 1))
  event now q.run_id (EventPayload.human_decided q.id d.choice (q.version + 1)) (some q.scope_id)
      (some q.invocation_id) none
  mark_decision now command q.version (q.version + 1)
  wake_run now new intent wait q
  require_request q.id

-- The call with a new idempotency key.
unfoldable pub decide_now :
    ℕ
    → ℕ
    → ℕ
    → ℕ
    → ℕ
    → Option String
    → Option ℕ
    → ℕ
    → ℕ
    → ℕ
    → String
    → ℕ
    → Option ℕ
    → Tx HumanRequest
unfolding has require_request take_answer store_decision
decide_now now new intent wait k choice decision comment expected subject actor key command = do
  q ← require_request k
  raise_if (not (q.version == expected)) (Error.conflict Conflict.request_version)
  raise_if (not (RequestStatus.is_pending q.status)) (Error.conflict Conflict.request_not_pending)
  raise_if (not (q.subject_digest == subject)) (Error.conflict Conflict.request_subject)
  raise_if (not (has q.authorized_subjects actor)) (Error.conflict Conflict.not_authorized)
  (answer, stored) ← take_answer q choice decision comment
  raise_if (leb q.expires_at now) (Error.conflict Conflict.request_expired)
  store_decision now new intent wait q
      (new_decision now new q answer comment stored actor subject key) command

-- `if previous is not None`: the key has decided before.
unfoldable pub answered_or : Option HumanDecision → ℕ → Tx HumanRequest → Tx HumanRequest
unfolding require_request
answered_or none k fresh = fresh
answered_or (some d) k fresh = do
  raise_if (not (d.request_id == k)) (Error.conflict Conflict.key_of_other_request)
  require_request k

unfoldable pub decide_human_request :
    ℕ
    → ℕ
    → ℕ
    → ℕ
    → ℕ
    → Option String
    → Option ℕ
    → ℕ
    → ℕ
    → ℕ
    → String
    → ℕ
    → Option ℕ
    → Tx HumanRequest
unfolding decide_now answered_or
decide_human_request now new intent wait k choice decision comment expected subject actor key
      command =
    do
      previous ← gets (decision_by_key key)
      answered_or previous k (
          decide_now now new intent wait k choice decision comment expected subject actor key
            command)
