-- ===== src/Ledger/Tests/OfRequests.antt =====
-- Theorems and tests on human requests: request 70 of run 1, and its decision.
use multiverse.Base.{Option, none, some, [], ◌∷◌, ◌≡◌, refl, count_where}
use multiverse.Ledger.Status.AttemptStatus.{AttemptStatus}
use multiverse.Ledger.Schema.{
  Run, WaitKey, WaitKind, Payload, RequestType, RequestText, HumanRequest,
}
use multiverse.Ledger.Tx.Monad.{Conflict, ok, err, conflict, ◌>>=◌}
use multiverse.Ledger.Tx.Database.{Db, empty, event, max_seq, insert_wait, update_waits}
use multiverse.Ledger.Tx.Dialogue.{update_requests, insert_request, insert_decision, insert_intent}
use multiverse.Ledger.Queries.{run_of}
use multiverse.Ledger.Waits.{new_wait, wait_at}
use multiverse.Ledger.Requests.{create_human_request, new_request, text_of}
use multiverse.Ledger.Requests.Deciding.{decide_human_request}
use multiverse.Ledger.Requests.Decision.{Allowed}
use multiverse.Ledger.Requests.Progress.{decide_human_request-wakes, progress_wait, awaits}
use multiverse.Ledger.Tests.Samples.{same_digest, value_or}
use multiverse.Ledger.Tests.OfAttempts.{small}

abbrev start : Db
start = small AttemptStatus.running

abbrev text : RequestText
text = text_of same_digest 80 81 82 83

abbrev request : HumanRequest
request = new_request 20 70 1 2 5 RequestType.approval text 90 ("go" ∷ "stop" ∷ []) ("ada" ∷ []) 50

abbrev made : Option HumanRequest × Db
made =
    value_or (none, start)
      (create_human_request 20 70 71 1 2 5 RequestType.approval text 90 ("go" ∷ "stop" ∷ [])
        ("ada" ∷ []) 50 start)

makes :
    create_human_request 20 70 71 1 2 5 RequestType.approval text 90
      ("go" ∷ "stop" ∷ [])
      ("ada" ∷ [])
      50
      start
    ≡ ok made
unfolding create_human_request insert_request insert_wait event max_seq ◌>>=◌
makes = refl

-- The state that the creation leaves, written out.
abbrev waiting : Db
waiting = record start {
  waits =
      new_wait 20 71 7 (WaitKey.human 70) WaitKind.human 1 (some 2) (some 5) 50
        (Payload.of_request 70)
      ∷ [];
  dialogue = record empty.dialogue { requests = request ∷ [] };
}

waiting_rows : (made.1.waits ≡ waiting.waits) × (made.1.dialogue ≡ waiting.dialogue)
unfolding create_human_request insert_request insert_wait event max_seq ◌>>=◌
waiting_rows = (refl, refl)

abbrev decides : HumanRequest × Db
decides =
    value_or (request, waiting)
      (decide_human_request 30 72 73 74 70 (some "go") none 84 1 90 "ada" 91 none waiting)

decides_ok :
    decide_human_request 30 72 73 74 70 (some "go") none 84 1 90 "ada" 91 none waiting ≡ ok decides
unfolding decide_human_request insert_decision update_requests update_waits insert_intent
    insert_wait event max_seq ◌>>=◌
decides_ok = refl

-- Ada may not choose what is not offered, Bob may not choose at all, and nobody may choose late.
not_offered :
    decide_human_request 30 72 73 74 70 (some "maybe") none 84 1 90 "ada" 91 none waiting
    ≡ err (conflict Conflict.choice_not_allowed)
unfolding decide_human_request ◌>>=◌
not_offered = refl

not_bob :
    decide_human_request 30 72 73 74 70 (some "go") none 84 1 90 "bob" 91 none waiting
    ≡ err (conflict Conflict.not_authorized)
unfolding decide_human_request ◌>>=◌
not_bob = refl

too_late :
    decide_human_request 50 72 73 74 70 (some "go") none 84 1 90 "ada" 91 none waiting
    ≡ err (conflict Conflict.request_expired)
unfolding decide_human_request ◌>>=◌
too_late = refl

decide_human_request-wakes_example :
    (q : HumanRequest) × (x : Run) × Allowed 30 70 (some "go") 1 90 "ada" waiting q
    × (run_of q.run_id waiting ≡ some x)
    × (wait_at x.namespace (WaitKey.human_progress 70) decides.1 ≡ some (progress_wait 30 74 q x))
    × (count_where (awaits x.namespace 70) decides.1.waits ≡ 0)
decide_human_request-wakes_example =
    decide_human_request-wakes 30 72 73 74 70 (some "go") none 84 1 90 "ada" 91 none waiting decides
      refl decides_ok
