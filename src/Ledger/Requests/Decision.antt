-- ===== src/Ledger/Requests/Decision.antt =====
-- What a decision writes, step by step.
use multiverse.Base.{
  ℕ, ◌+◌, ◌<◌, String, Bool, true, false, Option, none, some, [], ◌∷◌, ◌++◌, ◌≡◌, ◌∙◌, ap, sym,
  subst, arith, ◌==◌, exists_where, update_where, has,
}
use multiverse.Ledger.Status.RequestStatus
use multiverse.Ledger.Schema.{
  Run, Wait, HumanRequest, HumanDecision, DecisionJson, ProgressIntent, EventPayload,
}
use multiverse.Ledger.Tx.Monad.{ok, pure, ◌>>=◌}
use multiverse.Ledger.Tx.Database.{Db, event, update_commands, update_waits, insert_wait}
use multiverse.Ledger.Tx.Dialogue.{same_decision, insert_decision, update_requests, insert_intent}
use multiverse.Ledger.Tx.Inversion.{bind-ok, check-ok, gets-ok}
use multiverse.Ledger.Requests.{request_of}
use multiverse.Ledger.Requests.Deciding.{
  take_answer, mark_decision, insert_progress_wait, wake_run, store_decision, decide_now, decided,
  new_decision,
}
use multiverse.Ledger.Requests.Evolution.{require_request-ok, take_answer-same}

update_requests-ok :
    (p : HumanRequest → Bool) (f : HumanRequest → HumanRequest) (s : Db) (r : ℕ × Db)
    → update_requests p f s ≡ ok r
    → (r.1.dialogue.requests ≡ update_where p f s.dialogue.requests)
      × (r.1.dialogue.decisions ≡ s.dialogue.decisions)
unfolding update_requests
update_requests-ok p f s r e = ground arith

insert_decision-ok :
    (d : HumanDecision) (s : Db) (r : Unit {0} × Db)
    → insert_decision d s ≡ ok r
    → (exists_where (same_decision d) s.dialogue.decisions ≡ false)
      × (r.1.dialogue.decisions ≡ s.dialogue.decisions ++ d ∷ [])
      × (r.1.dialogue.requests ≡ s.dialogue.requests)
unfolding insert_decision
insert_decision-ok d s r e = ground arith

event-dialogue :
    (now run : ℕ) (payload : EventPayload) (scope invocation attempt : Option ℕ) (s : Db)
    (r : Unit {0} × Db)
    → event now run payload scope invocation attempt s ≡ ok r
    → r.1.dialogue ≡ s.dialogue
unfolding event
event-dialogue now run payload scope invocation attempt s r e = ground arith

mark_decision-dialogue :
    (now : ℕ) (command : Option ℕ) (before version : ℕ) (s : Db) (r : Unit {0} × Db)
    → mark_decision now command before version s ≡ ok r
    → r.1.dialogue ≡ s.dialogue
unfolding mark_decision update_commands pure ◌>>=◌
mark_decision-dialogue now none before version s r e = ground arith
mark_decision-dialogue now (some k) before version s r e = ground arith

insert_wait-dialogue :
    (now new : ℕ) (q : HumanRequest) (o : Option Run) (s : Db) (r : Unit {0} × Db)
    → insert_progress_wait now new q o s ≡ ok r
    → r.1.dialogue ≡ s.dialogue
unfolding insert_progress_wait insert_wait pure
insert_wait-dialogue now new q none s r e = ground arith
insert_wait-dialogue now new q (some x) s r e = ground arith

-- The requests and the decisions are as before.
abbrev SameAnswers : Db → Db → Type 0
SameAnswers s t =
    (t.dialogue.requests ≡ s.dialogue.requests) × (t.dialogue.decisions ≡ s.dialogue.decisions)

SameAnswers-trans : (s t u : Db) → SameAnswers s t → SameAnswers t u → SameAnswers s u
SameAnswers-trans s t u a b = (b.0 ∙ a.0, b.1 ∙ a.1)

same_dialogue : (s t : Db) → t.dialogue ≡ s.dialogue → SameAnswers s t
same_dialogue s t e = (ap (λ d. d.requests) e, ap (λ d. d.decisions) e)

insert_intent-kept :
    (i : ProgressIntent) (s : Db) (r : Unit {0} × Db) → insert_intent i s ≡ ok r → SameAnswers s r.1
unfolding insert_intent
insert_intent-kept i s r e = ground arith

update_waits-dialogue :
    (p : Wait → Bool) (f : Wait → Wait) (s : Db) (r : ℕ × Db)
    → update_waits p f s ≡ ok r
    → r.1.dialogue ≡ s.dialogue
unfolding update_waits
update_waits-dialogue p f s r e = ground arith

wake_run-kept :
    (now decision intent wait : ℕ) (q : HumanRequest) (s : Db) (r : Unit {0} × Db)
    → wake_run now decision intent wait q s ≡ ok r
    → SameAnswers s r.1
unfolding wake_run
wake_run-kept now decision intent wait q s r e =
    let (n, s1, e1, f1) = bind-ok _ _ s r (gets-ok _ _ s r e) in
    let (u, s2, e2, f2) = bind-ok _ _ s1 r f1 in
    let last = insert_wait-dialogue now wait q _ s2 r (gets-ok _ _ s2 r f2) in
    SameAnswers-trans s s1 r.1 (same_dialogue s s1 (update_waits-dialogue _ _ s (n, s1) e1))
      (SameAnswers-trans s1 s2 r.1 (insert_intent-kept _ s1 (u, s2) e2) (same_dialogue s2 r.1 last))

-- What a decision leaves of the requests and the decisions.
pub record Stored (now new : ℕ) (q : HumanRequest) (d : HumanDecision) (s t : Db) (a : HumanRequest)
    : Type 0 where
  pub fresh : exists_where (same_decision d) s.dialogue.decisions ≡ false
  pub decisions : t.dialogue.decisions ≡ s.dialogue.decisions ++ d ∷ []
  pub requests :
      t.dialogue.requests
      ≡ update_where (λ r. r.id == q.id) (decided now new (q.version + 1)) s.dialogue.requests
  pub answer : request_of q.id t ≡ some a

pub store_decision-Stored :
    (now new intent wait : ℕ) (q : HumanRequest) (d : HumanDecision) (command : Option ℕ) (s : Db)
    (r : HumanRequest × Db)
    → store_decision now new intent wait q d command s ≡ ok r
    → Stored now new q d s r.1 r.0
unfolding store_decision update_requests
store_decision-Stored now new intent wait q d command s r e =
    let (u1, s1, e1, f1) = bind-ok _ _ s r e in
    let (n, s2, e2, f2) = bind-ok _ _ s1 r f1 in
    let (u3, s3, e3, f3) = bind-ok _ _ s2 r f2 in
    let (u4, s4, e4, f4) = bind-ok _ _ s3 r f3 in
    let (u5, s5, e5, f5) = bind-ok _ _ s4 r f4 in
    let first = insert_decision-ok d s (u1, s1) e1 in
    let second = update_requests-ok _ _ s1 (n, s2) e2 in
    let rest =
      SameAnswers-trans s2 s3 s5 (same_dialogue s2 s3 (event-dialogue _ _ _ _ _ _ s2 (u3, s3) e3)) (
        SameAnswers-trans s3 s4 s5
          (same_dialogue s3 s4 (mark_decision-dialogue _ _ _ _ s3 (u4, s4) e4))
          (wake_run-kept now new intent wait q s4 (u5, s5) e5)) in
    let (same, found) = require_request-ok q.id s5 r.0 r.1 f5 in
    let kept = subst (SameAnswers s2) same rest in
    record {
      fresh = first.0;
      decisions = kept.1 ∙ second.1 ∙ first.1;
      requests =
          kept.0
          ∙ second.0
          ∙ ap (update_where (λ r. r.id == q.id) (decided now new (q.version + 1))) first.2;
      answer = subst (λ x. request_of q.id x ≡ some r.0) same found;
    }

-- A call with a new key that has succeeded: the request as it was read has passed every check.
pub record Allowed (now k : ℕ) (choice : Option String) (expected subject : ℕ) (actor : String)
    (s : Db) (q : HumanRequest) : Type 0 where
  pub found : request_of k s ≡ some q
  pub version : q.version ≡ expected
  pub pending : RequestStatus.is_pending q.status ≡ true
  pub subject_same : q.subject_digest ≡ subject
  pub authorized : has q.authorized_subjects actor ≡ true
  pub in_time : now < q.expires_at

pub decide_now-ok :
    (now new intent wait k : ℕ) (choice : Option String) (decision : Option ℕ)
    (comment expected subject : ℕ) (actor : String) (key : ℕ) (command : Option ℕ) (s : Db)
    (r : HumanRequest × Db)
    → decide_now now new intent wait k choice decision comment expected subject actor key command s
      ≡ ok r
    → (q : HumanRequest) × (answer : String) × (stored : DecisionJson) × Allowed now k choice
        expected subject actor s q
      × (take_answer q choice decision comment s ≡ ok ((answer, stored), s))
      × (store_decision now new intent wait q
            (new_decision now new q answer comment stored actor subject key)
            command
            s
          ≡ ok r)
unfolding decide_now
decide_now-ok now new intent wait k choice decision comment expected subject actor key command s r
      e =
    let (q, s1, e1, f1) = bind-ok _ _ s r e in
    let (same, there) = require_request-ok k s q s1 e1 in
    let (c1, f2) = check-ok _ _ _ s1 r f1 in
    let (c2, f3) = check-ok _ _ _ s1 r f2 in
    let (c3, f4) = check-ok _ _ _ s1 r f3 in
    let (c4, f5) = check-ok _ _ _ s1 r f4 in
    let (a, s2, e2, f6) = bind-ok _ _ s1 r f5 in
    let same' = take_answer-same s1 s2 q choice decision comment a e2 in
    let (c5, f7) = check-ok _ _ _ s2 r f6 in
    let back = sym (same ∙ same') in
    let take = take_answer q choice decision comment in
    (
      q,
      a.0,
      a.1,
      record {
        found = there;
        version = ground (arith, c1);
        pending = ground (arith, c2);
        subject_same = ground (arith, c3);
        authorized = ground (arith, c4);
        in_time = ground (arith, c5);
      },
      subst (λ x. take x ≡ ok (a, x)) (sym same) (subst (λ x. take s1 ≡ ok (a, x)) (sym same') e2),
      subst
          (λ x.
            store_decision now new intent wait q
              (new_decision now new q a.0 comment a.1 actor subject key) command x
            ≡ ok r)
          back f7,
    )
