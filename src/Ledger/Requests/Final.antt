-- ===== src/Ledger/Requests/Final.antt =====
-- A human request is decided once: its key replays the decision, and no other key decides it again.
use multiverse.Base.{ℕ, String, false, Option, none, some, ◌≡◌, ◌≢◌}
use multiverse.Ledger.Status.RequestStatus
use multiverse.Ledger.Schema.{HumanRequest, HumanDecision}
use multiverse.Ledger.Tx.Monad.{ok, ◌>>=◌}
use multiverse.Ledger.Tx.Database.{Db}
use multiverse.Ledger.Requests.{request_of, decision_by_key}
use multiverse.Ledger.Requests.Deciding.{decide_now, answered_or, decide_human_request}

module _ (now new intent wait k : ℕ) (choice : Option String) (decision : Option ℕ)
    (comment expected subject : ℕ) (actor : String) (key : ℕ) (command : Option ℕ) (s : Db) where
  -- The key is not there yet, so the call decides.
  pub decides :
      (r : HumanRequest × Db)
      → decision_by_key key s ≡ none
      → decide_human_request now new intent wait k choice decision comment expected subject actor
          key command s
        ≡ ok r
      → decide_now now new intent wait k choice decision comment expected subject actor key command
          s
        ≡ ok r
  unfolding decide_human_request ◌>>=◌
  decides r fresh e = rw (fresh, answered_or) at e

-- What a state has in which the key has decided the request.
record HasDecided (k key : ℕ) (q : HumanRequest) (t : Db) : Type 0 where
  here : request_of k t ≡ some q
  settled : RequestStatus.is_pending q.status ≡ false
  by_key : (d : HumanDecision) × (decision_by_key key t ≡ some d) × (d.request_id ≡ k)
  other_keys :
      (j : ℕ) (x : HumanDecision) → j ≢ key → decision_by_key j t ≡ some x → x.request_id ≢ k
