-- ===== src/Ledger/Interactions/Reply.antt =====
-- What a reply to an interaction writes.
use multiverse.Base.{
  ℕ, ◌<◌, String, ◌≡◌, refl, Bool, true, Option, none, some, arith, ◌==◌, leb, select, ap, sym,
  subst, ◌∙◌, inl, inr, Bool-cases, has, found-update, update_where,
}
use multiverse.Ledger.Status.InteractionStatus
use multiverse.Ledger.Schema.{EventPayload, Interaction}
use multiverse.Ledger.Tx.Monad.{ok, gets}
use multiverse.Ledger.Tx.Database.{Db, event}
use multiverse.Ledger.Tx.Dialogue.{update_interactions}
use multiverse.Ledger.Tx.Inversion.{bind-ok, check-ok, gets-ok, then-ok, else-ok, pure-value}
use multiverse.Ledger.Interactions.{interaction_of}
use multiverse.Ledger.Interactions.Replying.{replied, reply_late, reply_in_time, reply_now}

pub update_interactions-ok :
    (p : Interaction → Bool) (f : Interaction → Interaction) (s : Db) (r : ℕ × Db)
    → update_interactions p f s ≡ ok r
    → (r.1.dialogue.interactions ≡ update_where p f s.dialogue.interactions) × (r.1.runs ≡ s.runs)
unfolding update_interactions
update_interactions-ok p f s r e = ground arith

pub event-kept :
    (now run : ℕ) (payload : EventPayload) (scope invocation attempt : Option ℕ) (s : Db)
    (r : Unit {0} × Db)
    → event now run payload scope invocation attempt s ≡ ok r
    → (r.1.dialogue ≡ s.dialogue) × (r.1.runs ≡ s.runs)
unfolding event
event-kept now run payload scope invocation attempt s r e = ground arith

interaction-same :
    (k : ℕ) (s t : Db)
    → t.dialogue.interactions ≡ s.dialogue.interactions
    → interaction_of k t ≡ interaction_of k s
interaction-same k s t e = ap (select (λ (i : Interaction). i.id == k)) e

-- A read at the end answers from the state that it leaves.
last_read :
    (k : ℕ) (s : Db) (r : Option Interaction × Db)
    → gets (interaction_of k) s ≡ ok r
    → (s ≡ r.1) × (r.0 ≡ interaction_of k s)
unfolding gets
last_read k s r e = ground arith

pub reply_in_time-ok :
    (now : ℕ) (row : Interaction) (k response digest : ℕ) (actor : String) (key : ℕ) (s : Db)
    (r : Option Interaction × Db)
    → interaction_of k s ≡ some row
    → reply_in_time now row k response digest actor key s ≡ ok r
    → (r.0 ≡ some (replied now response digest actor key row))
      × (interaction_of k r.1 ≡ some (replied now response digest actor key row))
      × (r.1.runs ≡ s.runs)
unfolding reply_in_time
reply_in_time-ok now row k response digest actor key s r found e =
    let (n, s1, e1, f1) = bind-ok _ _ s r e in
    let (u, s2, e2, f2) = bind-ok _ _ s1 r f1 in
    let (rows, runs) = update_interactions-ok _ _ s (n, s1) e1 in
    let (dialogue, runs') = event-kept _ _ _ _ _ _ s1 (u, s2) e2 in
    let (same, value) = last_read k s2 r f2 in
    let at : interaction_of k s2 ≡ some (replied now response digest actor key row) =
      interaction-same k s1 s2 (ap (λ d. d.interactions) dialogue)
      ∙ found-update (λ (i : Interaction). i.id) k (replied now response digest actor key)
          (λ i. refl) s.dialogue.interactions s1.dialogue.interactions row rows found in
    (
      value ∙ at,
      subst (λ t. interaction_of k t ≡ some (replied now response digest actor key row)) same at,
      ap (λ t. t.runs) (sym same) ∙ runs' ∙ runs,
    )

-- A reply that comes too late answers none.
reply_late-none :
    (now : ℕ) (row : Interaction) (k : ℕ) (actor : String) (s : Db) (r : Option Interaction × Db)
    → reply_late now row k actor s ≡ ok r
    → r.0 ≡ none
unfolding reply_late
reply_late-none now row k actor s r e =
    let (n, s1, e1, f1) = bind-ok _ _ s r e in
    let (u, s2, e2, f2) = bind-ok _ _ s1 r f1 in sym (pure-value none s2 r f2)

-- A reply that is taken has found the interaction pending, of the version that the caller expects,
-- open to the actor, and not expired.
pub record Open (now expected : ℕ) (actor : String) (row : Interaction) : Type 0 where
  pub version : row.version ≡ expected
  pub pending : InteractionStatus.is_pending row.status ≡ true
  pub authorized : has row.authorized_subjects actor ≡ true
  pub in_time : now < row.expires_at

pub reply_now-ok :
    (now : ℕ) (row : Interaction) (k expected : ℕ) (actor : String) (response digest key : ℕ)
    (s : Db) (i : Interaction) (t : Db)
    → interaction_of k s ≡ some row
    → reply_now now row k expected actor response digest key s ≡ ok (some i, t)
    → Open now expected actor row
      × (i ≡ replied now response digest actor key row)
      × (interaction_of k t ≡ some i)
      × (t.runs ≡ s.runs)
unfolding reply_now
reply_now-ok now row k expected actor response digest key s i t found e =
    let r : Option Interaction × Db = (some i, t) in
    let (c1, f1) = check-ok _ _ _ s r (gets-ok _ _ s r e) in
    let (c2, f2) = check-ok _ _ _ s r f1 in
    let (c3, f3) = check-ok _ _ _ s r f2 in
    let (c4, f4) = check-ok _ _ _ s r f3 in
    elim (Bool-cases (leb row.expires_at now)) [
      | inl late ↦ absurd (cc (reply_late-none now row k actor s r (then-ok _ _ _ s r late f4)))
      | inr early ↦
          let (value, here, runs) =
            reply_in_time-ok now row k response digest actor key s r found
              (else-ok _ _ _ s r early f4) in
          let same : i ≡ replied now response digest actor key row = cc value in
          (
            record {
              version = ground (arith, c2);
              pending = ground (arith, c3);
              authorized = ground (arith, c4);
              in_time = ground (arith, early);
            },
            same,
            here ∙ ap some (sym same),
            runs,
          )
    ]
