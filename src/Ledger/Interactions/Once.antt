-- ===== src/Ledger/Interactions/Once.antt =====
-- An interaction is answered once, and never after it has expired.
use multiverse.Base.{
  ℕ, ◌+◌, String, ◌≡◌, refl, Bool, true, false, ◌&&◌, Option, none, some, arith, ◌==◌, select, ap,
  sym, subst, ◌∙◌, inl, inr, Bool-cases, is_some_of,
}
use multiverse.Ledger.Status.InteractionStatus
use multiverse.Ledger.Status.InteractionStatus.{InteractionStatus}
use multiverse.Ledger.Schema.{Run, Interaction}
use multiverse.Ledger.Tx.Monad.{
  Result, Error, Conflict, conflict, ok, err, transaction, branch, ◌>>=◌,
}
use multiverse.Ledger.Tx.Database.{Db, Tx}
use multiverse.Ledger.Queries.{run_of}
use multiverse.Ledger.Interactions.{interaction_of, interaction_by_key}
use multiverse.Ledger.Interactions.Replying.{
  is_other, is_actor, replied, reply_now, respond_tx, respond_codex_interaction, raise_expired,
}
use multiverse.Ledger.Interactions.Reply.{Open, reply_now-ok}

-- What a method answers, and what its transaction has done.
answers :
    (m : Tx (Option Interaction)) (s : Db) (i : Interaction) (t : Db)
    → raise_expired (transaction m s).0 ≡ ok i
    → (transaction m s).1 ≡ t
    → m s ≡ ok (some i, t)
unfolding transaction
answers m s i t e f = go (m s) refl
  where
    go : (o : Result (Option Interaction × Db)) → m s ≡ o → m s ≡ ok (some i, t)
    go (ok (some j, u)) q = ground arith
    go (ok (none, u)) q = absurd (ground arith)
    go (err x) q = absurd (ground arith)

refuses :
    (m : Tx (Option Interaction)) (s : Db) (x : Error)
    → m s ≡ err x
    → (raise_expired (transaction m s).0 ≡ err x) × ((transaction m s).1 ≡ s)
unfolding transaction
refuses m s x e = rw (e, transaction) (refl, refl)

pair_eq :
    (p : Result Interaction × Db) (a : Result Interaction) (s : Db) → p.0 ≡ a → p.1 ≡ s → p ≡ (a, s)
pair_eq p a s e f = ground arith

reply_closed :
    (now : ℕ) (x : Interaction) (k expected : ℕ) (actor : String) (response digest key : ℕ) (s : Db)
    → InteractionStatus.is_pending x.status ≡ false
    → (e : Error) × (reply_now now x k expected actor response digest key s ≡ err e)
unfolding reply_now ◌>>=◌
reply_closed now x k expected actor response digest key s closed =
    elim (Bool-cases (is_other (interaction_by_key key s) k)) [
      | inl other ↦ (conflict Conflict.key_of_other_interaction, ground (arith, other))
      | inr mine ↦ elim (Bool-cases (x.version == expected)) [
        | inl same ↦
            (conflict (Conflict.interaction_closed x.status), ground (arith, mine, same, closed))
        | inr late ↦ (conflict Conflict.interaction_version, ground (arith, mine, late))
      ]
    ]

-- A later reply says the same as the one that is stored.
abbrev pub repeats : (ℕ → ℕ) → (ℕ → String → ℕ → ℕ) → ℕ → Interaction → String → ℕ → ℕ → Bool
repeats digest scoped namespace i actor response key =
    is_some_of i.idempotency_key (scoped namespace actor key)
    && is_some_of i.response_digest (digest response)
    && is_actor i.actor actor

module _ (digest : ℕ → ℕ) (scoped : ℕ → String → ℕ → ℕ) (now k expected : ℕ) (actor : String)
    (response key : ℕ) (s : Db) where
  goes_on :
      (x : Interaction) (n : Run)
      → interaction_of k s ≡ some x
      → run_of x.run_id s ≡ some n
      → is_some_of x.idempotency_key (scoped n.namespace actor key) ≡ false
      → respond_tx digest scoped now k expected actor response key s
        ≡ reply_now now x k expected actor response
            (digest response)
            (scoped n.namespace actor key)
            s
  unfolding respond_tx ◌>>=◌
  goes_on x n found run fresh = rw (found, ◌>>=◌, run, fresh, branch) refl

  -- In a state where the interaction is answered.
  module _ (x : Interaction) (n : Run) (found : interaction_of k s ≡ some x)
      (run : run_of x.run_id s ≡ some n)
      (closed : InteractionStatus.is_pending x.status ≡ false) where
    repeated :
        repeats digest scoped n.namespace x actor response key ≡ true
        → respond_codex_interaction digest scoped now k expected actor response key s ≡ (ok x, s)
    unfolding respond_codex_interaction respond_tx transaction ◌>>=◌
    repeated same = ground (arith, found, run, same)

    refused :
        repeats digest scoped n.namespace x actor response key ≡ false
        → (e : Error) × (respond_tx digest scoped now k expected actor response key s ≡ err e)
    unfolding respond_tx ◌>>=◌
    refused other =
        elim (Bool-cases (is_some_of x.idempotency_key (scoped n.namespace actor key))) [
          | inl known ↦ (conflict Conflict.key_reused, ground (arith, found, run, known, other))
          | inr fresh ↦
              let (e, q) =
                reply_closed now x k expected actor response (digest response)
                  (scoped n.namespace actor key) s closed in
              (e, goes_on x n found run fresh ∙ q)
        ]

    turned_down :
        repeats digest scoped n.namespace x actor response key ≡ false
        → (e : Error) × (respond_codex_interaction digest scoped now k expected actor response key s
            ≡ (err e, s))
    unfolding respond_codex_interaction
    turned_down other =
        let (e, q) = refused other in
        let (a, b) = refuses (respond_tx digest scoped now k expected actor response key) s e q in
        (e, pair_eq _ (err e) s a b)

-- An interaction is answered once. When a reply is taken whose key the interaction did not have
-- before, the interaction was pending, of the version that the caller expects, not expired, and
-- open to the actor; it is stored as replied, under the next version, with this response, its
-- digest, the actor and the key of the reply. In the state that this leaves, a reply to it with the
-- same actor, key and response answers the same row, every other reply fails, and none of them
-- writes anything.
pub respond_codex_interaction-once :
    (digest : ℕ → ℕ) (scoped : ℕ → String → ℕ → ℕ) (now k expected : ℕ) (actor : String)
    (response key : ℕ) (s : Db) (x : Interaction) (n : Run) (i : Interaction) (t : Db)
    → interaction_of k s ≡ some x
    → run_of x.run_id s ≡ some n
    → is_some_of x.idempotency_key (scoped n.namespace actor key) ≡ false
    → respond_codex_interaction digest scoped now k expected actor response key s ≡ (ok i, t)
    → Open now expected actor x
      × (i ≡ replied now response (digest response) actor (scoped n.namespace actor key) x)
      × (i.status ≡ InteractionStatus.replied)
      × (i.version ≡ x.version + 1)
      × (i.response ≡ some response)
      × (i.response_digest ≡ some (digest response))
      × (i.idempotency_key ≡ some (scoped n.namespace actor key))
      × (i.actor ≡ some actor)
      × (interaction_of k t ≡ some i)
      × ((now' expected' : ℕ) (actor' : String) (response' key' : ℕ)
          → repeats digest scoped n.namespace i actor' response' key' ≡ true
          → respond_codex_interaction digest scoped now' k expected' actor' response' key' t
            ≡ (ok i, t))
      × ((now' expected' : ℕ) (actor' : String) (response' key' : ℕ)
          → repeats digest scoped n.namespace i actor' response' key' ≡ false
          → (e : Error) × (respond_codex_interaction digest scoped now' k expected' actor' response'
                key' t
              ≡ (err e, t)))
unfolding respond_codex_interaction
respond_codex_interaction-once digest scoped now k expected actor response key s x n i t found run
      fresh e =
    let taken =
      answers (respond_tx digest scoped now k expected actor response key) s i t (ap (λ p. p.0) e)
        (ap (λ p. p.1) e) in
    let (was_open, same, here, runs) =
      reply_now-ok now x k expected actor response (digest response) (scoped n.namespace actor key)
        s i t found
        (sym (goes_on digest scoped now k expected actor response key s x n found run fresh)
          ∙ taken) in
    let run' : run_of i.run_id t ≡ some n =
      ap (λ r. select (λ (z : Run). z.id == i.run_id) r) runs
      ∙ subst (λ y. run_of y.run_id s ≡ some n) (sym same) run in
    let closed : InteractionStatus.is_pending i.status ≡ false =
      ap (λ y. InteractionStatus.is_pending y.status) same in
    (
      was_open,
      same,
      ap (λ y. y.status) same,
      ap (λ y. y.version) same,
      ap (λ y. y.response) same,
      ap (λ y. y.response_digest) same,
      ap (λ y. y.idempotency_key) same,
      ap (λ y. y.actor) same,
      here,
      (λ now' expected' actor' response' key' r.
          repeated digest scoped now' k expected' actor' response' key' t i n here run' closed r),
      λ now' expected' actor' response' key' r.
          turned_down digest scoped now' k expected' actor' response' key' t i n here run' closed r,
    )
