-- ===== src/Ledger/Evolution/Rules/Inserts.antt =====
-- The rules for the inserts and for `_event`: they go on only where no clause of the table is violated.
use multiverse.Base.{
  ℕ, ◌≡◌, refl, Bool, true, false, ◌&&◌, ◌||◌, Option, [], ◌∷◌, ◌++◌, arith, ◌==◌, Grows-append,
  Distinct-append, exists-false_or, exists-or_false, All-append, exists_where, if◌then◌else◌,
}
use multiverse.Ledger.Schema.{
  Run, Scope, Invocation, Attempt, Outbox, Wait, Command, Event, EventPayload, key_eq,
  command_operation_eq,
}
use multiverse.Ledger.Tx.Monad.{ok, err, Error, ◌>>=◌}
use multiverse.Ledger.Tx.Database.{
  Db, Tx, insert_run, insert_scope, insert_invocation, insert_attempt, insert_outbox, insert_wait,
  insert_command, event,
}
use multiverse.Ledger.Tx.Numbering.{Numbered-max_seq}
use multiverse.Ledger.Tx.WaitKeys.{at_key, DistinctKeys-append}
use multiverse.Ledger.Evolution.{
  RunMoves, ScopeMoves, InvocationMoves, AttemptMoves, OutboxMoves, WaitMoves, CommandMoves,
  Evolves, IsValid, IsOwnedWait, Keeps,
}
use multiverse.Ledger.Evolution.Rules.WorkTables.{
  runs-kept, scopes-kept, invocations-kept, attempts-kept,
}
use multiverse.Ledger.Evolution.Rules.DeliveryTables.{
  outbox-kept, waits-kept, commands-kept, events-kept,
}
use multiverse.Ledger.Evolution.Rules.Steps.{
  RunMoves-refl, ScopeMoves-refl, InvocationMoves-refl, AttemptMoves-refl, OutboxMoves-refl,
  WaitMoves-refl, CommandMoves-refl, Keeps-then,
}

module _ {A : Type 0} (s : Db) where
  insert_step :
      (m : Tx (Unit {0})) (f : Unit {0} → Tx A) (allowed : Bool) (t : Db)
      → m s ≡ (if allowed then ok (tt, t) else err Error.integrity)
      → (allowed ≡ true → IsValid s → IsValid t × Evolves s t)
      → (allowed ≡ true → Keeps (f tt) t)
      → Keeps (m >>= f) s
  unfolding ◌>>=◌
  insert_step m f true t e h k = Keeps-then s m f tt t e (h refl) (k refl)
  insert_step m f false t e h k = record { at = λ v a u r. absurd (ground arith) }

  pub Keeps-insert_run :
      (x : Run) (g : Unit {0} → Tx A)
      → (exists_where (λ r. r.id == x.id) s.runs ≡ false
          → Keeps (g tt) (record s { runs = s.runs ++ x ∷ [] }))
      → Keeps (insert_run x >>= g) s
  unfolding insert_run
  Keeps-insert_run x g k =
      insert_step (insert_run x) g _ _ refl
        (λ allowed v.
          runs-kept s _ v (Distinct-append (λ (r : Run). r.id) s.runs x v.run_ids (ground arith))
            (Grows-append RunMoves RunMoves-refl s.runs (x ∷ [])))
        (λ allowed. k (ground arith))

  pub Keeps-insert_scope :
      (x : Scope) (g : Unit {0} → Tx A)
      → Keeps (g tt) (record s { scopes = s.scopes ++ x ∷ [] })
      → Keeps (insert_scope x >>= g) s
  unfolding insert_scope
  Keeps-insert_scope x g k =
      insert_step (insert_scope x) g _ _ refl
        (λ allowed v.
          scopes-kept s _ v
            (Distinct-append (λ (r : Scope). r.id) s.scopes x v.scope_ids (ground arith))
            (Grows-append ScopeMoves ScopeMoves-refl s.scopes (x ∷ [])))
        (λ _. k)

  pub Keeps-insert_invocation :
      (x : Invocation) (g : Unit {0} → Tx A)
      → Keeps (g tt) (record s { invocations = s.invocations ++ x ∷ [] })
      → Keeps (insert_invocation x >>= g) s
  unfolding insert_invocation
  Keeps-insert_invocation x g k =
      insert_step (insert_invocation x) g _ _ refl
        (λ allowed v.
          invocations-kept s _ v
            (Distinct-append (λ (r : Invocation). r.id) s.invocations x v.invocation_ids
              (exists-false_or (λ (o : Invocation). o.id == x.id)
                (λ o. o.scope_id == x.scope_id && o.node_id == x.node_id) s.invocations
                (ground arith)))
            (Grows-append InvocationMoves InvocationMoves-refl s.invocations (x ∷ [])))
        (λ _. k)

  pub Keeps-insert_attempt :
      (x : Attempt) (g : Unit {0} → Tx A)
      → Keeps (g tt) (record s { attempts = s.attempts ++ x ∷ [] })
      → Keeps (insert_attempt x >>= g) s
  unfolding insert_attempt
  Keeps-insert_attempt x g k =
      insert_step (insert_attempt x) g _ _ refl
        (λ allowed v.
          attempts-kept s _ v
            (Distinct-append (λ (r : Attempt). r.id) s.attempts x v.attempt_ids
              (exists-false_or (λ (o : Attempt). o.id == x.id)
                (λ o.
                  o.dispatch_key == x.dispatch_key
                  || o.invocation_id == x.invocation_id && o.attempt_no == x.attempt_no)
                s.attempts (ground arith)))
            (Grows-append AttemptMoves AttemptMoves-refl s.attempts (x ∷ [])))
        (λ _. k)

  pub Keeps-insert_outbox :
      (x : Outbox) (g : Unit {0} → Tx A)
      → Keeps (g tt) (record s { outbox = s.outbox ++ x ∷ [] })
      → Keeps (insert_outbox x >>= g) s
  unfolding insert_outbox
  Keeps-insert_outbox x g k =
      insert_step (insert_outbox x) g _ _ refl
        (λ allowed v.
          outbox-kept s _ v
            (Distinct-append (λ (r : Outbox). r.id) s.outbox x v.outbox_ids
              (exists-false_or (λ (o : Outbox). o.id == x.id) (λ o. o.attempt_id == x.attempt_id)
                s.outbox (ground arith)))
            (Grows-append OutboxMoves OutboxMoves-refl s.outbox (x ∷ [])))
        (λ _. k)

  pub Keeps-insert_wait :
      (x : Wait) (g : Unit {0} → Tx A)
      → IsOwnedWait x
      → Keeps (g tt) (record s { waits = s.waits ++ x ∷ [] })
      → Keeps (insert_wait x >>= g) s
  unfolding insert_wait
  Keeps-insert_wait x g o k =
      insert_step (insert_wait x) g _ _ refl
        (λ allowed v.
          waits-kept s _ v
            (Distinct-append (λ (r : Wait). r.id) s.waits x v.wait_ids
              (exists-false_or (λ (o : Wait). o.id == x.id)
                (λ o. o.namespace == x.namespace && key_eq o.wait_key x.wait_key) s.waits
                (ground arith)))
            (DistinctKeys-append s.waits x v.wait_keys (
              exists-or_false (λ (o : Wait). o.id == x.id) (at_key x.namespace x.wait_key) s.waits
                (ground arith)))
            (All-append IsOwnedWait s.waits (x ∷ []) v.owned (o, tt))
            (Grows-append WaitMoves WaitMoves-refl s.waits (x ∷ [])))
        (λ _. k)

  pub Keeps-insert_command :
      (x : Command) (g : Unit {0} → Tx A)
      → Keeps (g tt) (record s { commands = s.commands ++ x ∷ [] })
      → Keeps (insert_command x >>= g) s
  unfolding insert_command
  Keeps-insert_command x g k =
      insert_step (insert_command x) g _ _ refl
        (λ allowed v.
          commands-kept s _ v
            (Distinct-append (λ (r : Command). r.id) s.commands x v.command_ids
              (exists-false_or (λ (o : Command). o.id == x.id)
                (λ o.
                  o.namespace == x.namespace
                  && o.subject == x.subject
                  && command_operation_eq o.operation x.operation
                  && o.idempotency_key == x.idempotency_key)
                s.commands (ground arith)))
            (Grows-append CommandMoves CommandMoves-refl s.commands (x ∷ [])))
        (λ _. k)

  pub Keeps-event :
      (now run : ℕ) (payload : EventPayload) (scope invocation attempt : Option ℕ)
      (g : Unit {0} → Tx A)
      → ((e : Event) → Keeps (g tt) (record s { events = s.events ++ e ∷ [] }))
      → Keeps (event now run payload scope invocation attempt >>= g) s
  unfolding event
  Keeps-event now run payload scope invocation attempt g k =
      insert_step (event now run payload scope invocation attempt) g _ _ refl
        (λ allowed v.
          events-kept s _ v (λ i. Numbered-max_seq i s.events _ (v.numbered i) refl)
            (Grows-append (λ (e e' : Event). e' ≡ e) (λ e. refl) s.events _))
        (λ _. k _)
