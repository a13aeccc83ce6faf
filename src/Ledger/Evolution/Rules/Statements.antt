-- ===== src/Ledger/Evolution/Rules/Statements.antt =====
-- The rules for the statements: an update asks that the rows which it fits move as promised, an
-- insert asks for what the new row must satisfy.
use multiverse.Base.{
  ℕ, ◌≡◌, refl, Bool, true, Grows-update, Distinct-update, All-update, count_where, update_where,
}
use multiverse.Ledger.Schema.{Run, Scope, Invocation, Attempt, Outbox, Wait, Command}
use multiverse.Ledger.Tx.Monad.{◌>>=◌}
use multiverse.Ledger.Tx.Database.{
  Db, Tx, update_runs, update_scopes, update_invocations, update_attempts, update_outbox,
  update_waits, update_commands,
}
use multiverse.Ledger.Tx.WaitKeys.{DistinctKeys-update}
use multiverse.Ledger.Evolution.{
  RunMoves, ScopeMoves, InvocationMoves, AttemptMoves, OutboxMoves, WaitMoves, CommandMoves,
  IsOwnedWait, Keeps,
}
use multiverse.Ledger.Evolution.Rules.WorkTables.{
  runs-kept, scopes-kept, invocations-kept, attempts-kept,
}
use multiverse.Ledger.Evolution.Rules.DeliveryTables.{outbox-kept, waits-kept, commands-kept}
use multiverse.Ledger.Evolution.Rules.Steps.{
  RunMoves-refl, ScopeMoves-refl, InvocationMoves-refl, AttemptMoves-refl, OutboxMoves-refl,
  WaitMoves-refl, CommandMoves-refl, Keeps-then,
}

module _ {A : Type 0} (s : Db) where
  pub Keeps-update_runs :
      (p : Run → Bool) (f : Run → Run) (g : ℕ → Tx A)
      → ((r : Run) → p r ≡ true → RunMoves r (f r))
      → Keeps (g (count_where p s.runs)) (record s { runs = update_where p f s.runs })
      → Keeps (update_runs p f >>= g) s
  unfolding update_runs
  Keeps-update_runs p f g h k =
      Keeps-then s (update_runs p f) g _ _ refl
        (λ v.
          runs-kept s _ v
            (Distinct-update (λ (r : Run). r.id) p f (λ r e. (h r e).same_id) s.runs v.run_ids)
            (Grows-update RunMoves RunMoves-refl p f h s.runs))
        k

  pub Keeps-update_scopes :
      (p : Scope → Bool) (f : Scope → Scope) (g : ℕ → Tx A)
      → ((r : Scope) → p r ≡ true → ScopeMoves r (f r))
      → Keeps (g (count_where p s.scopes)) (record s { scopes = update_where p f s.scopes })
      → Keeps (update_scopes p f >>= g) s
  unfolding update_scopes
  Keeps-update_scopes p f g h k =
      Keeps-then s (update_scopes p f) g _ _ refl
        (λ v.
          scopes-kept s _ v
            (Distinct-update (λ (r : Scope). r.id) p f (λ r e. (h r e).same_id) s.scopes
              v.scope_ids)
            (Grows-update ScopeMoves ScopeMoves-refl p f h s.scopes))
        k

  pub Keeps-update_invocations :
      (p : Invocation → Bool) (f : Invocation → Invocation) (g : ℕ → Tx A)
      → ((r : Invocation) → p r ≡ true → InvocationMoves r (f r))
      → Keeps
          (g (count_where p s.invocations))
          (record s { invocations = update_where p f s.invocations })
      → Keeps (update_invocations p f >>= g) s
  unfolding update_invocations
  Keeps-update_invocations p f g h k =
      Keeps-then s (update_invocations p f) g _ _ refl
        (λ v.
          invocations-kept s _ v
            (Distinct-update (λ (r : Invocation). r.id) p f (λ r e. (h r e).same_id) s.invocations
              v.invocation_ids)
            (Grows-update InvocationMoves InvocationMoves-refl p f h s.invocations))
        k

  pub Keeps-update_attempts :
      (p : Attempt → Bool) (f : Attempt → Attempt) (g : ℕ → Tx A)
      → ((r : Attempt) → p r ≡ true → AttemptMoves r (f r))
      → Keeps (g (count_where p s.attempts)) (record s { attempts = update_where p f s.attempts })
      → Keeps (update_attempts p f >>= g) s
  unfolding update_attempts
  Keeps-update_attempts p f g h k =
      Keeps-then s (update_attempts p f) g _ _ refl
        (λ v.
          attempts-kept s _ v
            (Distinct-update (λ (r : Attempt). r.id) p f (λ r e. (h r e).same_id) s.attempts
              v.attempt_ids)
            (Grows-update AttemptMoves AttemptMoves-refl p f h s.attempts))
        k

  pub Keeps-update_outbox :
      (p : Outbox → Bool) (f : Outbox → Outbox) (g : ℕ → Tx A)
      → ((r : Outbox) → p r ≡ true → OutboxMoves r (f r))
      → Keeps (g (count_where p s.outbox)) (record s { outbox = update_where p f s.outbox })
      → Keeps (update_outbox p f >>= g) s
  unfolding update_outbox
  Keeps-update_outbox p f g h k =
      Keeps-then s (update_outbox p f) g _ _ refl
        (λ v.
          outbox-kept s _ v
            (Distinct-update (λ (r : Outbox). r.id) p f (λ r e. (h r e).same_id) s.outbox
              v.outbox_ids)
            (Grows-update OutboxMoves OutboxMoves-refl p f h s.outbox))
        k

  pub Keeps-update_waits :
      (p : Wait → Bool) (f : Wait → Wait) (g : ℕ → Tx A)
      → ((r : Wait) → p r ≡ true → WaitMoves r (f r))
      → ((r : Wait) → p r ≡ true → IsOwnedWait r → IsOwnedWait (f r))
      → Keeps (g (count_where p s.waits)) (record s { waits = update_where p f s.waits })
      → Keeps (update_waits p f >>= g) s
  unfolding update_waits
  Keeps-update_waits p f g h o k =
      Keeps-then s (update_waits p f) g _ _ refl
        (λ v.
          waits-kept s _ v
            (Distinct-update (λ (r : Wait). r.id) p f (λ r e. (h r e).same_id) s.waits v.wait_ids)
            (DistinctKeys-update p f (λ r e. ((h r e).same_namespace, (h r e).same_key)) s.waits
              v.wait_keys)
            (All-update IsOwnedWait p f o s.waits v.owned)
            (Grows-update WaitMoves WaitMoves-refl p f h s.waits))
        k

  pub Keeps-update_commands :
      (p : Command → Bool) (f : Command → Command) (g : ℕ → Tx A)
      → ((r : Command) → p r ≡ true → CommandMoves r (f r))
      → Keeps (g (count_where p s.commands)) (record s { commands = update_where p f s.commands })
      → Keeps (update_commands p f >>= g) s
  unfolding update_commands
  Keeps-update_commands p f g h k =
      Keeps-then s (update_commands p f) g _ _ refl
        (λ v.
          commands-kept s _ v
            (Distinct-update (λ (r : Command). r.id) p f (λ r e. (h r e).same_id) s.commands
              v.command_ids)
            (Grows-update CommandMoves CommandMoves-refl p f h s.commands))
        k
