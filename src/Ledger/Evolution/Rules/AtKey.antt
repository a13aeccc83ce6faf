-- ===== src/Ledger/Evolution/Rules/AtKey.antt =====
-- The rules for the statements: an update asks that the rows which it fits move as promised, an
-- insert asks for what the new row must satisfy.
use multiverse.Base.{
  ℕ, ◌≡◌, refl, Bool, some, ◌==◌, Grows-update_key, select-own_key, Distinct-update, All-update,
  select, count_where, update_where,
}
use multiverse.Ledger.Schema.{Run, Scope, Invocation, Attempt, Outbox, Wait, Command, WaitKey}
use multiverse.Ledger.Tx.Monad.{◌>>=◌}
use multiverse.Ledger.Tx.Database.{
  Db, Tx, update_runs, update_scopes, update_invocations, update_attempts, update_outbox,
  update_waits, update_commands,
}
use multiverse.Ledger.Tx.WaitKeys.{at_key, DistinctKeys-update, Grows-update_wait_key}
use multiverse.Ledger.Evolution.{
  RunMoves, ScopeMoves, InvocationMoves, AttemptMoves, OutboxMoves, WaitMoves, CommandMoves,
  IsOwnedWait, Keeps,
}
use multiverse.Ledger.Evolution.Rules.WorkTables.{
  runs-kept, scopes-kept, invocations-kept, attempts-kept,
}
use multiverse.Ledger.Evolution.Rules.DeliveryTables.{outbox-kept, waits-kept, commands-kept}
use multiverse.Ledger.Evolution.Rules.Steps.{
  RunMoves-refl, ScopeMoves-refl, InvocationMoves-refl, AttemptMoves-refl, OutboxMoves-refl,
  WaitMoves-refl, CommandMoves-refl, Keeps-then,
}

-- An update at a primary key, of the row that the method has read before.
module _ {A : Type 0} (s : Db) where
  pub Keeps-update_run_row :
      (i : ℕ) (x : Run) (f : Run → Run) (g : ℕ → Tx A)
      → select (λ (r : Run). r.id == i) s.runs ≡ some x
      → ((r : Run) → (f r).id ≡ r.id)
      → RunMoves x (f x)
      → Keeps
          (g (count_where (λ r. r.id == i) s.runs))
          (record s { runs = update_where (λ r. r.id == i) f s.runs })
      → Keeps (update_runs (λ r. r.id == i) f >>= g) s
  unfolding update_runs
  Keeps-update_run_row i x f g found same h k =
      Keeps-then s (update_runs (λ r. r.id == i) f) g _ _ refl
        (λ v.
          runs-kept s _ v
            (Distinct-update (λ (r : Run). r.id) (λ r. r.id == i) f (λ r _. same r) s.runs
              v.run_ids)
            (Grows-update_key (λ (r : Run). r.id) RunMoves RunMoves-refl i f s.runs x v.run_ids
              found h))
        k

  pub Keeps-update_scope_row :
      (i : ℕ) (x : Scope) (f : Scope → Scope) (g : ℕ → Tx A)
      → select (λ (r : Scope). r.id == i) s.scopes ≡ some x
      → ((r : Scope) → (f r).id ≡ r.id)
      → ScopeMoves x (f x)
      → Keeps
          (g (count_where (λ r. r.id == i) s.scopes))
          (record s { scopes = update_where (λ r. r.id == i) f s.scopes })
      → Keeps (update_scopes (λ r. r.id == i) f >>= g) s
  unfolding update_scopes
  Keeps-update_scope_row i x f g found same h k =
      Keeps-then s (update_scopes (λ r. r.id == i) f) g _ _ refl
        (λ v.
          scopes-kept s _ v
            (Distinct-update (λ (r : Scope). r.id) (λ r. r.id == i) f (λ r _. same r) s.scopes
              v.scope_ids)
            (Grows-update_key (λ (r : Scope). r.id) ScopeMoves ScopeMoves-refl i f s.scopes x
              v.scope_ids found h))
        k

  pub Keeps-update_invocation_row :
      (i : ℕ) (x : Invocation) (f : Invocation → Invocation) (g : ℕ → Tx A)
      → select (λ (r : Invocation). r.id == i) s.invocations ≡ some x
      → ((r : Invocation) → (f r).id ≡ r.id)
      → InvocationMoves x (f x)
      → Keeps
          (g (count_where (λ r. r.id == i) s.invocations))
          (record s { invocations = update_where (λ r. r.id == i) f s.invocations })
      → Keeps (update_invocations (λ r. r.id == i) f >>= g) s
  unfolding update_invocations
  Keeps-update_invocation_row i x f g found same h k =
      Keeps-then s (update_invocations (λ r. r.id == i) f) g _ _ refl
        (λ v.
          invocations-kept s _ v
            (Distinct-update (λ (r : Invocation). r.id) (λ r. r.id == i) f (λ r _. same r)
              s.invocations v.invocation_ids)
            (Grows-update_key (λ (r : Invocation). r.id) InvocationMoves InvocationMoves-refl i f
              s.invocations x v.invocation_ids found h))
        k

  pub Keeps-update_attempt_row :
      (i : ℕ) (x : Attempt) (f : Attempt → Attempt) (g : ℕ → Tx A)
      → select (λ (r : Attempt). r.id == i) s.attempts ≡ some x
      → ((r : Attempt) → (f r).id ≡ r.id)
      → AttemptMoves x (f x)
      → Keeps
          (g (count_where (λ r. r.id == i) s.attempts))
          (record s { attempts = update_where (λ r. r.id == i) f s.attempts })
      → Keeps (update_attempts (λ r. r.id == i) f >>= g) s
  unfolding update_attempts
  Keeps-update_attempt_row i x f g found same h k =
      Keeps-then s (update_attempts (λ r. r.id == i) f) g _ _ refl
        (λ v.
          attempts-kept s _ v
            (Distinct-update (λ (r : Attempt). r.id) (λ r. r.id == i) f (λ r _. same r) s.attempts
              v.attempt_ids)
            (Grows-update_key (λ (r : Attempt). r.id) AttemptMoves AttemptMoves-refl i f s.attempts
              x v.attempt_ids found h))
        k

  pub Keeps-update_outbox_row :
      (i : ℕ) (x : Outbox) (f : Outbox → Outbox) (g : ℕ → Tx A)
      → select (λ (r : Outbox). r.id == i) s.outbox ≡ some x
      → ((r : Outbox) → (f r).id ≡ r.id)
      → OutboxMoves x (f x)
      → Keeps
          (g (count_where (λ r. r.id == i) s.outbox))
          (record s { outbox = update_where (λ r. r.id == i) f s.outbox })
      → Keeps (update_outbox (λ r. r.id == i) f >>= g) s
  unfolding update_outbox
  Keeps-update_outbox_row i x f g found same h k =
      Keeps-then s (update_outbox (λ r. r.id == i) f) g _ _ refl
        (λ v.
          outbox-kept s _ v
            (Distinct-update (λ (r : Outbox). r.id) (λ r. r.id == i) f (λ r _. same r) s.outbox
              v.outbox_ids)
            (Grows-update_key (λ (r : Outbox). r.id) OutboxMoves OutboxMoves-refl i f s.outbox x
              v.outbox_ids found h))
        k

  pub Keeps-update_command_row :
      (i : ℕ) (x : Command) (f : Command → Command) (g : ℕ → Tx A)
      → select (λ (r : Command). r.id == i) s.commands ≡ some x
      → ((r : Command) → (f r).id ≡ r.id)
      → CommandMoves x (f x)
      → Keeps
          (g (count_where (λ r. r.id == i) s.commands))
          (record s { commands = update_where (λ r. r.id == i) f s.commands })
      → Keeps (update_commands (λ r. r.id == i) f >>= g) s
  unfolding update_commands
  Keeps-update_command_row i x f g found same h k =
      Keeps-then s (update_commands (λ r. r.id == i) f) g _ _ refl
        (λ v.
          commands-kept s _ v
            (Distinct-update (λ (r : Command). r.id) (λ r. r.id == i) f (λ r _. same r) s.commands
              v.command_ids)
            (Grows-update_key (λ (r : Command). r.id) CommandMoves CommandMoves-refl i f s.commands
              x v.command_ids found h))
        k

  pub Keeps-update_wait_row :
      (ns : ℕ) (key : WaitKey) (x : Wait) (f : Wait → Wait) (g : ℕ → Tx A)
      → select (at_key ns key) s.waits ≡ some x
      → ((w : Wait)
          → ((f w).id ≡ w.id) × ((f w).namespace ≡ w.namespace) × ((f w).wait_key ≡ w.wait_key))
      → ((w : Wait) → IsOwnedWait (f w))
      → WaitMoves x (f x)
      → Keeps
          (g (count_where (at_key ns key) s.waits))
          (record s { waits = update_where (at_key ns key) f s.waits })
      → Keeps (update_waits (at_key ns key) f >>= g) s
  unfolding update_waits
  Keeps-update_wait_row ns key x f g found same o h k =
      Keeps-then s (update_waits (at_key ns key) f) g _ _ refl
        (λ v.
          waits-kept s _ v
            (Distinct-update (λ (w : Wait). w.id) (at_key ns key) f (λ w _. (same w).0) s.waits
              v.wait_ids)
            (DistinctKeys-update (at_key ns key) f (λ w _. ((same w).1, (same w).2)) s.waits
              v.wait_keys)
            (All-update IsOwnedWait (at_key ns key) f (λ w _ _. o w) s.waits v.owned)
            (Grows-update_wait_key WaitMoves WaitMoves-refl ns key f s.waits x v.wait_keys found h))
        k

  -- A wait that was read, changed at its id.
  pub Keeps-update_wait_id :
      (p : Wait → Bool) (x : Wait) (f : Wait → Wait) (g : ℕ → Tx A)
      → select p s.waits ≡ some x
      → ((w : Wait)
          → ((f w).id ≡ w.id) × ((f w).namespace ≡ w.namespace) × ((f w).wait_key ≡ w.wait_key))
      → ((w : Wait) → IsOwnedWait (f w))
      → WaitMoves x (f x)
      → Keeps
          (g (count_where (λ w. w.id == x.id) s.waits))
          (record s { waits = update_where (λ w. w.id == x.id) f s.waits })
      → Keeps (update_waits (λ w. w.id == x.id) f >>= g) s
  unfolding update_waits
  Keeps-update_wait_id p x f g found same o h k =
      Keeps-then s (update_waits (λ w. w.id == x.id) f) g _ _ refl
        (λ v.
          waits-kept s _ v
            (Distinct-update (λ (w : Wait). w.id) (λ w. w.id == x.id) f (λ w _. (same w).0) s.waits
              v.wait_ids)
            (DistinctKeys-update (λ w. w.id == x.id) f (λ w _. ((same w).1, (same w).2)) s.waits
              v.wait_keys)
            (All-update IsOwnedWait (λ w. w.id == x.id) f (λ w _ _. o w) s.waits v.owned)
            (Grows-update_key (λ (w : Wait). w.id) WaitMoves WaitMoves-refl x.id f s.waits x
              v.wait_ids (select-own_key (λ (w : Wait). w.id) p s.waits x v.wait_ids found) h))
        k
