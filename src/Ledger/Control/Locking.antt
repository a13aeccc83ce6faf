-- ===== src/Ledger/Control/Locking.antt =====
-- `control_run`: the version that it locks on.
use multiverse.Base.{
  ℕ, String, ◌≡◌, Bool, false, Option, some, inl, inr, arith, Grows-select, Option-cases,
}
use multiverse.Ledger.Schema.{Run, Command, Operation}
use multiverse.Ledger.Tx.Monad.{ok, ◌>>=◌}
use multiverse.Ledger.Tx.Database.{Db}
use multiverse.Ledger.Evolution.{Evolves, RunMoves}
use multiverse.Ledger.Queries.{run_of}
use multiverse.Ledger.Control.{
  control_run, apply_control, finish_control, given_applied, command_given,
}

-- A call that is not the repetition of an applied command has found the run at the version that
-- it names, and goes on to its operation.
pub version_found :
    (now new k : ℕ) (operation : Operation) (expected : ℕ) (reason : String) (command : Option ℕ)
    (enqueue : Bool) (s : Db) (given : Option Command) (r : Option Run × Db)
    → command_given command s ≡ some given
    → given_applied given k operation expected ≡ false
    → control_run now new k operation expected reason command enqueue s ≡ ok r
    → (run : Run) × (run_of k s ≡ some run)
      × (run.version ≡ expected)
      × (apply_control now run k operation reason
            (finish_control now new run k operation expected reason command enqueue)
            s
          ≡ ok r)
unfolding control_run ◌>>=◌
version_found now new k operation expected reason command enqueue s given r c fresh e =
    elim (Option-cases (run_of k s)) [
      | inl gone ↦ absurd (ground (arith, gone, c, fresh, e))
      | inr (run, there) ↦ (run, there, ground arith, ground arith)
    ]

-- The version is a lock: a client that has read a run, and controls it with the version it has
-- read after any transactions of others, and not by the repetition of an applied command, succeeds
-- only if the run still has the status and the control mode that the client has seen.
pub control_run-locked :
    (now new k : ℕ) (operation : Operation) (reason : String) (command : Option ℕ) (enqueue : Bool)
    (s s' : Db) (seen : Run) (given : Option Command) (r : Option Run × Db)
    → run_of k s ≡ some seen
    → Evolves s s'
    → command_given command s' ≡ some given
    → given_applied given k operation seen.version ≡ false
    → control_run now new k operation seen.version reason command enqueue s' ≡ ok r
    → (run : Run) × (run_of k s' ≡ some run)
      × (run.status ≡ seen.status)
      × (run.control_mode ≡ seen.control_mode)
control_run-locked now new k operation reason command enqueue s s' seen given r there evolves c
      fresh e =
    let (run, found, version, _) =
      version_found now new k operation seen.version reason command enqueue s' given r c fresh e in
    let (now_run, now_found, moved) =
      Grows-select RunMoves (λ (x : Run). x.id) (λ x y m. m.same_id) k s.runs s'.runs seen
        evolves.runs there in
    let same : now_run ≡ run = cc in
    let pinned = moved.pinned (ground arith) in (run, found, ground arith, ground arith)
