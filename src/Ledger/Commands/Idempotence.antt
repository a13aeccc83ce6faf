-- ===== src/Ledger/Commands/Idempotence.antt =====
-- `finish_command`: the first outcome of a command is its last.
use multiverse.Base.{
  ℕ, ◌≡◌, ◌∙◌, ap, refl, Bool, true, false, ◌&&◌, Option, none, some, inl, inr, arith, ◌==◌, opt_eq,
  select-key, select-update, updated, if◌then◌else◌, Option-cases, Bool-cases,
}
use text.Mathlib.TextPositions.{eq_refl}
use multiverse.Ledger.Status.CommandStatus
use multiverse.Ledger.Status.CommandStatus.{CommandStatus}
use multiverse.Ledger.Schema.{Command, ErrorJson, error_eq, opt_error_eq}
use multiverse.Ledger.Tx.Monad.{Error, Conflict, ok, err, ◌>>=◌}
use multiverse.Ledger.Tx.Database.{Db, update_commands}
use multiverse.Ledger.Queries.{command_of, get_command}
use multiverse.Ledger.Commands.{finish_command}

error_eq_refl : (e : ErrorJson) → error_eq e e ≡ true
error_eq_refl (ErrorJson.given a) = ground arith
error_eq_refl (ErrorJson.run_cancelled t) = eq_refl t
error_eq_refl (ErrorJson.reconciled_failure t) = eq_refl t
error_eq_refl (ErrorJson.reconciled_cancelled t) = eq_refl t
error_eq_refl (ErrorJson.reconciled_not_started t) = eq_refl t

opt_error_eq_refl : (o : Option ErrorJson) → opt_error_eq o o ≡ true
opt_error_eq_refl none = refl
opt_error_eq_refl (some e) = error_eq_refl e

same_refl : (st : CommandStatus) → CommandStatus.same st st ≡ true
same_refl CommandStatus.accepted = refl
same_refl CommandStatus.completed = refl
same_refl CommandStatus.rejected = refl

opt_eq_refl : (o : Option ℕ) → opt_eq o o ≡ true
opt_eq_refl none = refl
opt_eq_refl (some n) = ground arith

-- The outcome that a command has is the one that a call asks for.
abbrev pub has_outcome : CommandStatus → Option ℕ → Option ErrorJson → Command → Bool
has_outcome status version error c =
    CommandStatus.same c.status status
    && opt_eq c.resource_version version
    && opt_error_eq c.error error

-- A call on a finished command answers it, or raises the conflict; it never writes.
finished :
    (now k : ℕ) (status : CommandStatus) (version : Option ℕ) (error : Option ErrorJson) (s : Db)
    (c : Command)
    → command_of k s ≡ some c
    → CommandStatus.is_accepted c.status ≡ false
    → CommandStatus.is_accepted status ≡ false
    → finish_command now k status version error s ≡ (
        if has_outcome status version error c
        then ok (some c, s)
        else err (Error.conflict Conflict.command_terminal))
unfolding finish_command ◌>>=◌
finished now k status version error s c there done proper = ground arith

-- What a call that has succeeded leaves: the command with the outcome asked for.
outcome :
    (now k : ℕ) (status : CommandStatus) (version : Option ℕ) (error : Option ErrorJson) (s : Db)
    (r : Option Command × Db)
    → finish_command now k status version error s ≡ ok r
    → (c : Command) × (command_of k r.1 ≡ some c)
      × (CommandStatus.is_accepted c.status ≡ false)
      × (has_outcome status version error c ≡ true)
unfolding finish_command update_commands get_command ◌>>=◌
outcome now k status version error s r e = elim (Option-cases (command_of k s)) [
  | inl gone ↦ absurd (ground arith)
  | inr (c, there) ↦
      let change = λ (x : Command). record x {
        status = status;
        resource_version = version;
        error = error;
        updated_at = now;
      } in
      let key = λ (x : Command). x.id in
      let fits = select-key key k s.commands c there in
      let here =
        select-update key k (λ x. x.id == k) change (λ x. refl) s.commands
        ∙ ap (updated (λ x. x.id == k) change) there in
      elim (Bool-cases (CommandStatus.is_accepted c.status)) [
        | inl fresh ↦ (
          change c,
          ground arith,
          ground arith,
          ground (arith, same_refl status, opt_eq_refl version, opt_error_eq_refl error),
        )
        | inr done ↦ (c, ground arith, done, ground arith)
      ]
]

-- The first outcome of a command is its last: after a call that has succeeded, a later call with
-- any proper status succeeds exactly if it asks for the outcome that is stored, and neither way
-- does it write; the same call again does succeed.
pub finish_command-final :
    (now k : ℕ) (status : CommandStatus) (version : Option ℕ) (error : Option ErrorJson) (s : Db)
    (r : Option Command × Db)
    → finish_command now k status version error s ≡ ok r
    → (c : Command) × (command_of k r.1 ≡ some c)
      × (has_outcome status version error c ≡ true)
      × ((now' : ℕ) (status' : CommandStatus) (version' : Option ℕ) (error' : Option ErrorJson)
          → CommandStatus.is_accepted status' ≡ false
          → finish_command now' k status' version' error' r.1 ≡ (
              if has_outcome status' version' error' c
              then ok (some c, r.1)
              else err (Error.conflict Conflict.command_terminal)))
finish_command-final now k status version error s r e =
    let (c, there, done, same) = outcome now k status version error s r e in
    (
      c,
      there,
      same,
      λ now' status' version' error' proper.
          finished now' k status' version' error' r.1 c there done proper,
    )
