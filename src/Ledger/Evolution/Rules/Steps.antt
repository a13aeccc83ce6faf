-- ===== src/Ledger/Evolution/Rules/Steps.antt =====
-- The rules for tests, errors and sequencing, and that the promises add up.
use multiverse.Base.{
  ◌≡◌, refl, subst, ◌∙◌, Bool, true, false, Option, none, some, arith, Grows-refl, Grows-trans,
}
use multiverse.Ledger.Schema.{Run, Scope, Invocation, Attempt, Outbox, Wait, Command, Event}
use multiverse.Ledger.Tx.Monad.{
  Result, ok, err, Error, pure, raise, gets, or_raise, raise_if, raise_found, branch, ◌>>=◌,
}
use multiverse.Ledger.Tx.Database.{Db, Tx}
use multiverse.Ledger.Dialogue.{DialogueEvolves-refl, DialogueEvolves-trans}
use multiverse.Ledger.Evolution.{
  RunMoves, ScopeMoves, InvocationMoves, AttemptMoves, OutboxMoves, WaitMoves, CommandMoves,
  Evolves, IsValid, Keeps,
}

pub RunMoves-refl : (r : Run) → RunMoves r r
RunMoves-refl r = ground arith

pub ScopeMoves-refl : (r : Scope) → ScopeMoves r r
ScopeMoves-refl r = ground arith

pub InvocationMoves-refl : (r : Invocation) → InvocationMoves r r
InvocationMoves-refl r = ground arith

pub AttemptMoves-refl : (r : Attempt) → AttemptMoves r r
AttemptMoves-refl r = ground arith

pub OutboxMoves-refl : (r : Outbox) → OutboxMoves r r
OutboxMoves-refl r = ground arith

pub WaitMoves-refl : (r : Wait) → WaitMoves r r
WaitMoves-refl r = ground arith

pub CommandMoves-refl : (r : Command) → CommandMoves r r
CommandMoves-refl r = ground arith

RunMoves-trans : (r s t : Run) → RunMoves r s → RunMoves s t → RunMoves r t
RunMoves-trans r s t a b = ground arith

ScopeMoves-trans : (r s t : Scope) → ScopeMoves r s → ScopeMoves s t → ScopeMoves r t
ScopeMoves-trans r s t a b = ground arith

InvocationMoves-trans :
    (r s t : Invocation) → InvocationMoves r s → InvocationMoves s t → InvocationMoves r t
InvocationMoves-trans r s t a b = ground arith

AttemptMoves-trans : (r s t : Attempt) → AttemptMoves r s → AttemptMoves s t → AttemptMoves r t
AttemptMoves-trans r s t a b = ground arith

OutboxMoves-trans : (r s t : Outbox) → OutboxMoves r s → OutboxMoves s t → OutboxMoves r t
OutboxMoves-trans r s t a b = ground arith

WaitMoves-trans : (r s t : Wait) → WaitMoves r s → WaitMoves s t → WaitMoves r t
WaitMoves-trans r s t a b = ground arith

CommandMoves-trans : (r s t : Command) → CommandMoves r s → CommandMoves s t → CommandMoves r t
CommandMoves-trans r s t a b = ground arith

EventMoves-trans : (e f g : Event) → f ≡ e → g ≡ f → g ≡ e
EventMoves-trans e f g p q = q ∙ p

pub Evolves-refl : (s : Db) → Evolves s s
Evolves-refl s = record {
  runs = Grows-refl RunMoves RunMoves-refl s.runs;
  scopes = Grows-refl ScopeMoves ScopeMoves-refl s.scopes;
  invocations = Grows-refl InvocationMoves InvocationMoves-refl s.invocations;
  attempts = Grows-refl AttemptMoves AttemptMoves-refl s.attempts;
  outbox = Grows-refl OutboxMoves OutboxMoves-refl s.outbox;
  waits = Grows-refl WaitMoves WaitMoves-refl s.waits;
  commands = Grows-refl CommandMoves CommandMoves-refl s.commands;
  dialogue = DialogueEvolves-refl s.dialogue;
  events = Grows-refl (λ (e e' : Event). e' ≡ e) (λ e. refl) s.events;
}

pub Evolves-trans : (s t u : Db) → Evolves s t → Evolves t u → Evolves s u
Evolves-trans s t u a b = record {
  runs = Grows-trans RunMoves RunMoves-trans s.runs t.runs u.runs a.runs b.runs;
  scopes = Grows-trans ScopeMoves ScopeMoves-trans s.scopes t.scopes u.scopes a.scopes b.scopes;
  invocations =
      Grows-trans InvocationMoves InvocationMoves-trans s.invocations t.invocations u.invocations
        a.invocations b.invocations;
  attempts =
      Grows-trans AttemptMoves AttemptMoves-trans s.attempts t.attempts u.attempts a.attempts
        b.attempts;
  outbox = Grows-trans OutboxMoves OutboxMoves-trans s.outbox t.outbox u.outbox a.outbox b.outbox;
  waits = Grows-trans WaitMoves WaitMoves-trans s.waits t.waits u.waits a.waits b.waits;
  commands =
      Grows-trans CommandMoves CommandMoves-trans s.commands t.commands u.commands a.commands
        b.commands;
  dialogue = DialogueEvolves-trans s.dialogue t.dialogue u.dialogue a.dialogue b.dialogue;
  events =
      Grows-trans (λ (e e' : Event). e' ≡ e) EventMoves-trans s.events t.events u.events a.events
        b.events;
}

module _ {A : Type 0} (s : Db) where
  pub Keeps-pure : (a : A) → Keeps (pure a) s
  unfolding pure
  Keeps-pure a = record {
    at = λ v b t e.
        let same : s ≡ t = ground arith in
        (subst IsValid same v, subst (Evolves s) same (Evolves-refl s));
  }

  -- A read at the end of a method.
  pub Keeps-gets : (f : Db → A) → Keeps (gets f) s
  unfolding gets
  Keeps-gets f = record {
    at = λ v b t e.
        let same : s ≡ t = ground arith in
        (subst IsValid same v, subst (Evolves s) same (Evolves-refl s));
  }

  pub Keeps-raise : (x : Error) → Keeps {A = A} (raise x) s
  unfolding raise
  Keeps-raise x = record { at = λ v b t e. absurd (ground arith) }

  pub Keeps-branch :
      (b : Bool) (m n : Tx A)
      → (b ≡ true → Keeps m s)
      → (b ≡ false → Keeps n s)
      → Keeps (branch b m n) s
  unfolding branch
  Keeps-branch true m n p q = record { at = (p refl).at }
  Keeps-branch false m n p q = record { at = (q refl).at }

  -- `if b: raise x`, and what follows.
  pub Keeps-raise_if :
      (b : Bool) (x : Error) (m : Tx A)
      → (b ≡ false → Keeps m s)
      → Keeps (raise_if b x >>= λ _. m) s
  unfolding ◌>>=◌
  Keeps-raise_if true x m h = record { at = λ v b t e. absurd (ground arith) }
  Keeps-raise_if false x m h = record { at = (h refl).at }

  -- `raise x` where a check has found the error `x`.
  pub Keeps-raise_found :
      (o : Option Error) (m : Tx A) → (o ≡ none → Keeps m s) → Keeps (raise_found o >>= λ _. m) s
  unfolding ◌>>=◌
  Keeps-raise_found none m h = record { at = (h refl).at }
  Keeps-raise_found (some x) m h = record { at = λ v b t e. absurd (ground arith) }

-- A check at the end of a method.
pub Keeps-check : (s : Db) (b : Bool) (x : Error) → Keeps (raise_if b x) s
unfolding raise_if
Keeps-check s true x = record { at = (Keeps-raise s x).at }
Keeps-check s false x = record { at = (Keeps-pure s tt).at }

module _ {A B : Type 0} (s : Db) where
  -- `if row is None: raise x`, and what follows.
  pub Keeps-or_raise :
      (x : Error) (o : Option B) (f : B → Tx A)
      → ((b : B) → o ≡ some b → Keeps (f b) s)
      → Keeps (or_raise x o >>= f) s
  unfolding ◌>>=◌
  Keeps-or_raise x none f h = record { at = λ v b t e. absurd (ground arith) }
  Keeps-or_raise x (some b) f h = record { at = (h b refl).at }

  -- A statement that takes `s` to `t`.
  pub Keeps-then :
      (m : Tx B) (f : B → Tx A) (b : B) (t : Db)
      → m s ≡ ok (b, t)
      → (IsValid s → IsValid t × Evolves s t)
      → Keeps (f b) t
      → Keeps (m >>= f) s
  unfolding ◌>>=◌
  Keeps-then m f b t e h k = record {
    at = λ v a u r.
        let (vt, st) = h v in
        let (vu, tu) = k.at vt a u (rw (e, ◌>>=◌) at r) in (vu, Evolves-trans s t u st tu);
  }

  -- A call of another method.
  pub Keeps-bind :
      (m : Tx B) (f : B → Tx A)
      → Keeps m s
      → ((b : B) (t : Db) → m s ≡ ok (b, t) → Keeps (f b) t)
      → Keeps (m >>= f) s
  unfolding ◌>>=◌
  Keeps-bind m f h k = go (m s) refl
    where
      go : (r : Result (B × Db)) → m s ≡ r → Keeps (m >>= f) s
      go (ok (b, t)) e = Keeps-then m f b t e (λ v. h.at v b t e) (k b t e)
      go (err x) e = record { at = λ v a u r. absurd (ground arith) }

  -- A read, and what follows.
  pub Keeps-read : (r : Db → B) (f : B → Tx A) → Keeps (f (r s)) s → Keeps (gets r >>= f) s
  unfolding ◌>>=◌
  Keeps-read r f k = record { at = k.at }

-- The last statement of a method.
pub Keeps-last : {A : Type 0} (s : Db) (m : Tx A) → Keeps (m >>= pure) s → Keeps m s
unfolding ◌>>=◌
Keeps-last s m k = record { at = λ v a t e. k.at v a t (rw (e, ◌>>=◌)) }

-- A row that a method requires at its end.
pub Keeps-required : {A : Type 0} (s : Db) (x : Error) (o : Option A) → Keeps (or_raise x o) s
unfolding or_raise
Keeps-required s x none = record { at = (Keeps-raise s x).at }
Keeps-required s x (some a) = record { at = (Keeps-pure s a).at }
