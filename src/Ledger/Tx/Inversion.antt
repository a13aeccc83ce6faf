-- ===== src/Ledger/Tx/Inversion.antt =====
-- What a transaction that has succeeded says of its parts.
use multiverse.Base.{◌≡◌, refl, true, false, Bool, Option, none, some, arith}
use multiverse.Ledger.Tx.Monad.{
  TxOn, Result, Error, ok, err, pure, raise_if, raise_found, or_raise, gets, branch, ◌>>=◌,
}

module _ {S A B : Type 0} where
  -- A sequence has succeeded because both of its parts have.
  pub bind-ok :
      (m : TxOn S A) (f : A → TxOn S B) (s : S) (r : B × S)
      → (m >>= f) s ≡ ok r
      → (a : A) × (t : S) × (m s ≡ ok (a, t)) × (f a t ≡ ok r)
  unfolding ◌>>=◌
  bind-ok m f s r e = at (m s) refl
    where
      at : (o : Result (A × S)) → m s ≡ o → (a : A) × (t : S) × (m s ≡ ok (a, t)) × (f a t ≡ ok r)
      at (ok (a, t)) h = (a, t, h, ground arith)
      at (err x) h = absurd (ground arith)

  pub some-ok :
      (x : Error) (o : Option A) (f : A → TxOn S B) (s : S) (r : B × S)
      → (or_raise x o >>= f) s ≡ ok r
      → (a : A) × (o ≡ some a) × (f a s ≡ ok r)
  unfolding or_raise ◌>>=◌
  some-ok x none f s r e = absurd (ground arith)
  some-ok x (some a) f s r e = (a, refl, e)

module _ {S B : Type 0} where
  -- A check that was passed has not fired.
  pub check-ok :
      (b : Bool) (x : Error) (f : Unit {0} → TxOn S B) (s : S) (r : B × S)
      → (raise_if b x >>= f) s ≡ ok r
      → (b ≡ false) × (f tt s ≡ ok r)
  unfolding raise_if ◌>>=◌
  check-ok true x f s r e = absurd (ground arith)
  check-ok false x f s r e = (refl, e)

  pub found-ok :
      (x : Option Error) (f : Unit {0} → TxOn S B) (s : S) (r : B × S)
      → (raise_found x >>= f) s ≡ ok r
      → (x ≡ none) × (f tt s ≡ ok r)
  unfolding raise_found ◌>>=◌
  found-ok none f s r e = (refl, e)
  found-ok (some x) f s r e = absurd (ground arith)

module _ {S B : Type 0} where
  -- A check on what was read.
  pub problem-ok :
      (g : S → Option Error) (f : Unit {0} → TxOn S B) (s : S) (r : B × S)
      → (gets g >>= λ o. raise_found o >>= f) s ≡ ok r
      → (g s ≡ none) × (f tt s ≡ ok r)
  unfolding gets ◌>>=◌
  problem-ok g f s r e = found-ok (g s) f s r e

module _ {S A B : Type 0} where
  -- A row that was required is there.
  pub read-ok :
      (g : S → Option A) (x : Error) (f : A → TxOn S B) (s : S) (r : B × S)
      → (gets g >>= λ o. or_raise x o >>= f) s ≡ ok r
      → (a : A) × (g s ≡ some a) × (f a s ≡ ok r)
  unfolding gets ◌>>=◌
  read-ok g x f s r e = some-ok x (g s) f s r e

module _ {S B : Type 0} where
  pub then-ok :
      (b : Bool) (m n : TxOn S B) (s : S) (r : B × S)
      → b ≡ true
      → branch b m n s ≡ ok r
      → m s ≡ ok r
  unfolding branch
  then-ok true m n s r h e = e
  then-ok false m n s r h e = absurd (ground arith)

  pub else-ok :
      (b : Bool) (m n : TxOn S B) (s : S) (r : B × S)
      → b ≡ false
      → branch b m n s ≡ ok r
      → n s ≡ ok r
  unfolding branch
  else-ok true m n s r h e = absurd (ground arith)
  else-ok false m n s r h e = e

module _ {S A B : Type 0} where
  -- A read goes on in the same state.
  pub gets-ok :
      (g : S → A) (f : A → TxOn S B) (s : S) (r : B × S)
      → (gets g >>= f) s ≡ ok r
      → f (g s) s ≡ ok r
  unfolding gets ◌>>=◌
  gets-ok g f s r e = e

-- `pure` stays in its state.
pub pure-ok : {S A : Type 0} (a : A) (s : S) (r : A × S) → pure a s ≡ ok r → s ≡ r.1
unfolding pure
pure-ok a s r e = ground arith

pub pure-value : {S A : Type 0} (a : A) (s : S) (r : A × S) → pure a s ≡ ok r → a ≡ r.0
unfolding pure
pure-value a s r e = ground arith

-- A row that was required at the end is the answer.
pub required-ok :
    {S A : Type 0} (x : Error) (o : Option A) (a : A) (s : S) (r : A × S)
    → o ≡ some a
    → or_raise x o s ≡ ok r
    → (a, s) ≡ r
unfolding or_raise pure
required-ok x none a s r there e = absurd (cc there)
required-ok x (some b) a s r there e = ground (arith, there, e)
