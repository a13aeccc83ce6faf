-- ===== src/Ledger/Observations/Monotone.antt =====
-- `record_external_observation`: what is known of an external execution only grows.
use multiverse.Base.{
  ℕ, ◌≤◌, ◌≡◌, subst, refl, true, false, Option, none, some, inl, inr, arith, found-update,
  same_found, Bool-cases,
}
use multiverse.Ledger.Schema.{Attempt, Observation, ObservedStatus}
use multiverse.Ledger.Tx.Monad.{ok, gets, pure}
use multiverse.Ledger.Tx.Inversion.{bind-ok, check-ok, found-ok, some-ok, read-ok, then-ok, else-ok}
use multiverse.Ledger.Tx.Database.{Db, update_attempts}
use multiverse.Ledger.Queries.{attempt_of, joined_attempt_of, get_attempt, attempt_of_joined}
use multiverse.Ledger.Observations.{
  Document, parse, record_external_observation, is_terminal, same_status, is_behind, is_at,
  progress_problem,
}

-- What a later observation may say after an earlier one: a terminal status stays, and a final
-- execution stays final.
abbrev pub Follows : Option Observation → Option Observation → Type 0
Follows none q = Unit
Follows (some p) none = ⊥
Follows (some p) (some q) =
    (is_terminal p.status ≡ true → same_status p.status q.status ≡ true)
    × (p.execution_final ≡ true → q.execution_final ≡ true)

-- The revision does not go back.
abbrev pub NotBehind : Option ℕ → Option ℕ → Type 0
NotBehind none n = Unit
NotBehind (some m) none = ⊥
NotBehind (some m) (some n) = m ≤ n

same_status_refl : (x : ObservedStatus) → same_status x x ≡ true
same_status_refl x = ground arith

Follows-refl : (o : Option Observation) → Follows o o
Follows-refl none = tt
Follows-refl (some p) = (λ h. same_status_refl p.status, λ h. h)

NotBehind-refl : (o : Option ℕ) → NotBehind o o
NotBehind-refl none = tt
NotBehind-refl (some n) = omega arith

progress :
    (p : Option Observation) (o : Observation) → progress_problem p o ≡ none → Follows p (some o)
progress none o h = tt
progress (some p) o h = (λ t. ground arith, λ t. ground arith)

ahead : (m : Option ℕ) (n : ℕ) → is_behind m n ≡ false → NotBehind m (some n)
ahead none n h = tt
ahead (some m) n h = ground arith

-- The attempt after an observation, against its row before.
abbrev pub Progresses : ℕ → Attempt → Option Attempt × Db → Type 0
Progresses k row r =
    (a : Attempt) × (attempt_of k r.1 ≡ some a)
    × NotBehind row.observation_revision a.observation_revision
    × Follows row.observation a.observation
    × (a.status ≡ row.status)
    × (a.version ≡ row.version)

-- The row of a new observation.
abbrev observed : ℕ → Observation → Attempt → Attempt
observed now o a = record a {
  observation_revision = some o.revision;
  observation = some o;
  updated_at = now;
}

parse-reads : (d : Document) (s : Db) (r : Observation × Db) → parse d s ≡ ok r → r.1 ≡ s
unfolding parse pure
parse-reads d s r e =
    let (_, f1) = check-ok _ _ _ s r e in
    let (_, _, f2) = some-ok _ _ _ s r f1 in
    let (_, _, f3) = some-ok _ _ _ s r f2 in
    let (_, _, f4) = some-ok _ _ _ s r f3 in
    let (_, _, f5) = some-ok _ _ _ s r f4 in
    let (_, _, f6) = some-ok _ _ _ s r f5 in
    let (_, _, f7) = some-ok _ _ _ s r f6 in
    let (_, f8) = check-ok _ _ _ s r f7 in ground (arith, f8)

-- An observation that is accepted leaves the attempt's revision not lower, keeps a terminal status
-- and the finality of the execution, and does not change the attempt's own status or version.
pub record_external_observation-Follows :
    (now k : ℕ) (d : Document) (s : Db) (row : Attempt) (r : Option Attempt × Db)
    → joined_attempt_of k s ≡ some row
    → record_external_observation now k d s ≡ ok r
    → Progresses k row r
unfolding record_external_observation update_attempts get_attempt gets pure
record_external_observation-Follows now k d s row r there e =
    let (o, s1, e1, f1) = bind-ok _ _ s r e in
    let same_db : s1 ≡ s = parse-reads d s (o, s1) e1 in
    let (row', there', f2) = read-ok _ _ _ s1 r f1 in
    let same : row' ≡ row =
      same_found (joined_attempt_of k s) row' row
        (subst (λ t. joined_attempt_of k t ≡ some row') same_db there') there in
    let here : attempt_of k s1 ≡ some row' = attempt_of_joined k s1 row' there' in
    let (_, f3) = check-ok _ _ _ s1 r f2 in
    let (not_behind, f4) = check-ok _ _ _ s1 r f3 in
    let result : Progresses k row' r =
      elim (Bool-cases (is_at row'.observation_revision o.revision)) [
        | inl at ↦
            let (_, f5) = check-ok _ _ _ s1 r (then-ok _ _ _ s1 r at f4) in
            (
              row',
              ground (arith, here, f5),
              NotBehind-refl row'.observation_revision,
              Follows-refl row'.observation,
              refl,
              refl,
            )
        | inr new ↦
            let (fine, f5) = found-ok _ _ s1 r (else-ok _ _ _ s1 r new f4) in
            let (_, f6) = check-ok _ _ _ s1 r f5 in
            let (_, s2, e2, f7) = bind-ok _ _ s1 r f6 in
            (
              observed now o row',
              found-update (λ (x : Attempt). x.id) k (observed now o) (λ x. refl) s1.attempts
                  r.1.attempts row' (ground (arith, e2, f7)) here,
              ahead row'.observation_revision o.revision not_behind,
              progress row'.observation o fine,
              refl,
              refl,
            )
      ] in
    subst (λ x. Progresses k x r) same result
