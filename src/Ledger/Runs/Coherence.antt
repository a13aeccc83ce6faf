-- ===== src/Ledger/Runs/Coherence.antt =====
-- `update_run`: the continuation that it stores fits the run.
use multiverse.Base.{
  ℕ, ◌+◌, ◌≡◌, ◌∙◌, ap, sym, subst, refl, true, false, not, ◌&&◌, Option, none, some, inl, inr,
  arith, ◌==◌, opt_eq, is_none, select, select-key, select-update, update_where, updated,
  Option-cases,
}
use multiverse.Ledger.Schema.{Run, Scope, Invocation, EventPayload}
use multiverse.Ledger.Tx.Monad.{gets, ok}
use multiverse.Ledger.Tx.Inversion.{bind-ok, check-ok, problem-ok, read-ok}
use multiverse.Ledger.Tx.Database.{Db, update_runs, event}
use multiverse.Ledger.Queries.{run_of, scope_of, invocation_of, get_run}
use multiverse.Ledger.Runs.{
  RunUpdate, mode_or, or_kept, update_run, next_scope, next_invocation, checked_scope,
  checked_invocation,
}

-- The continuation of a run: its scope and its invocation are rows of the run, the invocation lies
-- in that scope, at the run's node, and there is no invocation without a scope.
pub record IsCoherent (s : Db) (r : Run) : Type 0 where
  pub scope_first : is_none r.current_scope_id ≡ true → is_none r.current_invocation_id ≡ true
  pub own_scope :
      (k : ℕ)
      → r.current_scope_id ≡ some k
      → (c : Scope) × (scope_of k s ≡ some c) × ((c.run_id == r.id) ≡ true)
  pub own_invocation :
      (k : ℕ)
      → r.current_invocation_id ≡ some k
      → (i : Invocation) × (invocation_of k s ≡ some i)
        × ((i.run_id == r.id) ≡ true)
        × (opt_eq (some i.scope_id) r.current_scope_id ≡ true)
        × (opt_eq (some i.node_id) r.current_node_id ≡ true)

scope_checked :
    (run k : ℕ) (s : Db) (o : Option ℕ)
    → checked_scope run o s ≡ none
    → o ≡ some k
    → (c : Scope) × (scope_of k s ≡ some c) × ((c.run_id == run) ≡ true)
scope_checked run k s none h e = absurd (ground arith)
scope_checked run k s (some j) h e = elim (Option-cases (scope_of k s)) [
  | inl gone ↦ absurd (ground arith)
  | inr (c, there) ↦ (c, there, ground arith)
]

invocation_checked :
    (run k : ℕ) (scope node : Option ℕ) (s : Db) (o : Option ℕ)
    → checked_invocation run scope node o s ≡ none
    → o ≡ some k
    → (i : Invocation) × (invocation_of k s ≡ some i)
      × ((i.run_id == run) ≡ true)
      × (opt_eq (some i.scope_id) scope ≡ true)
      × (opt_eq (some i.node_id) node ≡ true)
invocation_checked run k scope at_node s none h e = absurd (ground arith)
invocation_checked run k scope at_node s (some j) h e = elim (Option-cases (invocation_of k s)) [
  | inl gone ↦ absurd (ground arith)
  | inr (i, there) ↦ (i, there, ground arith, ground arith, ground arith)
]

-- The row that an update writes.
abbrev updated_row : ℕ → RunUpdate → Run → Run → Run
updated_row now u row r = record r {
  status = u.status;
  control_mode = mode_or u.control_mode row.control_mode;
  current_node_id = u.node_id;
  current_scope_id = next_scope u row;
  current_invocation_id = next_invocation u row;
  output = u.output;
  error = u.error;
  next_attempt_at = or_kept u.next_attempt_at row.next_attempt_at;
  version = row.version + 1;
  updated_at = now;
}

-- The statements at the end of an update.
written :
    (now k : ℕ) (u : RunUpdate) (row : Run) (s s1 s2 : Db) (r : Option Run × Db) (n : ℕ)
    (payload : EventPayload)
    → update_runs (λ x. x.id == k) (updated_row now u row) s ≡ ok (n, s1)
    → event now k payload none none none s1 ≡ ok (tt, s2)
    → get_run k s2 ≡ ok r
    → (r.1.runs ≡ update_where (λ y. y.id == k) (updated_row now u row) s.runs)
      × (r.1.scopes ≡ s.scopes)
      × (r.1.invocations ≡ s.invocations)
      × (r.0 ≡ run_of k r.1)
unfolding update_runs event get_run gets
written now k u row s s1 s2 r n payload a b c = ground arith

-- What a successful update has checked, and what it has done to the tables.
update_run-ok :
    (now k : ℕ) (u : RunUpdate) (s : Db) (row : Run) (r : Option Run × Db)
    → run_of k s ≡ some row
    → update_run now k u s ≡ ok r
    → (is_none (next_scope u row) && not (is_none (next_invocation u row)) ≡ false)
      × (checked_scope k (next_scope u row) s ≡ none)
      × (checked_invocation k (next_scope u row) u.node_id (next_invocation u row) s ≡ none)
      × (r.1.runs ≡ update_where (λ x. x.id == k) (updated_row now u row) s.runs)
      × (r.1.scopes ≡ s.scopes)
      × (r.1.invocations ≡ s.invocations)
      × (r.0 ≡ run_of k r.1)
unfolding update_run
update_run-ok now k u s row r there e =
    let (row', there', f1) = read-ok _ _ _ s r e in
    let same : row' ≡ row = ground (arith, there', there) in
    let (scoped, f2) = check-ok _ _ _ s r f1 in
    let (scope_fits, f3) = problem-ok _ _ s r f2 in
    let (invocation_fits, f4) = problem-ok _ _ s r f3 in
    let (_, s1, e1, f5) = bind-ok _ _ s r f4 in
    let (_, s2, e2, f6) = bind-ok _ _ s1 r f5 in
    subst
      (λ (x : Run).
        (is_none (next_scope u x) && not (is_none (next_invocation u x)) ≡ false)
        × (checked_scope k (next_scope u x) s ≡ none)
        × (checked_invocation k (next_scope u x) u.node_id (next_invocation u x) s ≡ none)
        × (r.1.runs ≡ update_where (λ y. y.id == k) (updated_row now u x) s.runs)
        × (r.1.scopes ≡ s.scopes)
        × (r.1.invocations ≡ s.invocations)
        × (r.0 ≡ run_of k r.1))
      same
      (let (runs, scopes, invocations, answer) = written now k u row' s s1 s2 r _ _ e1 e2 f6 in
        (scoped, scope_fits, invocation_fits, runs, scopes, invocations, answer))

-- An update that succeeds answers the run with its version one higher and a coherent continuation,
-- whatever the continuation was before.
pub update_run-IsCoherent :
    (now k : ℕ) (u : RunUpdate) (s : Db) (row : Run) (r : Option Run × Db)
    → run_of k s ≡ some row
    → update_run now k u s ≡ ok r
    → (row' : Run) × (r.0 ≡ some row')
      × (run_of k r.1 ≡ some row')
      × (row'.version ≡ row.version + 1)
      × IsCoherent r.1 row'
update_run-IsCoherent now k u s row r there e =
    let (scoped, scope_fits, invocation_fits, runs, scopes, invocations, answer) =
      update_run-ok now k u s row r there e in
    let key = λ (x : Run). x.id in
    let change = updated_row now u row in
    let fits : row.id ≡ k = select-key key k s.runs row there in
    let here : run_of k r.1 ≡ some (change row) =
      ap (select (λ x. x.id == k)) runs
      ∙ select-update key k (λ x. x.id == k) change (λ x. refl) s.runs
      ∙ ap (updated (λ x. x.id == k) change) there
      ∙ ground (arith, fits) in
    (
      change row,
      answer ∙ here,
      here,
      refl,
      record {
        scope_first = λ h. ground arith;
        own_scope = λ j h.
            subst (λ n. (c : Scope) × (scope_of j r.1 ≡ some c) × ((c.run_id == n) ≡ true))
              (sym fits)
              (subst
                (λ t.
                  (c : Scope) × (select (λ (x : Scope). x.id == j) t ≡ some c)
                  × ((c.run_id == k) ≡ true))
                (sym scopes) (scope_checked k j s (next_scope u row) scope_fits h));
        own_invocation = λ j h.
            subst
              (λ n.
                (i : Invocation) × (invocation_of j r.1 ≡ some i)
                × ((i.run_id == n) ≡ true)
                × (opt_eq (some i.scope_id) (next_scope u row) ≡ true)
                × (opt_eq (some i.node_id) u.node_id ≡ true))
              (sym fits)
              (subst
                (λ t.
                  (i : Invocation) × (select (λ (x : Invocation). x.id == j) t ≡ some i)
                  × ((i.run_id == k) ≡ true)
                  × (opt_eq (some i.scope_id) (next_scope u row) ≡ true)
                  × (opt_eq (some i.node_id) u.node_id ≡ true))
                (sym invocations)
                (invocation_checked k j (next_scope u row) u.node_id s (next_invocation u row)
                  invocation_fits h));
      },
    )
