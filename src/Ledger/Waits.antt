-- ===== src/Ledger/Waits.antt =====
-- runtime/ledger.py, the durable waits: `create_wait` to `requeue_stale_waits`, and the scoped
-- claim of runtime/wait_store.py. `now` is what `_now()` reads, `new` a fresh id; the number that a
-- method of the ledger compares times with is its own argument `now`.
pub mod Evolution
pub mod Ownership
pub mod Owner
pub mod Leases
pub mod Due
pub mod Schedule
pub mod Ensure
pub mod Ensured
pub mod Listing
pub mod Listed
use multiverse.Base.{
  ℕ, String, str_eq, Bool, ◌&&◌, ◌||◌, Option, none, some, ◌==◌, leb, is_blank, is_none, not,
  select, if◌then◌else◌,
}
use multiverse.Ledger.Status.WaitStatus
use multiverse.Ledger.Status.WaitStatus.{WaitStatus}
use multiverse.Ledger.Schema.{Run, Wait, WaitKey, WaitKind, Payload, key_eq}
use multiverse.Ledger.Tx.Monad.{
  Error, Entity, Conflict, pure, raise, gets, or_raise, raise_if, branch, ◌>>=◌, ◌>>◌,
}
use multiverse.Ledger.Tx.Database.{Db, Tx, update_waits, insert_wait}
use multiverse.Ledger.Tx.WaitKeys.{at_key}

-- SELECT * FROM waits WHERE id = ?
abbrev pub wait_of : ℕ → Db → Option Wait
wait_of k s = select (λ (w : Wait). w.id == k) s.waits

-- SELECT * FROM waits WHERE id = ? AND namespace = ?
abbrev pub wait_in : ℕ → ℕ → Db → Option Wait
wait_in k ns s = select (λ (w : Wait). w.id == k && w.namespace == ns) s.waits

unfoldable pub get_wait : ℕ → Tx (Option Wait)
get_wait k = gets (wait_of k)

-- SELECT * FROM waits WHERE namespace = ? AND wait_key = ?
abbrev pub wait_at : ℕ → WaitKey → Db → Option Wait
wait_at ns key s = select (at_key ns key) s.waits

unfoldable pub get_wait_by_key : ℕ → WaitKey → Tx (Option Wait)
get_wait_by_key ns key = gets (wait_at ns key)

abbrev pub wait_key_blank : WaitKey → Bool
wait_key_blank (WaitKey.given t) = is_blank t
wait_key_blank _ = Bool.false

abbrev pub wait_kind_blank : WaitKind → Bool
wait_kind_blank (WaitKind.given t) = is_blank t
wait_kind_blank _ = Bool.false

-- A new row of waits: pending, with no owner.
abbrev pub new_wait : ℕ → ℕ → ℕ → WaitKey → WaitKind → ℕ → Option ℕ → Option ℕ → ℕ → Payload → Wait
new_wait now new ns key kind run scope invocation not_before payload = record {
  id = new;
  namespace = ns;
  wait_key = key;
  kind = kind;
  run_id = run;
  scope_id = scope;
  invocation_id = invocation;
  not_before = not_before;
  payload = payload;
  status = WaitStatus.pending;
  worker_id = none;
  claimed_at = none;
  created_at = now;
  updated_at = now;
}

unfoldable pub create_wait :
    ℕ → ℕ → ℕ → WaitKey → WaitKind → ℕ → ℕ → Payload → Option ℕ → Option ℕ → Tx (Option Wait)
unfolding get_wait
create_wait now new ns key kind run not_before payload scope invocation = do
  raise_if (wait_key_blank key || wait_kind_blank kind) (Error.conflict Conflict.wait_key_required)
  found ← gets (λ s. select (λ (r : Run). r.id == run) s.runs)
  or_raise (Error.not_found Entity.run run) found
  insert_wait (new_wait now new ns key kind run scope invocation not_before payload)
  get_wait new

unfoldable pub update_wait : ℕ → ℕ → ℕ → Tx (Option Wait)
unfolding get_wait
update_wait now k not_before = do
  n ← update_waits (λ w. w.id == k) (λ w. record w { not_before = not_before; updated_at = now })
  raise_if (not (n == 1)) (Error.not_found Entity.wait k)
  get_wait k

unfoldable pub claim_wait : ℕ → String → ℕ → Tx (Option Wait)
unfolding get_wait
claim_wait k worker now = do
  raise_if (is_blank worker) (Error.conflict Conflict.worker_required)
  n ←
      update_waits (λ w. w.id == k && WaitStatus.is_pending w.status && leb w.not_before now)
        (λ w. record w {
          status = WaitStatus.claimed;
          worker_id = some worker;
          claimed_at = some now;
          updated_at = now;
        })
  branch (n == 1) (get_wait k) (pure none)

unfoldable pub complete_wait : ℕ → ℕ → Tx (Option Wait)
unfolding get_wait
complete_wait now k = do
  found ← gets (wait_of k)
  w ← or_raise (Error.not_found Entity.wait k) found
  branch (WaitStatus.is_closed w.status) (pure (some w)) do
    raise_if (not (WaitStatus.is_claimed w.status))
        (Error.conflict (Conflict.wait_not_claimed w.status))
    update_waits (λ v. v.id == k)
        (λ v. record v { status = WaitStatus.completed; updated_at = now })
    get_wait k

-- `SET status = 'pending', worker_id = NULL, claimed_at = NULL, updated_at = ?`
abbrev pub released : ℕ → Wait → Wait
released now w = record w {
  status = WaitStatus.pending;
  worker_id = none;
  claimed_at = none;
  updated_at = now;
}

-- The same, with `not_before = ?`.
abbrev pub rescheduled : ℕ → ℕ → Wait → Wait
rescheduled now not_before w = record w {
  status = WaitStatus.pending;
  worker_id = none;
  claimed_at = none;
  not_before = not_before;
  updated_at = now;
}

unfoldable pub release_wait : ℕ → ℕ → Tx (Option Wait)
unfolding get_wait
release_wait now k = do
  n ← update_waits (λ w. w.id == k && WaitStatus.is_claimed w.status) (released now)
  found ← gets (wait_of k)
  raise_if (not (n == 1) && is_none found) (Error.not_found Entity.wait k)
  get_wait k

unfoldable pub reschedule_wait : ℕ → ℕ → ℕ → Tx (Option Wait)
unfolding get_wait
reschedule_wait now k not_before = do
  n ← update_waits (λ w. w.id == k && WaitStatus.is_claimed w.status) (rescheduled now not_before)
  branch (n == 1) (get_wait k) do
    found ← gets (wait_of k)
    w ← or_raise (Error.not_found Entity.wait k) found
    raise_if (not (WaitStatus.is_pending w.status))
        (Error.conflict (Conflict.cannot_reschedule w.status))
    get_wait k

-- `worker_id = ?`, for a column that may be NULL.
abbrev pub owned_by : String → Option String → Bool
owned_by worker none = Bool.false
owned_by worker (some w) = str_eq w worker

-- The rows that the update of an owner's method fits.
abbrev pub is_own : ℕ → ℕ → String → Wait → Bool
is_own k ns worker w =
    w.id == k && w.namespace == ns && WaitStatus.is_claimed w.status && owned_by worker w.worker_id

unfoldable pub complete_wait_owned : ℕ → ℕ → ℕ → String → Tx (Option Wait)
unfolding get_wait
complete_wait_owned now k ns worker = do
  found ← gets (wait_in k ns)
  w ← or_raise (Error.not_found Entity.wait k) found
  branch (WaitStatus.is_closed w.status) (pure (some w)) do
    raise_if (not (WaitStatus.is_claimed w.status))
        (Error.conflict (Conflict.wait_not_claimed w.status))
    n ←
        update_waits (is_own k ns worker)
          (λ v. record v { status = WaitStatus.completed; updated_at = now })
    raise_if (not (n == 1)) (Error.conflict Conflict.wait_of_other_worker)
    get_wait k

unfoldable pub release_wait_owned : ℕ → ℕ → ℕ → String → Tx (Option Wait)
unfolding get_wait
release_wait_owned now k ns worker = do
  found ← gets (wait_in k ns)
  w ← or_raise (Error.not_found Entity.wait k) found
  branch (not (WaitStatus.is_claimed w.status)) (pure (some w)) do
    n ← update_waits (is_own k ns worker) (released now)
    raise_if (not (n == 1)) (Error.conflict Conflict.wait_of_other_worker)
    get_wait k

unfoldable pub reschedule_wait_owned : ℕ → ℕ → ℕ → String → ℕ → Tx (Option Wait)
unfolding get_wait
reschedule_wait_owned now k ns worker not_before = do
  found ← gets (wait_in k ns)
  w ← or_raise (Error.not_found Entity.wait k) found
  raise_if (not (WaitStatus.is_claimed w.status))
      (Error.conflict (Conflict.cannot_reschedule w.status))
  n ← update_waits (is_own k ns worker) (rescheduled now not_before)
  raise_if (not (n == 1)) (Error.conflict Conflict.wait_of_other_worker)
  get_wait k

-- `namespace IS NULL OR namespace = ?` of the optional filter.
abbrev pub in_scope : Option ℕ → ℕ → Bool
in_scope none ns = Bool.true
in_scope (some m) ns = ns == m

-- `claimed_at IS NOT NULL AND claimed_at <= ?`
abbrev pub claimed_by_time : ℕ → Option ℕ → Bool
claimed_by_time t none = Bool.false
claimed_by_time t (some c) = leb c t

abbrev pub is_stale : ℕ → Option ℕ → Wait → Bool
is_stale older_than ns w =
    WaitStatus.is_claimed w.status
    && claimed_by_time older_than w.claimed_at
    && in_scope ns w.namespace

unfoldable pub requeue_stale_waits : ℕ → ℕ → Option ℕ → Tx ℕ
requeue_stale_waits now older_than ns = do
  n ← update_waits (is_stale older_than ns) (released now)
  pure n

-- `LedgerWaitStore.claim_wait`
unfoldable pub claim_wait_scoped : ℕ → ℕ → String → ℕ → Tx (Option Wait)
unfolding claim_wait
claim_wait_scoped ns k worker now = do
  found ← gets (wait_of k)
  branch (elim found [ none ↦ Bool.false | some w ↦ w.namespace == ns ]) (claim_wait k worker now)
      (pure none)
