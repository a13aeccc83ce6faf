-- ===== src/Ledger/Events/Streaming.antt =====
-- A client that follows a run by its cursor: it misses no event and sees none twice.
use multiverse.Base.{
  take, ℕ, ◌+◌, ◌<◌, ◌≤◌, ◌≡◌, ◌∙◌, ap, subst, refl, Bool, true, false, List, [], ◌∷◌, ◌++◌, inl,
  inr, arith, ◌==◌, All, Grows, select_all, Bool-cases,
}
use multiverse.Ledger.Schema.{Event}
use multiverse.Ledger.Tx.Monad.{ok, gets, ◌>>=◌}
use multiverse.Ledger.Tx.Database.{Db, max_seq}
use multiverse.Ledger.Tx.Numbering.{Numbered, last_seq, max_seq-Numbered}
use multiverse.Ledger.Evolution.{Evolves, IsValid}
use multiverse.Ledger.Events.{
  insert_by_seq, order_by_seq, is_of_run, is_after, list_events, list_events_after,
  get_event_cursor,
}

of_run_after : (k a : ℕ) (e : Event) → is_after k a e ≡ true → (e.run_id == k) ≡ true
of_run_after k a e h = ground arith

insert_first :
    (e : Event) (l : List Event) → All (λ (x : Event). e.seq < x.seq) l → insert_by_seq e l ≡ e ∷ l
insert_first e [] h = refl
insert_first e (x ∷ l) h = ground (arith, h.0)

module _ (k : ℕ) (p : Event → Bool)
    (of_run : (e : Event) → p e ≡ true → (e.run_id == k) ≡ true) where
  -- What is numbered from `n` on lies above `m`.
  above :
      (m n : ℕ) (t : List Event)
      → Numbered k n t
      → m ≤ n
      → All (λ (e : Event). m < e.seq) (select_all p t)
  above m n [] h le = tt
  above m n (e ∷ t) h le = elim (Bool-cases (e.run_id == k)) [
    | inl mine ↦ elim (Bool-cases (p e)) [
      | inl fits ↦ rw fits (ground arith, above m (n + 1) t (ground arith) (omega (arith, le)))
      | inr not_fits ↦ rw not_fits (above m (n + 1) t (ground arith) (omega (arith, le)))
    ]
    | inr other ↦
        let not_fits : p e ≡ false = ground (arith, of_run e) in
        rw not_fits (above m n t (ground arith) le)
  ]

  -- The rows of a run are in order as they stand in the table.
  order-Numbered :
      (n : ℕ) (t : List Event) → Numbered k n t → order_by_seq (select_all p t) ≡ select_all p t
  order-Numbered n [] h = refl
  order-Numbered n (e ∷ t) h = elim (Bool-cases (e.run_id == k)) [
    | inl mine ↦ elim (Bool-cases (p e)) [
      | inl fits ↦
          let numbered : Numbered k (n + 1) t = ground arith in
          let rest = order-Numbered (n + 1) t numbered in
          rw fits (
            ap (insert_by_seq e) rest
            ∙ insert_first e (select_all p t) (above e.seq (n + 1) t numbered (ground arith)))
      | inr not_fits ↦ rw not_fits (order-Numbered (n + 1) t (ground arith))
    ]
    | inr other ↦
        let not_fits : p e ≡ false = ground (arith, of_run e) in
        rw not_fits (order-Numbered n t (ground arith))
  ]

grown : (t u : List Event) → Grows (λ (e e' : Event). e' ≡ e) t u → (v : List Event) × (u ≡ t ++ v)
grown [] u g = (u, refl)
grown (x ∷ t) [] g = absurd g
grown (x ∷ t) (y ∷ u) g = let (v, e) = grown t u g.1 in (v, ground (arith, g.0, e))

select_all-append :
    (p : Event → Bool) (t u : List Event) → select_all p (t ++ u) ≡ select_all p t ++ select_all p u
select_all-append p [] u = refl
select_all-append p (x ∷ t) u = ground (arith, select_all-append p t u)

-- No event of the run has a number above the cursor.
none_after : (k n : ℕ) (t : List Event) → max_seq k t ≤ n → select_all (is_after k n) t ≡ []
unfolding max_seq
none_after k n [] h = refl
none_after k n (e ∷ t) h = elim (Bool-cases (e.run_id == k)) [
  | inl mine ↦ ground (arith, none_after k n t)
  | inr other ↦ ground (arith, none_after k n t)
]

Numbered-rest : (k n : ℕ) (t u : List Event) → Numbered k n (t ++ u) → Numbered k (last_seq k n t) u
Numbered-rest k n [] u h = h
Numbered-rest k n (e ∷ t) u h = elim (Bool-cases (e.run_id == k)) [
  | inl mine ↦ ground (arith, Numbered-rest k (n + 1) t u)
  | inr other ↦ ground (arith, Numbered-rest k n t u)
]

Numbered-first : (k n : ℕ) (t u : List Event) → Numbered k n (t ++ u) → Numbered k n t
Numbered-first k n [] u h = tt
Numbered-first k n (e ∷ t) u h = elim (Bool-cases (e.run_id == k)) [
  | inl mine ↦ ground (arith, Numbered-first k (n + 1) t u)
  | inr other ↦ ground (arith, Numbered-first k n t u)
]

-- All the events of the run that come later are above what was used.
all_after :
    (k n m : ℕ) (u : List Event)
    → Numbered k m u
    → n ≤ m
    → select_all (is_after k n) u ≡ select_all (is_of_run k) u
all_after k n m [] h le = refl
all_after k n m (e ∷ u) h le = elim (Bool-cases (e.run_id == k)) [
  | inl mine ↦ ground (arith, all_after k n (m + 1) u)
  | inr other ↦ ground (arith, all_after k n m u)
]

answers :
    (k cursor limit : ℕ) (s : Db)
    → 1 ≤ limit
    → list_events_after k cursor limit s
      ≡ ok (take limit (order_by_seq (select_all (is_after k cursor) s.events)), s)
unfolding list_events_after ◌>>=◌
answers k cursor limit s positive = ground arith

-- A client that asks with its cursor gets exactly what is new: whatever transactions lead from
-- where the cursor was read to a valid ledger, the list of the run's events is the list it was
-- with the new events behind it, and asking for those after the cursor gives the new ones, up to
-- the limit, which is positive.
pub list_events_after-new :
    (k limit : ℕ) (s s' : Db)
    → IsValid s'
    → Evolves s s'
    → 1 ≤ limit
    → (old new : List Event) × (cursor : ℕ) × (get_event_cursor k s ≡ ok (cursor, s))
      × (list_events k s ≡ ok (old, s))
      × (list_events k s' ≡ ok (old ++ new, s'))
      × (list_events_after k cursor limit s' ≡ ok (take limit new, s'))
unfolding get_event_cursor list_events gets
list_events_after-new k limit s s' v evolves positive =
    let (u, grown_by) = grown s.events s'.events evolves.events in
    let numbered : Numbered k 0 (s.events ++ u) =
      subst (λ t. Numbered k 0 t) grown_by (v.numbered k) in
    let first = Numbered-first k 0 s.events u numbered in
    let top = max_seq-Numbered k 0 s.events first in
    let used : last_seq k 0 s.events ≡ max_seq k s.events = omega (arith, top) in
    let rest : Numbered k (max_seq k s.events) u =
      subst (λ n. Numbered k n u) used (Numbered-rest k 0 s.events u numbered) in
    let mine = λ (e : Event) (h : is_of_run k e ≡ true). h in
    let late = λ (e : Event) (h : is_after k (max_seq k s.events) e ≡ true).
      of_run_after k (max_seq k s.events) e h in
    let before = order-Numbered k (is_of_run k) mine 0 s.events first in
    let after =
      order-Numbered k (is_of_run k) mine 0 s'.events (v.numbered k)
      ∙ ap (select_all (is_of_run k)) grown_by
      ∙ select_all-append (is_of_run k) s.events u in
    let asked =
      order-Numbered k (is_after k (max_seq k s.events)) late 0 s'.events (v.numbered k)
      ∙ ap (select_all (is_after k (max_seq k s.events))) grown_by
      ∙ select_all-append (is_after k (max_seq k s.events)) s.events u
      ∙ ap (λ l. l ++ select_all (is_after k (max_seq k s.events)) u)
          (none_after k (max_seq k s.events) s.events (omega arith))
      ∙ all_after k (max_seq k s.events) (max_seq k s.events) u rest (omega arith) in
    (
      select_all (is_of_run k) s.events,
      select_all (is_of_run k) u,
      max_seq k s.events,
      refl,
      ap (λ (l : List Event). ok (l, s)) before,
      ap (λ (l : List Event). ok (l, s')) after,
      answers k (max_seq k s.events) limit s' positive
          ∙ ap (λ (l : List Event). ok (take limit l, s')) asked,
    )
