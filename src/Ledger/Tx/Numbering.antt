-- ===== src/Ledger/Tx/Numbering.antt =====
-- The numbers that `_event` gives: those of each run are 1, 2, 3 and so on, in the table's order.
use multiverse.Base.{
  ap, ℕ, ◌+◌, max, ◌≡◌, true, false, List, [], ◌∷◌, ◌++◌, arith, ◌==◌, if◌then◌else◌, Bool-cases,
  inl, inr,
}
use multiverse.Ledger.Schema.{Event}
use multiverse.Ledger.Tx.Database.{max_seq}

-- The events of run `k` are numbered from `n + 1` on, without gaps.
abbrev pub Numbered : ℕ → ℕ → List Event → Type 0
Numbered k n [] = Unit
Numbered k n (e ∷ es) = elim (e.run_id == k) [
  | true ↦ (e.seq ≡ n + 1) × Numbered k (n + 1) es
  | false ↦ Numbered k n es
]

-- The number of the last event of run `k`, if those before have used `n`.
abbrev pub last_seq : ℕ → ℕ → List Event → ℕ
last_seq k n [] = n
last_seq k n (e ∷ es) = last_seq k (if e.run_id == k then n + 1 else n) es

pub max_seq-Numbered :
    (k n : ℕ) (es : List Event) → Numbered k n es → max n (max_seq k es) ≡ last_seq k n es
unfolding max_seq
max_seq-Numbered k n [] h = omega arith
max_seq-Numbered k n (e ∷ es) h = elim (Bool-cases (e.run_id == k)) [
  | inl mine ↦ ground (arith, max_seq-Numbered k (n + 1) es)
  | inr other ↦ ground (arith, max_seq-Numbered k n es)
]

Numbered-append :
    (k n : ℕ) (es : List Event) (e : Event)
    → Numbered k n es
    → (e.run_id ≡ k → e.seq ≡ last_seq k n es + 1)
    → Numbered k n (es ++ e ∷ [])
Numbered-append k n [] e h s = ground arith
Numbered-append k n (x ∷ es) e h s =
    ground (arith, Numbered-append k (n + 1) es e, Numbered-append k n es e)

-- `MAX(seq) + 1` goes on with the numbering of its run, and leaves that of the others.
pub Numbered-max_seq :
    (k : ℕ) (es : List Event) (e : Event)
    → Numbered k 0 es
    → e.seq ≡ max_seq e.run_id es + 1
    → Numbered k 0 (es ++ e ∷ [])
Numbered-max_seq k es e h s = Numbered-append k 0 es e h λ same. next same
  where
    next : e.run_id ≡ k → e.seq ≡ last_seq k 0 es + 1
    next same = omega (arith, s, ap (λ (r : ℕ). max_seq r es) same, max_seq-Numbered k 0 es h)
