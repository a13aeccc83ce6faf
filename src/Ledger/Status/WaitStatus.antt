-- ===== src/Ledger/Status/WaitStatus.antt =====
-- The values of the column waits.status, and the tests of it that runtime/ledger.py makes.
use multiverse.Base.{◌≡◌, ◌↔◌, Bool, true, false, arith}

pub data WaitStatus : Type 0 where
  pending claimed completed cancelled : WaitStatus

abbrev pub is_pending : WaitStatus → Bool
is_pending pending = true
is_pending _ = false

abbrev pub is_claimed : WaitStatus → Bool
is_claimed claimed = true
is_claimed _ = false

abbrev pub is_cancelled : WaitStatus → Bool
is_cancelled cancelled = true
is_cancelled _ = false

-- {"completed", "cancelled"}
abbrev pub is_closed : WaitStatus → Bool
is_closed completed = true
is_closed cancelled = true
is_closed _ = false

-- ('pending', 'claimed')
abbrev pub is_open : WaitStatus → Bool
is_open pending = true
is_open claimed = true
is_open _ = false

-- Equality of the texts.
abbrev pub status_eq : WaitStatus → WaitStatus → Bool
status_eq pending pending = true
status_eq claimed claimed = true
status_eq completed completed = true
status_eq cancelled cancelled = true
status_eq _ _ = false

pub status_eq_iff : (a b : WaitStatus) → (status_eq a b ≡ true) ↔ (a ≡ b)
status_eq_iff a b = ground arith
