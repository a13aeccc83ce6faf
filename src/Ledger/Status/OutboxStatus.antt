-- ===== src/Ledger/Status/OutboxStatus.antt =====
-- The values of the column outbox.status, and the tests of it that runtime/ledger.py makes.
use multiverse.Base.{Bool, true, false}

pub data OutboxStatus : Type 0 where
  pending submitting submitted unknown : OutboxStatus

abbrev pub is_pending : OutboxStatus → Bool
is_pending pending = true
is_pending _ = false

abbrev pub is_submitting : OutboxStatus → Bool
is_submitting submitting = true
is_submitting _ = false

abbrev pub is_submitted : OutboxStatus → Bool
is_submitted submitted = true
is_submitted _ = false

abbrev pub is_unknown : OutboxStatus → Bool
is_unknown unknown = true
is_unknown _ = false

-- ('pending', 'unknown')
abbrev pub can_claim : OutboxStatus → Bool
can_claim pending = true
can_claim unknown = true
can_claim _ = false
