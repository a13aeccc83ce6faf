-- ===== src/Ledger/Status/InteractionStatus.antt =====
-- The values of the column codex_interactions.status, and the tests of it that runtime/ledger.py
-- makes.
use multiverse.Base.{Bool, true, false}

pub data InteractionStatus : Type 0 where
  pending replied expired invalid : InteractionStatus

abbrev pub is_pending : InteractionStatus → Bool
is_pending pending = true
is_pending _ = false

abbrev pub is_replied : InteractionStatus → Bool
is_replied replied = true
is_replied _ = false

abbrev pub same : InteractionStatus → InteractionStatus → Bool
same pending pending = true
same replied replied = true
same expired expired = true
same invalid invalid = true
same _ _ = false
