-- ===== src/Ledger/Status/IntentStatus.antt =====
-- The values of the column human_progress_intents.status.
use multiverse.Base.{Bool, true, false}

pub data IntentStatus : Type 0 where
  pending completed : IntentStatus

abbrev pub is_pending : IntentStatus → Bool
is_pending pending = true
is_pending completed = false
