-- ===== src/Ledger/Status/LeaseStatus.antt =====
-- The values of the column native_session_turn_leases.status.
use multiverse.Base.{Bool, true, false}

pub data LeaseStatus : Type 0 where
  active released : LeaseStatus

abbrev pub is_active : LeaseStatus → Bool
is_active active = true
is_active released = false

abbrev pub is_released : LeaseStatus → Bool
is_released active = false
is_released released = true
