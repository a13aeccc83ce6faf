-- ===== src/Ledger/Status/RequestStatus.antt =====
-- The values of the column human_requests.status, and the tests of it that runtime/ledger.py makes.
use multiverse.Base.{Bool, true, false}

pub data RequestStatus : Type 0 where
  pending decided cancelled : RequestStatus

abbrev pub is_pending : RequestStatus → Bool
is_pending pending = true
is_pending _ = false

abbrev pub same : RequestStatus → RequestStatus → Bool
same pending pending = true
same decided decided = true
same cancelled cancelled = true
same _ _ = false
