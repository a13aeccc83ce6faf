-- ===== src/Ledger/Status/ScopeStatus.antt =====
-- The values of the column scopes.status, and the tests of it that runtime/ledger.py makes.
use multiverse.Base.{Bool, true, false}

pub data ScopeStatus : Type 0 where
  active succeeded failed cancelled : ScopeStatus

abbrev pub is_active : ScopeStatus → Bool
is_active active = true
is_active _ = false
