-- ===== src/Ledger/Status/CommandStatus.antt =====
-- The values of the column commands.status, and the tests of it that runtime/ledger.py makes.
use multiverse.Base.{Bool, true, false}

pub data CommandStatus : Type 0 where
  accepted completed rejected : CommandStatus

abbrev pub is_accepted : CommandStatus → Bool
is_accepted accepted = true
is_accepted _ = false

-- `row["status"] == status`
abbrev pub same : CommandStatus → CommandStatus → Bool
same accepted accepted = true
same completed completed = true
same rejected rejected = true
same _ _ = false
