-- ===== src/Ledger/Status/ControlMode.antt =====
-- The values of the column runs.control_mode, and the tests of it that runtime/ledger.py makes.
use multiverse.Base.{Bool, true, false}

pub data ControlMode : Type 0 where
  run pause cancel : ControlMode

abbrev pub is_pause : ControlMode → Bool
is_pause pause = true
is_pause _ = false

abbrev pub is_cancel : ControlMode → Bool
is_cancel cancel = true
is_cancel _ = false
