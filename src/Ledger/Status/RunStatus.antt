-- ===== src/Ledger/Status/RunStatus.antt =====
-- The values of the column runs.status, and the tests of it that runtime/ledger.py makes.
use multiverse.Base.{Bool, true, false}

pub data RunStatus : Type 0 where
  queued running waiting paused stopping blocked retry_wait succeeded failed cancelled : RunStatus

-- {"queued", "running", "waiting"}
abbrev pub can_pause : RunStatus → Bool
can_pause queued = true
can_pause running = true
can_pause waiting = true
can_pause _ = false

-- {"succeeded", "failed", "cancelled"}
abbrev pub is_terminal : RunStatus → Bool
is_terminal succeeded = true
is_terminal failed = true
is_terminal cancelled = true
is_terminal _ = false

abbrev pub is_paused : RunStatus → Bool
is_paused paused = true
is_paused _ = false

abbrev pub is_blocked : RunStatus → Bool
is_blocked blocked = true
is_blocked _ = false

abbrev pub is_queued : RunStatus → Bool
is_queued queued = true
is_queued _ = false
