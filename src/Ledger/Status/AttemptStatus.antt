-- ===== src/Ledger/Status/AttemptStatus.antt =====
-- The values of the column attempts.status, and the tests of it that runtime/ledger.py makes.
use multiverse.Base.{Bool, true, false}

pub data AttemptStatus : Type 0 where
  created submitted running waiting unknown succeeded failed cancelled : AttemptStatus

-- {"succeeded", "failed", "cancelled"}
abbrev pub is_terminal : AttemptStatus → Bool
is_terminal succeeded = true
is_terminal failed = true
is_terminal cancelled = true
is_terminal _ = false

-- {"succeeded", "cancelled"}
abbrev pub is_settled : AttemptStatus → Bool
is_settled succeeded = true
is_settled cancelled = true
is_settled _ = false

-- ('created', 'submitted', 'running', 'unknown')
abbrev pub is_active : AttemptStatus → Bool
is_active created = true
is_active submitted = true
is_active running = true
is_active unknown = true
is_active _ = false

-- ('created', 'waiting')
abbrev pub is_idle : AttemptStatus → Bool
is_idle created = true
is_idle waiting = true
is_idle _ = false

abbrev pub is_unknown : AttemptStatus → Bool
is_unknown unknown = true
is_unknown _ = false

-- `row["status"] == status`
abbrev pub same : AttemptStatus → AttemptStatus → Bool
same created created = true
same submitted submitted = true
same running running = true
same waiting waiting = true
same unknown unknown = true
same succeeded succeeded = true
same failed failed = true
same cancelled cancelled = true
same _ _ = false
