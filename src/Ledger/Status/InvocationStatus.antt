-- ===== src/Ledger/Status/InvocationStatus.antt =====
-- The values of the column invocations.status, and the tests of it that runtime/ledger.py makes.
use multiverse.Base.{Bool, true, false}

pub data InvocationStatus : Type 0 where
  planned running waiting retry_wait reconciling succeeded failed cancelled skipped :
      InvocationStatus

-- {"succeeded", "failed", "cancelled", "skipped"}
abbrev pub is_terminal : InvocationStatus → Bool
is_terminal succeeded = true
is_terminal failed = true
is_terminal cancelled = true
is_terminal skipped = true
is_terminal _ = false

-- ('succeeded', 'failed', 'cancelled')
abbrev pub is_finished : InvocationStatus → Bool
is_finished succeeded = true
is_finished failed = true
is_finished cancelled = true
is_finished _ = false

-- ('planned', 'running', 'waiting')
abbrev pub is_open : InvocationStatus → Bool
is_open planned = true
is_open running = true
is_open waiting = true
is_open _ = false

abbrev pub is_reconciling : InvocationStatus → Bool
is_reconciling reconciling = true
is_reconciling _ = false
