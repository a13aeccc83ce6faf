-- ===== src/Ledger/Tests/OfListings.antt =====
-- The lists of one run: it is queued, and a second attempt is its latest one.
use multiverse.Base.{Lists, ◌≤◌, ◌≡◌, ◌⊎◌, some, List, [], ◌++◌, arith, length}
use multiverse.Ledger.Schema.{Run, Attempt}
use multiverse.Ledger.Tx.Monad.{ok}
use multiverse.Ledger.Listings.{list_queued_runs, latest_attempt}
use multiverse.Ledger.Listings.Queue.{CreatedFirst, Queued, list_queued_runs-earliest}
use multiverse.Ledger.Listings.Latest.{create_attempt-latest}
use multiverse.Ledger.Tests.Samples.{queued, queued-IsValid, started, same_digest}
use multiverse.Ledger.Tests.OfAttempts.{numbered, numbers}

list_queued_runs-earliest_example :
    (page : List Run) × (rest : List Run) × (list_queued_runs (some 7) 1 queued ≡ ok (page, queued))
    × Lists CreatedFirst (Queued (some 7)) queued.runs (page ++ rest)
    × (length page ≤ 1)
    × ((rest ≡ []) ⊎ (length page ≡ 1))
list_queued_runs-earliest_example =
    list_queued_runs-earliest (some 7) 1 queued queued-IsValid (omega arith)

create_attempt-latest_example :
    (a : Attempt) × (numbered.0 ≡ some a) × (latest_attempt 5 numbered.1 ≡ ok (some a, numbered.1))
create_attempt-latest_example =
    create_attempt-latest same_digest 20 61 5 33 42 43 started numbered numbers
