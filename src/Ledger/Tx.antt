-- ===== src/Ledger/Tx.antt =====
-- runtime/ledger.py, `_transaction`: a method runs in one transaction, and an exception rolls back
-- what it has written. `Monad` has the results and their sequencing, `Database` and `Dialogue` the
-- tables and the SQL statements on them, `Numbering` the numbers of the events.
pub mod Monad
pub mod Database
pub mod Dialogue
pub mod Numbering
pub mod WaitKeys
pub mod WaitRows
pub mod Inversion
pub use Monad.*
