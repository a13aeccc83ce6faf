-- ===== src/Ledger/Schema.antt =====
-- runtime/ledger.py, `_initialize`: the tables of the database. Ids, namespaces, node ids and
-- digests are only compared by the code, so they are numbers; a timestamp is the place of its text
-- in the order of texts, which is the order that the SQL compares by; a JSON text is the number of
-- its canonical form. Texts that the code looks into (workers, references, reasons) are `String`.
pub mod Keys
pub mod Rows
pub mod Dialogue
pub mod Events
pub use Keys.*
pub use Rows.*
pub use Dialogue.*
pub use Events.*
