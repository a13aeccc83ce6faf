-- ===== src/Ledger/Evolution/Rules.antt =====
-- The rules by which the methods are shown to keep validity and to move the state as promised: one
-- for each way in which a transaction goes on, and one for each statement.
mod Steps
mod WorkTables
mod DeliveryTables
mod Statements
mod AtKey
mod Inserts
mod DialogueTables
mod Dialogue
mod DialogueInserts
pub use Steps.*
pub use Statements.*
pub use AtKey.*
pub use Inserts.*
pub use Dialogue.*
pub use DialogueInserts.*
