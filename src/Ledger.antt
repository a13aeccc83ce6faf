-- ===== src/Ledger.antt =====
-- runtime/ledger.py: the durable ledger, as functions on the state of its database.
pub mod Status
pub mod Schema
pub mod Tx
pub mod Dialogue
pub mod Evolution
pub mod Queries
pub mod Waits
pub mod Runs
pub mod Requests
pub mod Leases
pub mod Interactions
pub mod Control
pub mod Commands
pub mod Scopes
pub mod Attempts
pub mod Submit
pub mod Observations
pub mod Events
pub mod Listings
pub mod Session
mod Tests
