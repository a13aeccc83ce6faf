-- ===== src/Ledger/Status.antt =====
-- The status columns of the ledger's tables, a module for each type of values.
pub mod RunStatus
pub mod ControlMode
pub mod ScopeStatus
pub mod InvocationStatus
pub mod AttemptStatus
pub mod WaitStatus
pub mod OutboxStatus
pub mod CommandStatus
pub mod RequestStatus
pub mod IntentStatus
pub mod LeaseStatus
pub mod InteractionStatus
pub mod DeliveryStatus
