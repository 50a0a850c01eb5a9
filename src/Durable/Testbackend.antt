-- ===== src/Durable/Testbackend.antt =====
-- The in-memory Backend of the conformance tests (durable/internal/testbackend), the repository's
-- reading of the Backend contract.
pub mod Store
pub mod Executions
pub mod Lifecycle
pub mod Resumption
pub mod Endings
pub mod Attempts
pub mod Reconciliation
pub mod Soundness
pub mod Change
pub mod Calls
