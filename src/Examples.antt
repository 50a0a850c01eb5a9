-- ===== src/Examples.antt =====
-- Concrete runs of the models of message/, agent/, durable/, orchestration/, tool/ and provider/.
pub mod Transcripts
pub mod Continuations
pub mod Executions
pub mod Calls
pub mod Effects
pub mod Drives
pub mod Updates
pub mod Interceptors
pub mod Usages
pub mod Retries
pub mod Events
pub mod Failover
