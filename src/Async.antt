-- ===== src/Async.antt =====
-- internal/async: asynchronous jobs. Async.Records is job_record.go, serialization.go and the types
-- of manager.go, Async.Manager its operations, Async.Events their steps in any order, Async.Monitor
-- the handler that answers for a job.
pub mod Records
pub mod Manager
pub mod Events
pub mod Invariant
pub mod Safety
pub mod Operations
pub mod Steps
pub mod Local
pub mod Lifecycle
pub mod Reached
pub mod Headers
pub mod Monitor
pub mod Restored
pub mod Answers
mod InMemory
mod Examples
