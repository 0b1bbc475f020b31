-- ===== src/Lock.antt =====
-- concurrency/lock_manager*.cpp: modes, request queues, key ranges, waiting and deadlocks.
pub mod Mode
pub mod Queue
pub mod Ranges
pub mod Deadlock
pub mod Escalation
