-- ===== src/Tests.antt =====
-- Runs on concrete inputs, and the main theorems at concrete inputs.
mod Buffering
mod Deadlocks
mod Relations
mod FreePages
mod KeyRanges
mod Locks
mod Pages
mod RangeLocks
mod Recovering
mod Rows
mod WriteAheadLog
mod Transactions
