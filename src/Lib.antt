-- ===== src/Lib.antt =====
-- GraniteDB, a relational database engine in C++: a model of its core, with proofs.
--
-- The model follows the source function by function; names are the source's in snake_case. A
-- class is a record of its members, a method a function from the old record to the new one and
-- the result. `std::optional` is Option, a call that may throw returns a Result or a type with a
-- case for the exception, and a loop is a recursion on its list, its count or on fuel. A method
-- that holds its object's latch is one step. Unsigned integers are natural numbers, with the wrap
-- written out where the code stores or casts them.
--
-- Prelude: lists, Boolean tests, results and maps that the files share.
-- Types: identifiers of pages and records (common/types.h).
-- Transaction: a transaction's state and locks (concurrency/transaction.h).
-- Wal: log records (recovery/wal_records.h); Wal.Bytes and Wal.Codec are their byte format, and
-- Wal.Log the log file, its scan on opening, appends, reads and flushes
-- (recovery/log_manager.cpp). The log is the list of its bytes, of which a part may still be in the
-- buffer of the stream that appends; a read opens the file anew and sees what has left the buffer.
-- Wal.Log.Buffered is about reads after appends, Wal.Log.Flush and Wal.Log.Durable about histories of
-- calls. The loops over the file have its length plus one as fuel, which suffices since each round
-- passes four bytes or stops.
-- Lock: lock modes and the queue of requests for one table or record
-- (concurrency/lock_manager*.cpp). A call that blocks is cut into the part before its wait loop and
-- one round of that loop, each atomic under the latch; Lock.Queue.System has every interleaving of
-- these parts, of the deadlock detector's victims and of the transactions' ends, for one table and
-- any number of transactions. Lock.Ranges has the comparison and the grant rule of key-range locks, Lock.Ranges.Acquire
-- LockKeyRange cut in the same way, and Lock.Ranges.Exclusive its interleavings on one index;
-- Lock.Escalation says when record locks ask for a table lock.
-- Lock.Deadlock is the deadlock worker (concurrency/lock_manager_deadlock.cpp): the waits-for graph,
-- the cycle search, whose calls nest at most once per key of the graph and once more, and
-- Lock.Deadlock.Worker the loop that aborts victims, with one round more than there are waiting
-- requests.
-- Disk: a relation's file and its page allocator (storage/disk_manager.cpp), and in Disk.Relations the
-- manager's calls on the open relations. A handle has the
-- contents of its two files; a crash is an opening from what was written before it.
-- Recovery: analysis, redo and undo (recovery/recovery_manager.cpp), in Recovery, Recovery.Redo and
-- Recovery.Undo, over an interface for the buffer pool and the log (Recovery.Storage). The loop of
-- undo has the sum of the queued LSNs, each plus one, and one more as fuel: a round takes an item out
-- and pushes at most one with a smaller LSN.
-- Manager: the transaction manager and checkpoints (concurrency/transaction_manager.cpp,
-- recovery/checkpoint_manager.cpp), over an interface for what they call. Commit is cut after its
-- commit record is appended, where a checkpoint of another thread can run. The loop of the rollback has
-- the transaction's last LSN and one as fuel: each round goes on from a smaller LSN.
-- Buffer: frames and the clock replacer, and in Buffer.Pool the buffer pool (buffer/), over an
-- interface for the disk and log managers.
-- Retire: epochs and the reclamation of retired pages (concurrency/page_retire_manager.cpp).
-- FreeSpace: the free space map (storage/free_space_map.cpp).
-- Row: values, columns and rows (common/value.h, common/schema.h); Row.Bytes, Row.Bitmap and
-- Row.Columns are the bytes of a value, of the null bitmap and of the columns, which both encodings of
-- a row share, Row.Tuple is common/tuple.h and Row.Heap storage/heap_tuple_codec.h. Row.Compare has the
-- comparisons of execution/expressions.h, over an interface for the arithmetic of `double`.
-- Slotted: slotted pages (storage/slotted_page.cpp). The header and the slot directory are members of
-- a record, and the page's bytes a list; Slotted.Layout says where the parts stand, Slotted.Records,
-- Slotted.Compact and Slotted.Insert are about the operations, and Slotted.Requests about sequences of
-- them.
-- Key: the encodings of index keys (access/index_key.h), and in Key.Composite the keys of several
-- columns (access/composite_key_codec.cpp), with the 32-bit positions at which they are read; Key.Order
-- is the order of their values.
-- Expression: expressions and their evaluation (execution/expressions.h); Expression.Typing says which
-- of them have a type.
--
-- Not modelled: latches, condition variables and wake-ups, fault injection, stream and disk errors,
-- and the layers above: heap files, B+ trees, executors, the optimizer and the SQL front end.
pub mod Prelude
pub mod Types
pub mod Transaction
pub mod Wal
pub mod Lock
pub mod Buffer
pub mod Disk
pub mod Expression
pub mod FreeSpace
pub mod Key
pub mod Manager
pub mod Recovery
pub mod Retire
pub mod Row
pub mod Slotted
pub mod Tests
