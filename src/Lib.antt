-- ===== src/Lib.antt =====
-- A verification of the runtime of hivelang, version 0.3 (runtimes/0.3/common), in which hives on
-- several machines run workers and share objects.
--
-- The parts and their files:
--
-- * runtimes/0.3/common/api.c, the hash tables in which the runtime keeps objects, paths, requests
--   and wait lists. Table is what the tables of 64-bit keys (`i64hashtable`) and of byte-string
--   keys (`hashtable`) share, Table/Kind what they do differently, Table/Cells the probing loop,
--   Table/Layer one array of cells, Table/Layered the chain of arrays through `prev` that growth
--   makes. Hash has the two kinds: Hash/Bytes the hashes and comparisons, Hash/Keys the instances
--   under the names of the source and the space for keys, Hash/Session histories of calls on a
--   table.
-- * runtimes/0.3/common/queue.c, the queues of tasks. Queue/Ring is `task_queue`, Queue/Priority
--   `scheduler_queue`, a ring for each priority, and Queue/Scheduler the scheduler, which keeps one
--   for each thread and lets an idle thread steal.
-- * runtimes/0.3/common/remote.c, the messages between hives. Remote/Receive is the loop of
--   `Worker` that cuts a stream into calls, Remote/Send the senders, Remote/Connection the fields
--   of a connection that they use, Remote/Buffer the buffer of a socket (compiled, though
--   BUFERIZATE is 0), Remote/Bytes integers in memory, and Remote/Delivery connects senders and
--   receiver. Remote/WaitList are the lists of those who wait for an answer, which stand in the
--   hash tables `get_wait_list` and `set_wait_list` under a tag in their lowest four bits;
--   Remote/Paths the tables of known paths, and Remote/Pages the pages of object ids. Remote/Hive
--   is the state that the calls of other hives change: Hive/Connect connections, Hive/Broadcasts
--   how hives agree on identifiers and pages, Hive/Replies the answers to that, Hive/Objects the
--   callbacks, Hive/Requests what this hive asks of others, Hive/Calls and Hive/Switch
--   `HandleApiCall`, and Hive/Delivered puts it into the receive loop. Hash/Pointers is what the
--   tables whose values are addresses of structs share.
-- * runtimes/0.3/common/runtime.c, `GetNewObjectId` in Remote/Pages, `StartNewWorker` in
--   Remote/Hive/Requests; callbacks.c in Remote/Hive/Objects. Objects are x64/new_object.c,
--   x64/push_object.c and x64/query_object.c, on a memory of bytes.
-- * runtimes/0.3/common/runtime.c and allocators.c, in Workers: how a worker that waited comes back
--   to the scheduler. Workers/States is what a worker of the x64 provider waits for (x64/sleep.c,
--   x64/await_worker.c and the functions of the objects), and Workers/Updates the pass over the wait
--   list and the callbacks of callbacks.c.
-- * runtimes/0.3/common/runtime.c, `LoadWorker`, in Program/Load (the parts of its headers) and
--   Program/Loader (the loop over them); main/export.cpp and the `ExportToFile` of codegen/x64_win,
--   codegen/dll_win and codegen/gpu_win, which write the file that it reads, in Program/Export, and
--   `GetHeaderId` of codegen/codegen.hpp in Program/HeaderId. codegen/memoryAllocator.cpp, which
--   places a worker's variables in memory, is Program/SpreadMemory, and `GetExportWorkerId` of
--   codegen/utils.cpp is Program/ExportIds. Program/Install says what a program
--   means without a file, Program/RoundTrip that loading the written file does that, and
--   Program/Meaning what the workers then find.
-- * runtimes/0.3/lin/runtime_lib.c, numbers as text, in Text.
--
-- Prelude has shared lists, tests and lemmas, Word machine words, Tests concrete runs.
--
-- How the code is modelled. An operation is a function from a state to an answer and a new state.
-- `Option` is used for runs that may not end: `none` is a loop that waits for another thread for
-- ever, an index outside an array, a node that was freed, or a failed assertion. Operations run
-- one after another; the interleavings of two operations on one table or ring are not modelled.
-- The tables are those of the build without 16-byte atomics, which is what the Linux Makefile
-- makes. Keys are read through their pointers, which are written once. The counters of a ring are
-- signed in C: here they have 2 ^ 62 added, a multiple of the ring's size, and a push in front
-- asks for a counter above 0. A mask of priorities is a function from a bit to a Boolean.
--
-- Fuel. The probing loop is given one round for each cell: it writes nothing before it stops, so
-- that later rounds would see the same cells. `hashtable_take_tagged` and `hashtable_add` call
-- themselves once at most (fuel 2). `scheduler_queue_pop` clears one bit of 64 in each round
-- (fuel 65). The receive loop takes one turn for each byte at most and one for an empty body, so
-- two turns for each byte and two more are enough. `GetsetInsertTagged` succeeds at its first try
-- (fuel 1), and a list of waiters takes fuel for each of its nodes and one more.
--
-- The loop of `LoadWorker` is given a round for each byte after the prefix and one more: each of its
-- rounds reads a byte at least. A file is a list of bytes; a read or write outside it, outside the
-- memory of the code, outside `Workers` or outside a buffer is the result `overrun`.
--
-- The loop of `Allocate` in codegen/memoryAllocator.cpp stops at the first multiple of the size past
-- the cells in use, if not before: a round for each cell below the number of cells times the size,
-- and as many more as the size, are enough.
--
-- `myMalloc` gives the addresses of new structs, and the loop of a path answer takes two rounds
-- at most (fuel 2); the draws of broadcast ids go on while a draw is taken.
--
-- Sockets: `send` is taken to send all that it is given, and the bytes arrive in order.
-- HandleApiCall is a parameter of the receive loop: any function that answers whether to keep the
-- connection. A callback of a waiter is known by a number; those that answer another hive run,
-- and those that go on with a worker of this one are recorded with what they are given, as is the
-- start of a worker. What the system gives in a call (the clock, random bytes, addresses, whether
-- a connection is made) is a record `System`, an argument.
--
-- Not modelled: the full scan of `UpdateWaitingWorkers`, the states of a cast, what a disconnection
-- frees and closes, the other text functions, the providers for graphics cards and libraries; the
-- compiler but for its writers of files, the numbers of workers and the places of
-- variables in memory; the older runtimes 0.1 and 0.2.
pub mod Prelude
pub mod Tests
pub mod Word
pub mod Table
pub mod Hash
pub mod Queue
pub mod Remote
pub mod Objects
pub mod Workers
pub mod Text
pub mod Program
