-- ===== src/Lib.antt =====
-- Verification of the hpps parameter server, the C++ core of the ddls system.
--
-- Workers hold tables and send Get and Add requests; servers hold the parameters; one controller
-- counts the nodes in. A request of a worker's table goes to the worker actor, which cuts it
-- into one message for each server; the communicator carries the messages, the server gives each
-- to the scheduler of its table, and the replies come back the same way and wake the caller.
--
-- The files, with the code they are about:
-- - Prelude: the native numbers, lists, options, tests and integers that all files share. A
--   failed CHECK, a LOG_FATAL and undefined behaviour that the code can reach are `none`.
-- - Message: hpps/common/message.h. Message/Routing: the dispatch of hpps/frame/communicator.cc.
--   Message/Wire: the buffer of SerializeAndSend and RecvAndDeserialize in hpps/net/mpi_net.h.
-- - Scheduler/Clock, Scheduler/Sync: hpps/frame/scheduler/sync_scheduler.{h,cc}, one function
--   for each handler and for each loop of a handler. Scheduler/Table: scheduler.cc over the
--   record ServerTable, which a table of hpps/frame/table_interface.h fills. Below Sync: Count
--   and Inv state the invariant, Answers, Drain, Step and Growth keep it, Promise follows whole
--   histories.
-- - KvStore: hpps/kvstore/kvstore.{h,cc}. Memory is memcpy, Probe the probing, Valid the
--   invariant and the view as a map, Insert, Update and Refine what Set does, Lookup what Get
--   answers, Fresh the constructor, Persist Store, Load and Clear.
-- - Table/Array: hpps/table/array_table.cc, worker and server half; Array.array_table is the
--   table as the schedulers use it. Table/Kv: hpps/table/kv_table.h over KvStore.
-- - Frame/Controller: hpps/frame/controller.cc. Frame/Zoo: RegisterNode of hpps/frame/zoo.cc.
--   Frame/Worker: hpps/frame/table_interface.cc, hpps/common/waiter.h and hpps/frame/worker.cc.
--   Frame/Server: the dispatch of hpps/frame/server.cc. Frame/Requests: the messages of Zoo.
--   Frame/Actor: the loop of hpps/frame/actor.cc.
-- - Updater: the simple, SGD, momentum and averaging updaters of hpps/updater/; Updater/Adaptive:
--   Adam, AdaGrad and hpps/updater/dcasgd/; Updater/Options: AddOption and GetUpdater.
-- - Feeder: the transforms of hpps/feeder/utils.h, and the samples of hpps/feeder/record_io.cc.
--   Feeder/Assemble: ReadBatchTensor, BatchTensor2Batch and AssembleBatch of
--   hpps/feeder/feeder.cc, and Split. Feeder/Produce: the tasks, ProduceBatch and the plan.
--   Feeder/Header: the header of a record file and WriteFinalize. Feeder/Batch:
--   hpps/feeder/batch.cc, and the tensors that hpps/feeder/utils.h adds.
-- - Net: hpps/net/allreduce_topo.cc. Net/Engine and Net/Gather: the blocks, Allgather and
--   AllreduceByAllGather of hpps/net/allreduce_engine.cc. Net/Scatter: ReduceScatter and Allreduce.
-- - Common: StrSplit, Queue, and the allocators of hpps/common/allocator.{h,cc}: Sizes the size
--   classes, Blocks the free lists, Reach histories, Plain the allocator without size classes;
--   Common/Configure: hpps/common/configure.{h,cc}; Common/Random: hpps/common/random.{h,cc};
--   Common/Uri: hpps/common/io/io.{h,cc}; Common/Hash: hpps/common/hash.h; Common/Dashboard:
--   hpps/common/dashboard.{h,cc}.
-- The modules named Tests hold concrete runs.
--
-- Numbers are natural numbers. Where the program's width bounds them, an operation wraps as the
-- source does, or is `none` where the source overflows an int, reads a null blob or writes past
-- its memory (the clocks, the capacity of a store, the size of a buffer, the elements of a
-- tensor, the counts of indices, the offsets of an array, the size of all inputs of a
-- reduction), and the theorem says which sizes are meant. Other sizes in memory are taken to fit
-- their types. Memory is never used up.
--
-- Threads are sequences of atomic steps. A queue, a waiter, a free list and the table of pending
-- requests are changed under a lock; a scheduler is run by the one server thread that is the
-- default; the controller and the communicator have one thread. The two threads of the worker
-- actor and the ten of the feeder take turns here at whole handlers: what is said of them is
-- about one request or one task whose steps are not interleaved with others on the same object.
--
-- Fuel: the growth of a store's capacity has 65 rounds, after which a size_t is 0 for ever; the
-- Bruck steps have as many as the machines, and the reading of a buffer as many as its bytes;
-- each is enough, since a round doubles the number or reads a blob. The probing has the 32
-- rounds of the source.
--
-- Parameters stand for what is not in this repository or is chosen by the user: the updater of a
-- table, random values, the partition of a user's table, the map from ranks to worker ids,
-- the C library's readers of numbers, the random engine and its distributions.
--
-- Not modelled: input and output (streams, logs, sockets, MPI), the C interface, third-party
-- code and bindings, floating point arithmetic, the start and stop of threads, Split of samples
-- with aux numbers, whose loops index tensors by the wrong counter.
pub mod Prelude
pub mod Message
pub mod Scheduler
pub mod KvStore
pub mod Table
pub mod Frame
pub mod Feeder
pub mod Net
pub mod Common
pub mod Updater
