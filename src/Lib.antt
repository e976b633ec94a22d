-- ===== src/Lib.antt =====
-- Boost.Log, a logging library for C++: a development about its core, libs/log/src/core.cpp, its
-- text file sink, libs/log/src/text_file_backend.cpp, the bounded queue of its asynchronous sinks,
-- boost/log/sinks/bounded_fifo_queue.hpp with drop_on_overflow.hpp and block_on_overflow.hpp
-- beside it, its attributes, libs/log/src/attribute_set.cpp with attribute_set_impl.hpp beside it,
-- attribute_values_view.cpp and attribute_name.cpp, and the base of the frontends of sinks,
-- boost/log/sinks/basic_sink_frontend.hpp.
--
-- A logging source asks the core to open a record. The core composes a view of three attribute
-- sets, asks its global filter and the filters of the sinks whether they want the record, and
-- remembers those that do; later it pushes the record to them. A file sink writes records to a
-- file, rotates the file by size or time, and hands the old file to a collector, which moves it to
-- a storage directory and erases the oldest files there when they take too much space. An
-- asynchronous sink puts the records into a queue, from which its own thread takes them; where the
-- queue is full, a strategy drops the record or blocks the thread. Each thread has a list of the
-- scopes that it is in, which sentries on its stack extend and shorten; a record that leaves the
-- thread takes a copy of it along.
--
-- Files. `Base` holds what the others share: names of the libraries, tests on numbers, lists.
-- `Core.State` is basic_core::implementation and its setters, `Core.Sinks` the list of sinks
-- (add_sink, remove_sink, remove_all_sinks), `Core.Open` open_record with apply_sink_filter,
-- `Core.Push` push_record. `Core.Open.Willing`, `Core.Open.Sound`, `Core.Push.Count`,
-- `Core.Push.Delivery`, `Core.Push.Once` and `Core.Threads` hold their proofs. `Core.Flush` is
-- flush, and `Core.Attributes` the calls on single attributes. `OnceBlock` is the once block
-- (boost/log/utility/once_block.hpp, libs/log/src/once_block.cpp), with its proofs in
-- `OnceBlock.Once`. `TextFile.Names` is the formatter of file names with the scan of digits,
-- `TextFile.Names.Match` match_pattern, `TextFile.Names.Pattern` the search for placeholders in
-- set_file_name_pattern_internal, with proofs in `TextFile.Names.Safe`, `TextFile.Names.Clash`,
-- `TextFile.Names.Digits`, `TextFile.Names.RoundTrip` and `TextFile.Names.Escaped`;
-- `TextFile.Collector` and its children are file_collector (`Evict` the loop that erases old
-- files, `Store` store_file, `Search` scan_for_files with proofs in `Search.Loop` and
-- `Search.Files`, `Repository` file_collector_repository), `TextFile.Rotation` the rotation
-- predicates, `TextFile.Backend` basic_text_file_backend. `Buckets` is the table of nodes that
-- attribute sets and views share, with its proofs in `Buckets.Lists`, `Buckets.Lookup`,
-- `Buckets.Sorted`, `Buckets.Runs`, `Buckets.Local`, `Buckets.Insert`, `Buckets.Hidden`,
-- `Buckets.Links` and `Buckets.Erase`; `AttributeSet` is basic_attribute_set and `ValuesView`
-- basic_attribute_values_view, with proofs in `AttributeSet.Map`, `AttributeSet.Inserting`,
-- `AttributeSet.Erasing`, `AttributeSet.Laws`, `ValuesView.Composed` and `ValuesView.Leak`.
-- `AttributeNames` is attribute_name_repository, with its proofs in `AttributeNames.RoundTrip`.
-- `Queues.Bounded` is bounded_fifo_queue with both strategies, with proofs in
-- `Queues.Bounded.Fifo`, `Queues.Bounded.Records` and `Queues.Bounded.Wakeup`; `Queues.Unbounded`
-- is unbounded_fifo_queue (boost/log/sinks/unbounded_fifo_queue.hpp) with sem_based_event
-- (libs/log/src/event.cpp), with its proof in `Queues.Unbounded.Sleep`; `Queues.Ordering` is
-- unbounded_ordering_queue (boost/log/sinks/unbounded_ordering_queue.hpp) with the difference of
-- timestamps (boost/log/detail/timestamp.hpp), with proofs in `Queues.Ordering.Moves`,
-- `Queues.Ordering.Window` and `Queues.Ordering.Records`; `RecordOrdering` is
-- boost/log/utility/record_ordering.hpp, with proofs in `RecordOrdering.Laws`. `AsyncFrontend` is
-- asynchronous_sink (boost/log/sinks/async_frontend.hpp) over an interface of queueing strategies,
-- its steps are in `AsyncFrontend.Steps`, its proofs in `AsyncFrontend.Feeding`,
-- `AsyncFrontend.Records`, `AsyncFrontend.Conservation`, `AsyncFrontend.Asked`,
-- `AsyncFrontend.Watched`, `AsyncFrontend.Stopping` and `AsyncFrontend.Stuck`;
-- `AsyncFrontend.Ordering` fills the interface with the ordering queue, and
-- `AsyncFrontend.Ordered` has the theorems about the frontend over it. `ThreadsafeQueue` is
-- threadsafe_queue (boost/log/detail/threadsafe_queue.hpp) with its implementation with two locks
-- (libs/log/src/threadsafe_queue.cpp), with proofs in `ThreadsafeQueue.Chain`,
-- `ThreadsafeQueue.Invariant`, `ThreadsafeQueue.Link`, `ThreadsafeQueue.Steps`,
-- `ThreadsafeQueue.Fifo` and `ThreadsafeQueue.Destruction`; `ThreadsafeQueue.Dcas` is its
-- implementation over a double-width compare and swap, with proofs in
-- `ThreadsafeQueue.Dcas.Chain`, `ThreadsafeQueue.Dcas.Invariant`, `ThreadsafeQueue.Dcas.Advance`,
-- `ThreadsafeQueue.Dcas.Pushes`, `ThreadsafeQueue.Dcas.Front`, `ThreadsafeQueue.Dcas.Pops` and
-- `ThreadsafeQueue.Dcas.Stale`. `SinkFrontend` is basic_sink_frontend, with proofs in
-- `SinkFrontend.Locking`; `SinkFrontend.Synchronous` and `SinkFrontend.Unlocked` are the frontends
-- of boost/log/sinks/sync_frontend.hpp and unlocked_frontend.hpp over it. `NamedScope` is
-- basic_named_scope_list and its writeable child (boost/log/attributes/named_scope.hpp,
-- libs/log/src/named_scope.cpp), with proofs about its nodes in `NamedScope.Chain`,
-- `NamedScope.Stack`, `NamedScope.Copy`, `NamedScope.Copied`, `NamedScope.Swap`,
-- `NamedScope.Destroy` and `NamedScope.Assign`; `NamedScope.Thread` is the stack of a thread with
-- its sentries and values (basic_named_scope::impl, basic_named_scope::sentry,
-- basic_named_scope_value), with proofs in `NamedScope.Nested`, `NamedScope.Blocks`,
-- `NamedScope.Keeps`, `NamedScope.Moves` and `NamedScope.Detached`. Modules named `Examples` run
-- them on concrete inputs.
--
-- State. A call is a function from the state before to its outcome: a value with the new state, an
-- exception or an interruption. Mutexes make each call one step, so calls are modelled one at a
-- time. In the queue a call may wait, and what a thread does between two waits is a step, also its
-- interruption in the wait; runs are lists of steps in any order. In ThreadsafeQueue a step is one
-- access to the shared list: an assignment under a lock, a load, or a compare and swap. In
-- `OnceBlock` and `AsyncFrontend` it is what a thread does between two accesses to the flags, the
-- queue or the backend, and what it does under the mutex is one step; a wait may end at any time,
-- and the thread looks at its condition again. get_id_from_string takes two locks, and other
-- threads may add names between them. What a virtual function, a function object, the clock, the
-- file system, std::priority_queue, Boost.Spirit, Boost.DateTime or Boost.Intrusive answers is an
-- argument of the model; in push_record the answers may depend on everything that has happened in
-- the call before. Sizes are 64-bit and file counters 32-bit unsigned numbers, with their wrap
-- written out.
--
-- In `Core` a set of attributes is a value that is handed through, but for `Core.Attributes`;
-- `AttributeSet` and `ValuesView` are what stands behind it. A pointer to a node is an address, an
-- intrusive::list of Boost.Intrusive a list of nodes, and a set has the invariant that each of its
-- 16 buckets points to the ends of a run of the list. A key is the identifier of a name. In
-- `NamedScope` the memory is one function from addresses per field; an entry that was destroyed is
-- none, the addresses that allocations return are arguments, and what the code that uses sentries
-- does is a tree of blocks, each with its sentry, that may be left by an exception. Addresses are
-- natural numbers without a bound.
--
-- Fuel. The inner loop of push_record takes the number of sinks from its position on, the outer
-- loop one more than the number of sinks, since each round settles a sink. match_pattern takes the
-- length of the pattern, since each round moves on in it, and so does the search for placeholders.
-- The search for a free file name takes the largest unsigned int, which is the bound in the code.
-- The loops over a list of scopes take its size.
--
-- Not modelled: exceptions of memory allocation; the exceptions of filesystem calls that the code
-- makes before it changes anything; in `AsyncFrontend` queues whose enqueue blocks, and the
-- interruption of threads other than the one that feeds records; the remaining parts of the
-- library, among them the bounded ordering queue, the formatters, the parsers of settings, the
-- syslog and event log backends, and the platform layers, most of which are templates that choose
-- types, grammars of Boost.Spirit, or calls of the platform; in `NamedScope` the dispatch of a
-- value to its visitor, the output of a list to a stream, and the end of a thread, which is left
-- to thread_specific_ptr.
pub mod Base
pub mod AsyncFrontend
pub mod AttributeNames
pub mod AttributeSet
pub mod Buckets
pub mod Core
pub mod NamedScope
pub mod OnceBlock
pub mod Queues
pub mod RecordOrdering
pub mod SinkFrontend
pub mod TextFile
pub mod ThreadsafeQueue
pub mod ValuesView
