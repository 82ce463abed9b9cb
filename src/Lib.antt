-- ===== src/Lib.antt =====
-- Verification of qstorage, a storage engine in C++: its I/O requests, its log buffers, its
-- utilities and its fail points.
--
-- The parts and the files that model them:
--   Prelude     Booleans, options, lists, machine words and bit fields that the parts share.
--   Io          src/io. `Request` has the operation kinds of IoRequest (io_request.h) and `split`
--               (io_request.cc), `Sink` the submission queue (io_sink.h), and `Completion` the
--               delivery of a result (reactor.h, posix.h, io_desc.h). `AsyncIo` is the file of
--               async_io.h and io_uring.h. A sink drains the requests which the caller may have
--               split before, and a completion gets the result of each.
--   Db          src/db. `SpRingBuffer` (sp_ring_buffer.h) and `RingBuffer` (ring_buffer.h) are the
--               buffers in which the log is written, with the sizes of constant.h;
--               `SpRingBuffer.Mapping` is the constructor of the first, and `SpRingBuffer.Threads`
--               its two threads, of which one may read an old `tail_`. `Allocator` has the pages of
--               allocator.h and rc_allocator.h. `LogWriter` is the group commit of log_writer.h
--               over such a ring, with the batons, mutexes and tasks of folly and the system calls
--               as parameters; `LogWriter.Areas` follows the areas of the ring that its calls have
--               been given, and `LogWriter.Leaders` the groups and their leaders, in runs of fewer
--               than `2 ^ 64` steps. A leader releases its group in steps of their own, without a
--               lock. The laws of folly's tasks say that one which is dropped does nothing, where a
--               theorem needs it.
--   Infra       src/infra. `Serialize` is the byte encoding of integers (serialize.h), and
--               `BoundedQueue` the queue between two semaphores (bounded_queue.h), whose threads
--               interleave and whose parts from folly are parameters with their laws. `IoUring` is
--               the loop that takes requests from such a queue (io_uring.h, io_uring.cc), with
--               liburing as a parameter, whose submissions may fail or fall short; `ring_`, which
--               the source never sets, is an option, and a round is `none` where it is null.
--               `IoUring.Runs` interleaves its rounds with submissions and the kernel, and
--               `IoUring.Posts` counts the posts of each request. `Atomic` is atomic.h, `SkipList`
--               the table prefixes, links and slots of skip_list.h (`SkipList.Setters` the calls of
--               SetKeyValue by many threads) with the data of block_node.h and skmv_skiplist.h,
--               `CsppTrie` the slots of cspptrie.h, `LockGuard` lock_guard.h, `Logger` the levels
--               of logger.h, `Pause` port_posix.h, and `Task` the interfaces of the types that
--               task.h takes from folly, and `Allocator` the interface of allocator.h.
--   Tools       src/tools. `LinkedList` is the intrusive list (list.h), `Histogram` the counters of
--               histogram.h, with its 32-bit number of buckets, which an allocator places
--               (`Allocator`, allocator.h; `Histogram.Life` follows one from there on), `Buffer`
--               the taking of a free block from such a list (buffer.cc), `BufferPool`
--               buffer_pool.h, `Log` the macros of log.h, `Error` error.h, and `Main` the program
--               main.cc.
--   Xlog        src/xlog, src/config and src/main.cc: a sample library and its program.
--   Failpoint   tools/failpoint: the registry of fail points, its scope guard and its macros, and
--               the demonstration under tests/failpoint_demo.
--
-- State is passed explicitly: an operation takes the component's record and returns the new one.
-- A size or a cursor of w bits is a natural number, and its operations wrap by `% 2 ^ w`. An
-- assertion that fails is `none`. Loops that the source bounds by data are recursions on the
-- data; the other loops are recursions on a number of rounds: one more than there are bytes for
-- SplitBuffer, which takes at least one in a round; for SplitIovec twice the bytes, one per element
-- and one, since a round takes bytes, refills or finishes an element; one more than the elements
-- for the list; and one more than the buckets for the histogram, whose interval shrinks in each.
--
-- Not modelled: the vendored test library; the classes whose operations have no bodies (Logger,
-- and the rest of tools/buffer.h, which is commented out); names for types of other libraries
-- (infra/task.h) and attributes of the compiler (tools/util.h); and the checks of
-- a template's arguments. The expression that `Append` of list.h leaves unfinished is an argument.
pub mod Prelude
pub mod Infra
pub mod Io
pub mod Db
pub mod Tools
pub mod Failpoint
pub mod Xlog
