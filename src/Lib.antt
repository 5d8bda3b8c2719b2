-- ===== src/Lib.antt =====
-- Libeva is a C++ network library on Linux with a multi-reactor design, a set of concurrent
-- containers, and minimemcached, a server that keeps the entries its clients set.
--
-- The parts and how they interact. A reactor (libeva/Reactor) waits for events on file descriptors
-- and calls the connections (libeva/Net), each of which reads into and writes from a Buffer. The
-- server minimemcached gives each connection a Conversation, which splits the lines of the input
-- buffer with a Tokenizer and stores and finds Entry objects. They stand in an array of shards; a
-- shard is a HashSet (ds/HashSet), an array of sorted linked lists (ds/LazyList).
--
-- The files.
--   Base: shared names, and the lemmas on lists, on windows of byte arrays (slice, copy_at) and on
--     the wrap-around of size_t and int.
--   Net/Endian: the byte order functions that <endian.h> gives a little-endian host.
--   Net/Buffer: libeva/Net/Buffer.h and Buffer.cc. The record Buffer has buffer_, readerIndex_ and
--     writerIndex_, and a definition is named like the function it models: append is Buffer::append,
--     ensure_writable_bytes is ensureWritableBytes, and so on. Valid has the invariant, Space
--     ensureWritableBytes and makeSpace, Append the functions that put bytes in, Search findCRLF and
--     findEOL, Ints the functions on integers.
--   Net/TcpConnection: the sending side of libeva/Net/TcpConnection.h and TcpConnection.cc; Stream
--     has the order of the bytes, States what leaves the state of a connection.
--   Net/TcpServer: libeva/Net/TcpServer.h and TcpServer.cc with Acceptor::handleRead, the callbacks of
--     TcpConnection and the table of conversations of minimemcached/MiniMemcached.cc, as a step relation
--     over the tables and the queued functors. Phase has the phases of a connection, Moves what each
--     function does to them, Lifecycle that every step keeps to them.
--   Ds/Sorted: the abstract specification of a list, a sorted list of entries as a finite map.
--   Ds/LazyList: ds/LazyList/LazyList.h on an explicit heap of nodes, so that links, freed nodes and
--     null are what they are in the code. Chain and Shape say when a heap holds a list, Writes what
--     the writes of add and remove do to it, Refine what the calls do to the list of Ds/Sorted, Faults what
--     happens at the sentinels, Destroy what the destructor frees.
--   Ds/LazyList/Threads: the same functions with the locks of utility/SpinLock.h, as a step relation over
--     any number of threads. Place says where the addresses that threads hold stand in the list, Invariant
--     what holds between steps, Located what a thread knows under its locks, Adds and Removes what the
--     writes keep, Steps and Refines that each call takes effect in one step.
--   Ds/KeySet: the interface of a container of entries, and an array of containers as a container.
--   Ds/HashSet: ds/HashSet/HashSet.h; Laws fills the interface, and Calls has sequences of calls.
--   Ds/UnorderedLazyList: ds/LazyList/UnorderedLazyList.h, whose get differs from that of LazyList.
--   Ds/FineGrainedQueue: ds/FineGrainedQueue/FineGrainedQueue.h on a heap of nodes; Fifo shows the
--     order, Calls has sequences of calls, and Destroy says what the destructor frees.
--   Ds/FineGrainedQueue/Threads: push, tryPop and waitAndPop with the two mutexes and the condition
--     variable, as a step relation over any number of threads. Chain has the nodes of the queue and who
--     has the others, Invariant what holds between steps, Writes what each write keeps, Pops and Refines
--     that each call takes effect in one step, Lost that a wakeup can be lost.
--   Ds/StealingQueue: ds/StealingQueue/StealingQueue.h as a list, the front first.
--   Reactor/Event: the flags and the handle of libeva/Reactor/Event.h and Event.cc.
--   Reactor/Demultiplexer: libeva/Reactor/Demultiplexer.h and Demultiplexer.cc with epoll as an
--     interface. Registered says when the events, eventMap_ and epoll agree, and its Calls that the calls
--     on an event keep this so. Wait is demultiplex with epoll_wait, and its Reports says what it gives.
--     Life is the life of the events as a step relation, and its Serves says what holds in every state
--     that is reached.
--   Reactor/Pending: the loop of libeva/Reactor/Reactor.h and Reactor.cc as a step relation. Step is the
--     loop of dispatch, Handling what handlers do, DoPending doPendingFunctors, and Other what other
--     threads do. Order has the order of the functors, Wakeup that no wakeup is lost.
--   Reactor/ThreadPool: libeva/Reactor/ReactorThreadPool.h and ReactorThreadPool.cc.
--   Reactor/Timer: libeva/TimeWheel/Timer.h and Timer.cc, the timers on a heap, and the clock.
--   Reactor/TimeWheel: libeva/TimeWheel/TimeWheel.h and TimeWheel.cc. Shape says when the slots hold lists
--     of timers, Changes what adding and cancelling do to them, Ticks what a round of tock runs, Rounds
--     what several rounds run, Lost which timers tock loses, and Destroy what the destructor frees.
--   Reactor/Timers: runAt, runAfter, runEvery and cancel of libeva/Reactor/Reactor.cc; Runs shows that a
--     timer runs when it is due.
--   Thread/MyThreadPool: libeva/Thread/MyThreadPool.h and MyThreadPool.cc over the queues of ds; Rounds
--     shows which task a round takes. Threads has the rounds of all threads as a step relation, with the
--     shared queue as a list, and its Conserved counts the tasks.
--   Memcached/Tokenizer: minimemcached/utility/Tokenizer.h and Tokenizer.cc; Words has its theorems.
--   Memcached/Entry: minimemcached/Entry.h and Entry.cc; Valid has the invariant and the functions on
--     the key, Copies append and the copy constructor.
--   Memcached/Store: the shards of minimemcached/MiniMemcached.h and MiniMemcached.cc; Order has the
--     order and the hash of the keys, Laws what set and get do.
--   Memcached/Conversation: minimemcached/Conversation.h and Conversation.cc; Receive has receiveValue,
--     Answer GetHandler, Exchange a set with its value and a get, and Loop the loop of msgCb. Its
--     connection is an interface of the four calls it makes.
--
-- How the code is read. size_t and int are numbers with their wrap-around written out. A vector or
-- a malloc'd block is the list of its bytes. A write past the end of a malloc'd block and a read
-- through a null or freed pointer are `none`. The release build defines NDEBUG, so an assert does
-- nothing; what it states is a hypothesis of the theorems that need it. The lists and queues are
-- run by one thread at a time, where taking a lock is left out, but in Ds/LazyList/Threads,
-- Ds/FineGrainedQueue/Threads and Thread/MyThreadPool/Threads. With one thread and with several the
-- access of a guard to the lock of a deleted node, which ends every remove of a key that is there,
-- is a fault; the reactor's loop is run by its thread among any number of others, and the functors
-- that the server queues run in any order.
--
-- Bounds and fuel. The loops of LazyList run on fuel: one round more than there are entries is
-- enough, and HashSet gives each list the address of its next node, which is larger. The loop over
-- the tokens runs on one round more than there are characters, and that over a slot of timers on a
-- round for each timer. The destructor of a list runs on two rounds more than there are entries.
-- The get of UnorderedLazyList is stopped after any number of rounds. The loop of msgCb runs on one
-- round more than twice the readable bytes, and one more where a value is waited for. A buffer
-- grows up to 2^63-1 bytes, the largest vector, and an entry up to 2^31-1, as its lengths are ints.
--
-- Not modelled: the socket calls, and epoll, the clock and the timerfd, which are parameters or left
-- out; the logger, the timestamps and the thread classes, which are copies of muduo's; the concurrent
-- interleavings of UnorderedLazyList, whose locks are those of LazyList; and the tests and examples.
pub mod Base
pub mod Net
pub mod Ds
pub mod Reactor
pub mod Thread
pub mod Memcached
