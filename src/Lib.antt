-- ===== src/Lib.antt =====
-- caimr: an event-driven TCP library in C++ (one event loop per thread, in the manner of muduo).
--
-- The parts and how they interact. A thread runs an `eloop`, which asks its `poller` for the ready
-- descriptors and lets the `chan` of each run its callbacks; other threads hand it functors through
-- a queue and wake it through an eventfd. A `tcp_conn` owns a socket, a chan and two buffers: its
-- handlers are the callbacks of the chan, and what it does not write at once waits in the output
-- buffer until the poller reports EPOLLOUT. A `tcp_server` accepts connections and places each in
-- one of the loops of its `eloop_tpool`, in turn. A `tpool` runs tasks on a fixed set of threads. A
-- log line is put together in a `logstream`.
--
-- The files, with the code that each one models:
-- * Prelude (for all the parts): shared helpers. Prelude/Tests has Boolean tests, Prelude/Lists, Prelude/Blocks and
--   Prelude/Assoc have lists, blocks of bytes and maps over native numbers, Prelude/Options has
--   chains of steps that may fail.
-- * Buffer (include/net/buffer.h, src/net/buffer.cpp): the byte buffer of a connection. `Buffer`
--   has the members of `buffer`; size_t arithmetic is modulo 2^64, and a vector is a list of bytes.
--   Buffer/Content says what it holds, Buffer/Room how it makes room, Buffer/Io is about reads and
--   writes of a descriptor, Buffer/Strings about the reads that hand out a string, Buffer/Queue
--   compares it with a queue of bytes.
-- * Events, Chan (include/net/chan.h, src/net/chan.cpp): event masks and channels. An int mask is a
--   record of the five bits used. Chan/Dispatch is about `handle_event`.
-- * Poller (include/net/poller.h, include/net/epoll_poller.h, src/net/epoll_poller.cpp): the map of
--   channels and the requests to the kernel. Poller/Interest is what is relied on of epoll,
--   Poller/Registration is about `update_chan` and `remove_chan`, Poller/Poll about `poll`.
-- * Eloop (include/net/eloop.h, src/net/eloop.cpp): the loop. Eloop/Channels are the operations of
--   a chan that go through its loop, Eloop/Pending is about the queue of functors, Eloop/Loop is
--   `loop` itself, Eloop/Threads the loop thread interleaved with the threads that queue functors
--   (Eloop/Wakeup about it), Eloop/Lifetime the constructor and the destructor (with src/net/default_poller.cpp).
-- * EloopThread (include/net/eloop_thread.h, src/net/eloop_thread.cpp): a thread that runs a loop,
--   with its owner, as a step relation. EloopThread/Stages, EloopThread/Kept and EloopThread/Ranks say
--   how far owner and thread may be apart, EloopThread/Starting is about `start_loop`,
--   EloopThread/Ending about the destructor.
-- * Thread (include/thread/thread.h, src/thread/thread.cpp, include/thread/cthread.h): the wrapper of
--   std::thread. Thread/Names is about the default names, Thread/Life about the calls and the
--   destructor, Thread/Cached about the cached thread id.
-- * Address (include/net/address.h, src/net/address.cpp): an address and its texts (Address/Text).
-- * Functor (src/net/tcp_conn.cpp, src/net/tcp_server.cpp): what connections and the server queue
--   in a loop.
-- * TcpConn (include/net/tcp_conn.h, src/net/tcp_conn.cpp): a connection, its members in
--   TcpConn/Members. TcpConn/Birth is about the beginning, TcpConn/Stream, TcpConn/Sending,
--   TcpConn/Failing and TcpConn/HighWater about sending, TcpConn/Writable about `handle_write`, TcpConn/Inputs,
--   TcpConn/Handlers and TcpConn/States about sequences of events, TcpConn/Flushing about what a
--   shutdown comes to, TcpConn/Closing about the end, TcpConn/Phases about what the service follows
--   of a connection, TcpConn/Echo about an echo server (test/tcp_server_test.cpp), and
--   TcpConn/Replies about what its callback needs: room for what it sends back. In the sequences of
--   events a callback of the user comes with a condition, its `Room`, that holds when it is called.
--   TcpConn/Dispatch binds the handlers to the channel, TcpConn/Tame, TcpConn/TameHandlers,
--   TcpConn/Served and TcpConn/Established say what they do to the poller (Eloop/Ownership).
-- * Reactor (src/net/eloop.cpp, src/net/chan.cpp, src/net/tcp_conn.cpp): a loop with all the
--   connections that live in it, as a step relation. A step is an operation of one connection, with
--   all that it does to the poller; the user's callbacks may do anything to their own connection that
--   its operations do, and nothing to the others. Reactor/Served is the invariant, Reactor/Owners says
--   who has registered what, Reactor/Steps what the steps come to, Reactor/Watching and
--   Reactor/Dangling are about the kernel's set. Reactor/Rounds is `eloop::loop` over these
--   connections, with the functors that other threads queue, the connections that an acceptor in
--   this loop brings (src/net/acceptor.cpp, src/net/tcp_server.cpp), and what the system answers to
--   the handlers and functors as a parameter; Reactor/Conditions has what a run is subject to;
--   Reactor/Newcomers, Reactor/Reported, Reactor/Begun and
--   Reactor/Handled follow the handlers of a round, and Reactor/Runs puts the parts together. A
--   functor whose connection has been destroyed does nothing, and the channel of the eventfd does
--   nothing to connections. Of `remove_conn_in_loop` Reactor/Rounds has what it asks of the loop; the
--   map of the server is in TcpServer.
-- * Tpool (include/thread/tpool.h, src/thread/tpool.cpp): the pool as a step relation: one step is
--   what a thread does under the mutex. Tpool/Order is about the order of the tasks, Tpool/Waiting about
--   workers that sleep, Tpool/Shutdown about `stop`, Tpool/Threads about the thread objects of the pool.
-- * LoopPool (include/net/eloop_tpool.h, src/net/eloop_tpool.cpp): the pool of loops that the
--   server spreads its connections over. LoopPool/Rotation is about the order in which it hands
--   them out.
-- * TcpServer (include/net/tcp_server.h, src/net/tcp_server.cpp): the map of connections and the
--   calls posted to loops, over LoopPool. TcpServer/Counts counts these calls, TcpServer/Balance says
--   what each operation does to the counts, TcpServer/Lifecycle is the life of the server as a step
--   relation, TcpServer/Placing is about `new_conn`, TcpServer/Accepting about the acceptor in front
--   of it, TcpServer/Naming about the names of connections.
--   TcpServer/Service puts the server, its connections and the loops together: in
--   TcpServer/Service/Phases stand the phases of a connection, TcpServer/Service/Counted,
--   TcpServer/Service/Opening, TcpServer/Service/Closing and TcpServer/Service/Kept follow them.
-- * FixedBuffer (include/log/fixedbuffer.h), LogStream (include/log/logstream.h,
--   src/log/logstream.cpp): the text that a log line is put together in. LogStream/Decimal is about
--   integers, LogStream/Insert about chains of `<<`.
-- * Logger (include/log/logging.h, src/log/logging.cpp): a log statement from its macro to the
--   output. Logger/Lines is about the line written, Logger/BaseName about the file name in it,
--   Logger/Session about statements one after the other.
-- * Time (include/common/time.h): a time as a text.
-- * Socket (include/net/socket.h, src/net/socket.cpp): a socket, with what the kernel keeps of it.
-- * Acceptor (include/net/acceptor.h, src/net/acceptor.cpp): the listening socket and its channel.
--   Acceptor/Listening is about its life and the accepted descriptors.
--
-- Bounds and fuel. Numbers are natural numbers, with the wrap-around of size_t and uint32_t written
-- out. The digits of an integer are produced on fuel 20, which is enough for 64 bits. The event loop
-- runs on no fuel: it takes the answers of epoll_wait as a list, one for each round, and its
-- result says whether it returned within them.
--
-- Answers of system calls (readv, write, accept, epoll_wait) are arguments; epoll, eventfd and the
-- functions on internet addresses are interfaces that state their documented behaviour. Logging calls
-- inside the network code have no effect on the state that is modelled. shutdown(2)
-- of a connection is taken to succeed. Not modelled: the type names of callbacks, which have no logic
-- of their own, and the addresses of a connection's ends, which are only logged.
pub mod Prelude
pub mod Buffer
pub mod Events
pub mod Chan
pub mod Poller
pub mod Eloop
pub mod Functor
pub mod LoopPool
pub mod Socket
pub mod Acceptor
pub mod TcpServer
pub mod FixedBuffer
pub mod LogStream
pub mod Logger
pub mod TcpConn
pub mod Reactor
pub mod Tpool
pub mod EloopThread
pub mod Thread
pub mod Address
pub mod Time
