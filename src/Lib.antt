-- ===== src/Lib.antt =====
-- A model of the Fish RPC library in C++, with the theorems that say what it does.
--
-- Parts and files
--
-- * Rpc/SeriBuf models Fish/rpc/serialize_buf.h and source/rpc/serialize_buf.cpp: the byte queue
--   behind a serialiser. Rpc/SeriBuf/Laws holds the theorems about its reads.
-- * Rpc/CppType has a type of codes for the C++ types that the templates are used at, and
--   Rpc/Containers what the standard containers do on insertion. Rpc/Serializer models
--   Fish/rpc/serializer.h over them: `shl` is `operator<<` and `shr` is `operator>>`, by recursion
--   on the type. Rpc/Serializer/Format says which bytes are written, RoundTrip and Sets what is
--   read back.
-- * Rpc/Signature models `findtype` and `findType` of Fish/rpc/rpc.h.
-- * Base/Timer models Fish/base/timer.h and source/base/timer.cpp: the wheel of tasks and the
--   turns of its loop. Wheel is about where a task is put, Runs about all timers that can be
--   reached, Sweep and Erasing about one turn; Start models `init` and `start`, Turning is about its
--   turns.
-- * Net/Uring models Fish/net/channel.h, source/net/channel.cpp, Fish/net/uring_io.h and
--   source/net/uring_io.cpp: the connections of a server over Net/Buffer, the requests that are
--   queued for the kernel, and the turns of the loop that handles completions. Loop has the turns.
--   Requests and Bounded are about how many requests the kernel has, Queues about which ones it
--   gets, Sending about texts that are sent, Unending about the completions of writes.
-- * Net/Buffer models Fish/net/buffer.h and source/net/buffer.cpp, the buffer of a connection; its
--   invariant stands in Net/Buffer/Queue.
-- * Rpc/Protocol models Fish/rpc/protocol.h and source/rpc/protocol.cpp: the header union, the
--   packets, and `create`, the state machine that reads a message from a view. Its children are
--   Header (the union), Machine (one call), Stuck (streams of views), OwnMessages and NeverReady
--   (what `create` makes of what `result` sends) and Packets.
-- * Rpc/ProtocolManager models `readMes` of source/rpc/protocol_manager.cpp, where the view of a
--   connection's buffer goes through `create` and the counted bytes are erased from the buffer.
--   Tracking is about the stored messages, Delivery about the one that is returned.
-- * Rpc/HeartManager models Fish/rpc/heart_manager.h and source/rpc/heart_manager.cpp: the list of
--   the last heartbeats (Window) and what is counted of them (Statistics).
-- * Provider models the templates of Fish/provider/rpc_provider.h: a table of methods that are run
--   on serialised arguments. Provider/Calls says what a caller gets back.
-- * Provider/Handlers models the handlers of source/provider/rpc_provider.cpp, and Provider/Server
--   puts them under the loop of Net/Uring as its callback; Net/Uring/Quiet is about a callback that
--   sends nothing.
-- * Provider/Serving models the constructor and `begin` of source/provider/rpc_provider.cpp over
--   Net/Server: a provider with all the threads of its server.
-- * Registry models Fish/registry/rpc_registry.h and source/registry/rpc_registry.cpp over
--   Rpc/ProtocolManager: what a message does to the list of providers.
-- * Base/SafeQueue models Fish/base/safe_queue.h.
-- * Base/Loop models Fish/base/loop.h and source/base/loop.cpp: a thread that runs one task and, in
--   between, the tasks that it was given. Tasks is about which of these are run, Ends and Once
--   are about how a loop ends, Keeps about what its tasks keep.
-- * Base/Mutex models the lock and the guard of Fish/base/sync/mutex.h, as steps of many threads;
--   Exclusion has the invariant.
-- * Base/FileRead and Base/LocalMessage model Fish/base/file_read.h, source/base/file_read.cpp,
--   Fish/base/local_message.h and source/base/local_message.cpp: the lines of a file, and the
--   configuration that is read from them. Printed and Parsed are about a configuration
--   that was printed.
-- * Base/TimePoint models source/base/timePoint.cpp, the texts of a time.
-- * Net/TcpAddr models Fish/net/tcp_addr.h and source/net/tcp_addr.cpp, and Net/Server models
--   Fish/net/tcp_server.h and source/net/tcp_server.cpp over Net/Uring, Net/TcpAddr and Base/Loop:
--   the socket that listens, and the connections. Accepting is about the clients,
--   Threads about what all threads of a server together do to the ring.
-- * Log/LogThread models Fish/base/log/log_thread.h and source/base/log/log_thread.cpp over
--   Base/SafeQueue: the buffers that go between the program's threads and the logger's. Blocks and
--   Appending are about appending a text, Steps about what the threads do under the lock, one after
--   the other, Turns about a turn of the logger's thread, and Entity models how the
--   single logger is made.
-- * Log/LogFile models Fish/base/log/log_file.h and source/base/log/log_file.cpp, with the calls of
--   the C library as a parameter.
-- * Log/Decimal models the conversion of integers in source/base/log/log_stream.cpp, and `getNum` of
--   source/base/log/log_file.cpp.
-- * Log/Buffer models Fish/base/log/log_buffer.h and .cpp, and the writing of texts and line ends of
--   Fish/base/log/log_stream.h and source/base/log/log_stream.cpp: Flow is about one operation,
--   Lines about whole lines.
-- * Log/Logger models Fish/base/log/logger.h and source/base/log/logger.cpp over Log/Buffer,
--   Log/Decimal and Base/TimePoint: what a statement of the log writes. Names is about the names in
--   a line, Statements about the front of a line, Printed about any number of statements.
-- * Prelude has the shared lists, integers, bytes, association lists and the type of outcomes.
--
-- Conventions
--
-- A call that may fail returns an `Outcome`: a failed assertion, an exception or an access outside
-- of an object is a fault. Bytes are numbers below 256, words are numbers with their wrap-around
-- written out, a signed integer is the number that its bits spell. Memory that C++ leaves
-- uninitialised is an argument of the definition that reads it. Words are little endian. Loops run
-- by recursion on the count that the source compares with. The loop of `writeMessage` and that of
-- `beginInCurrentThread` run for a given number of passes, and their theorems say which number is
-- enough; the loop over the lines of the configuration runs for one pass more than the file has
-- bytes, since each pass but the last takes a byte.
--
-- Not modelled: the use of locks outside of Base/Mutex (a call is one step; the second unlock of
-- `apendMessage` is a fault of it), output to the console, the system's side of sockets, of
-- io_uring, of threads and of files, clocks, floating-point numbers in a log stream, and the type
-- of coroutines. The order of a hash table is a parameter, so sets and maps that are hashed are
-- outside of the round trip. A variable that C++ initialises by itself, as in a fresh pair or
-- tuple, holds the parameter's value too, which may be zero.

pub mod Prelude
pub mod Base
pub mod Net
pub mod Rpc
pub mod Log
pub mod Registry
pub mod Provider
