-- ===== src/Lib.antt =====
-- The server library linko: coroutine scheduling, timers, sockets, HTTP, configuration, logs.
-- This development models the parts below; the list at the end says what is proved of them.
--
-- The parts and their files (paths from the repository's root):
--   - ByteArray.antt: linko/bytearray.cc, a byte buffer in a chain of blocks: write, read,
--     setPosition, addCapacity, the iovec views. ByteArray/Invariant.antt has the well-formedness of
--     a buffer; the other children have the lemmas and theorems on each operation.
--   - Codec.antt: the typed reads and writes of linko/bytearray.cc and linko/endian.h, which stand
--     on ByteArray: zigzag, varint, fixed-width integers with a byte order, strings.
--   - Timer.antt: linko/timer.cc, the ordered set of timers and its manager. Timer/Order.antt to
--     Timer/Operations.antt treat the comparator, the set and the operations on one timer;
--     Timer/Collect.antt and Timer/Expiry.antt listExpiredCb; Timer/Wakeup.antt the protocol of
--     getNextTimer and onTimerInsertedAtFront.
--   - FdManager.antt: linko/fd_manager.cc, the contexts of file descriptors; FdManager/Access.antt has
--     get, del and the set-up of a context.
--   - Http.antt: linko/http/http.h and linko/http/http.cc. Http/Names.antt has the methods and statuses with their names,
--     Http/Headers.antt the maps of headers, Http/Dump.antt the text of requests and responses.
--   - IoManager.antt: linko/iomanager.cc, the events registered on descriptors. IoManager/Registration.antt
--     has the invariant and its preservation. IoManager/Idle.antt joins the events to
--     Timer.antt and Scheduler.antt, which the class inherits, in the round of idle.
--   - Fiber.antt: linko/fiber.cc and fiber.h, the states of a coroutine. Scheduler.antt: linko/scheduler.cc
--     and scheduler.h, the queue of tasks and the loop of `run`, whose body is cut into the search under the lock
--     (look), the switch to a fiber (dispatch), the switch back, the count of m_activeThreadCount and
--     what follows it (the phases of come_back).
--     Scheduler/System.antt composes the threads: any interleaving of these steps, of calls of schedule and of a
--     stop. Fibers stand in a store indexed by address, functions are numbers.
--     Scheduler/Fetch.antt is about the search, Scheduler/Keeps.antt and Scheduler/Safe.antt about what every
--     interleaving keeps.
--   - Servlet.antt: linko/http/servlet.cc and servlet.h, the registration of servlets and the choice of one for a
--     path, over the headers of Http.antt; fnmatch and the callbacks are parameters. Servlet/Routes.antt
--     is about the choice, Servlet/Handling.antt about the servlet for unknown paths.
--   - Stream.antt: linko/stream.cc, the loops of a fixed size over the answers of the stream's calls; the
--     loop is structural on the answers, and has no result while it has not ended at the last of them.
--   - HttpSession.antt: linko/http/http_session.cc, receiving a request over Stream.antt, with the generated
--     parser and the callbacks behind it as a record of functions. Its loops are structural on the answers of the socket.
--   - HttpConnection.antt: linko/http/http_connection.cc and http_connection.h, the pool of connections, with its
--     threads' calls in any order (HttpConnection/Pool.antt), and the headers of the requests built
--     (HttpConnection/Headers.antt). The clock, the state of the sockets and the addresses of new connections are
--     arguments.
--   - Log.antt: linko/log.cc and log.h, the levels, the pattern of a formatter (Log/Pattern.antt: printing and
--     reading; Log/Items.antt: its items), and which appenders write an event. The loop over a pattern runs on its
--     length as fuel, since every round takes a character at least. Log/Formatters.antt has the formatters
--     of the appenders that loggers share.
--   - Address.antt: linko/address.cc, how a host is split from its service (Address/Split.antt), and the
--     masks of prefixes (Address/Masks.antt), where the shift does not overflow; Address/Ipv6.antt has the text of
--     an IPv6 address.
--   - HttpParser.antt: linko/http/http_parser.cc, the callbacks of the generated parsers as events, in any order;
--     HttpParser/Events.antt is about what a request is after them.
--   - Config.antt: linko/config.h and config.cc, the settings by name (Config/Lookup.antt) and their listeners
--     (Config/Listeners.antt). Types and values are numbers, new settings stand at an address that is an argument.
--   - Uri.antt: linko/uri.h and the functions behind the generated parser in linko/uri.rl.cc: ports, path and text.
--   - Hook.antt: linko/hook.cc, the loop of do_io over the answers of the call and the wakes of the fiber.
--     Hook/Descriptors.antt has the hooks that make, set and close a descriptor; its `World` joins the
--     state of FdManager.antt and of IoManager.antt. Hook/Calls.antt has connect and the sleeps, which
--     stand on Timer.antt.
--   - Socket.antt: linko/socket.cc, a socket on the hooks of Hook/Descriptors.antt. Socket/Contexts.antt
--     has the invariant that joins a socket to the table of descriptors, Socket/Sequences.antt the
--     sequences of operations.
--   - TcpServer.antt: linko/tcp_server.cc, the sockets a server listens on and the clients it accepts.
--   - HttpServer.antt: linko/http/http_server.cc, the requests and responses of a connection.
--
-- Conventions of the models:
--   - numbers are natural numbers; a 32-bit or 64-bit sum or difference has its wrap-around
--     written out (% 2 ^ 64). Bytes are numbers, assumed below 256 where that matters;
--   - a pointer into a chain or a store is an index; a byte that nothing has written is the cell
--     `none`, and a read of it is the error `uninitialised`;
--   - an exception and a fault of the machine are errors of `Result` (Base/Errors.antt);
--   - a loop is structural recursion, or recursion on fuel: readers of varints run at most over the
--     bits of the number, `varint` has as many rounds as tmp has bytes, getReadBuffers as many as
--     there are bytes to cover, of which each round takes one at least. A decimal number is
--     printed with fuel one more than its value. A loop over the reads of a socket is structural on
--     what the reads answer, and has no result while it has not ended at the last answer. The loop of
--     handleClient has fuel for its rounds, and each round takes an answer at least.
--
-- Locks are not modelled. An operation that holds its mutex throughout is one atomic step. Where the
-- code shares state without the lock, the models do this:
--   - the loop of a thread of the scheduler is cut into the search under the lock, the switch to a
--     fiber, the switch back, the count of m_activeThreadCount, and the fiber scheduled again (the
--     phases in Scheduler.antt), between which other threads step. The switch tests the state of the
--     fiber and changes it in one step, and the thread's own idle fiber changes with
--     m_idleThreadCount;
--   - the three reads of IOManager::stopping are given the state of three moments;
--   - the pool's m_total is an atomic counter that getConnection changes after it has left the lock;
--     the model changes it in the same step. The pool is also given new connections at addresses that
--     no connection has had, so that the reuse of a deleted one's address is left out;
--   - a hooked call that waits is given how its fiber is woken; what other fibers do meanwhile is not
--     in the step. do_io takes it that the thread has a manager; a connect that has to wait is the
--     error `null_deref` where there is none.
--
-- Not modelled: file streams, formatting for debugging, generated parsers, YAML, the chunked bodies of
-- responses, and the parts that only call the system.
-- Code outside the repository (the clock, the system calls, fnmatch, getaddrinfo, callbacks) is a
-- parameter.
--
-- Modules named Runs hold the runs on concrete inputs, those named Samples what several of them use.
pub mod Address
pub mod Base
pub mod ByteArray
pub mod Codec
pub mod Config
pub mod FdManager
pub mod Fiber
pub mod Hook
pub mod Http
pub mod HttpConnection
pub mod HttpParser
pub mod HttpServer
pub mod HttpSession
pub mod IoManager
pub mod Log
pub mod Scheduler
pub mod Servlet
pub mod Socket
pub mod Stream
pub mod TcpServer
pub mod Timer
pub mod Uri
