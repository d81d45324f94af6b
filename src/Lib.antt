-- ===== src/Lib.antt =====
-- ch-cpp-utils: a library of C++ utilities (thread pool, timers, directory trees, a file system
-- watcher, a logger, TCP and HTTP servers and an HTTP client over libevent). These modules model
-- its logic.
--
-- The parts and how they interact. A directory tree (src/dirtree.cpp) keeps a pointer at each path;
-- the watcher (src/fs-watch.cpp) keeps in one what it watches, which it finds with a directory walk
-- (src/fts.cpp), and the HTTP router (src/http/server/http-router.cpp) keeps in one tree for each
-- method the routes of the server. The server (src/http/server) turns a request of libevent into an
-- event with headers, query and body and gives it to the handler of its route. The client
-- (src/http/client) keeps connections by host and port, sends requests on them and reads the bodies
-- of responses. Threads (src/thread.cpp) take jobs from the queue of their pool
-- (src/thread-pool.cpp) and agree with their owner over a semaphore (src/semaphore.cpp). Timers
-- (src/timer.cpp) and the TCP server and listener (src/tcp-server.cpp, src/tcp-listener.cpp) run
-- their event loops as jobs of such pools, the HTTP server repeats the queue, and ProcStat
-- (src/proc-stat.cpp) restarts a timer with each tick.
--
-- Base: strings as lists of bytes with find, rfind and substr; std::unordered_map as an association
-- list whose `emplace` does not overwrite, as insert does not; sets; Base.Split, the loop
-- that cuts a text at a separator, which DirTree::insert, search and drop and
-- RequestEvent::buildQueryMap repeat; Base.Decimal, std::to_string.
-- DirTree: Tokens (normalize, getNextToken, isLastToken), Node (class Node), Tree (insert, search,
-- hasChildren, drop, dropTree, dropChildCbk). The pointers of a node to its children are the children
-- themselves, which no one else points to. Proofs: Tokens.Laws and Tokens.Join on spellings,
-- Tree.Paths (the view of a tree as a map from paths to data), Tree.Insert, Tree.Search, Tree.Drop,
-- Tree.Keys (well-formed trees), Tree.Calls (the callbacks of drop).
-- Fts: class Fts, over the entries that fts_read yields. Proofs: Fts.Names (the parts of a name and
-- the kinds of entries), Fts.Laws.
-- FsWatch: State (addToTree, addWatch, dropCbk, removeWatch), Handlers (the handlers of events,
-- handleActivity, one round of the epoll loop, init, start), Outcome (how a step ends). Proofs:
-- Removal, Adding, Events, Invariant, and of whole rounds Rounds, Created, Written.
-- Http.Method, Http.Router: the methods and class Router. Proofs: Router.Table, Router.Routing.
-- Http.Query, Http.Server: class RequestEvent, readBody, onRequestEvent. Proofs: Query.Laws,
-- Server.Laws.
-- Http.Pool: HttpClientImpl and HttpConnection, with a pointer as a position in the heap. Proofs:
-- Pool.Steps, Pool.Invariant, Pool.Reached and Pool.Reuse, over all orders of calls,
-- Pool.Closing on what closeConnctions deletes, and Pool.Instances on the map of clients.
-- Http.Request, Http.Response: HttpRequest::open, setHeader, send and getResponseBody. Proofs:
-- Request.Arrival, Response.Body.
-- Http.Exchange: evHttpReqDone, which gives the connection back to the pool. Proofs:
-- Exchange.Connections.
-- Http.Client: a client of Http.Pool with the pool whose thread runs its event loop. Proofs:
-- Client.Life.
-- Http.Threads: HttpServer and HttpThread, with their queue and threads as a ThreadPool. Proofs:
-- Threads.Life.
-- ThreadPool: the queue and the loops of the threads, as steps in any order. Proofs:
-- ThreadPool.Steps, ThreadPool.Shutdown.
-- Thread: class Semaphore, and the start and the end of a thread. Proofs: Thread.Life.
-- Events: the event emitter of src/events.cpp. Proofs: Events.Firing.
-- Logger: the logger of src/ch-cpp-utils/logger.hpp and its thread, as steps in any order. Proofs:
-- Logger.History (the lines as a function of the calls), Logger.Streams, Logger.Order,
-- Logger.Shutdown.
-- Timer: src/timer.cpp over the thread pool, with the calls of libevent as a record. Proofs:
-- Timer.Libevent (what libevent asks of its callers), Timer.Ownership, Timer.Calls, Timer.Reached.
-- ProcStat: src/proc-stat.cpp, which reads /proc/<pid>/stat with each tick of a timer; ProcStat.Scan
-- is what it uses of sscanf. Proofs: ProcStat.Printed and ProcStat.Line (the line that the kernel
-- prints), ProcStat.Size, ProcStat.Ticks.
-- Tcp: src/tcp-server.cpp, and in Tcp.Listener src/tcp-listener.cpp. Proofs: Tcp.Steps,
-- Tcp.Streams, Tcp.Connections and Tcp.Serving, over everything that can happen to a server, in any order.
-- Config: src/config.cpp. Proofs: Config.Laws.
-- LinkedHashMap: src/ch-cpp-utils/linked-hash-map.hpp. Proofs: LinkedHashMap.Content.
-- Utils: replace, endsWith and directoryListing of src/utils.cpp; Utils.Uuid, generateUUID;
-- Utils.Files, fileExpired, the replies and daemonizeProcess. Proofs: Utils.Strings, Utils.Identity,
-- Utils.Zeros.
-- The modules Tests hold runs and the theorems at concrete inputs.
--
-- Bounds. The token loop runs on fuel of one more than the length of the text, since each round
-- but the last consumes a byte; std::to_string on fuel of one more than the number. An unsigned long
-- has 64 bits and a long 63 and a sign; getResponseBody stores a length in 32 bits. File descriptors
-- are numbers, with `none` for -1; a position that is npos is `none`. What C++ does not define (a
-- null pointer or an end iterator that is read) and exceptions are outcomes of their own.
--
-- The loop of generateUUID is recursion on the characters that are left.
--
-- Arguments of the model: what the kernel answers (inotify, epoll, fts, readdir, stat, accept, the
-- text of /proc), what libevent parses, reads and binds, whether a callback runs inside the event
-- loop, the values of rand(), and what the JSON library reads. evtimer_new and
-- evhttp_accept_socket_with_handle are taken to succeed. A step that a thread takes under a mutex
-- is one step of the model; reads that the code makes without the mutex are steps of their own or
-- part of the step behind them.
--
-- Not modelled: the release of memory, the event loops themselves, dates, and the copies of other
-- libraries (src/base64.cpp, src/ch-cpp-utils/third-party/json/json.hpp, mkpath in src/utils.cpp).
-- src/tcp-client.cpp has a constructor only.
pub mod Base
pub mod DirTree
pub mod Fts
pub mod FsWatch
pub mod Http
pub mod ThreadPool
pub mod Thread
pub mod Events
pub mod Utils
pub mod Logger
pub mod Timer
pub mod ProcStat
pub mod Tcp
pub mod Config
pub mod LinkedHashMap
