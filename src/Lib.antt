-- ===== src/Lib.antt =====
-- A cloud storage server in C++: a small HTTP server on a TCP library (net/), and on it the
-- application that stores, lists, shares and serves files (application/http_upload.cc).
--
-- The parts and how they interact. Bytes arrive from a socket in a `Buffer` (net/Buffer.h,
-- net/Buffer.cc). The `HttpContext` of the connection parses them into an `HttpRequest`
-- (net/HttpContext.h, net/HttpContext.cc, net/HttpRequest.h). `HttpUploadHandler`
-- (application/http_upload.cc) answers with an `HttpResponse`, whose text goes into the output
-- buffer (net/HttpResponse.h). Between the two stands `HttpServer` (net/HttpServer.h,
-- net/HttpServer.cc), which is called with the bytes of a `TcpConnection`
-- (net/TcpConnection.h, net/TcpConnection.cc) and sends through it. The handlers of the
-- application ask a MySQL database, read and write files below uploads/, and keep an upload or
-- a download on the connection's context between requests.
--
-- Where each part is modelled:
--   Common/           bytes, texts, the map of headers, searches, lists over the native numbers.
--   Net/Buffer.antt   the storage with its two indices; a failed assert is `none`. Buffer/Regions
--                     has the well-formedness, Buffer/Refines and Buffer/Whole the operations
--                     against the readable bytes, Buffer/Runs runs of them.
--   Net/Request.antt  the request; map keys and values are bytes. Decode has the percent encoding.
--   Net/Context.antt  `processRequestLine`, `processHeaders`, `processBody`, `parseRequest`. The
--                     loop of `parseRequest` gets a number of rounds; a run that uses them up is
--                     `spins`. Context/Ends is about how many rounds it takes.
--   Net/Response.antt the response and its text.
--   Net/Server.antt   `onMessage`, `onRequest` and `onConnection` on one connection; the callback
--                     of the application is a parameter. Server/Answers is about a whole request,
--                     Server/Ready about what any message leaves, Server/Socket carries out
--                     what the server asks on the TcpConnection.
--   Net/Tcp.antt      `send`, `sendInLoop`, `handleWrite`, `handleClose`; Tcp/Life.antt has the other
--                     operations of TcpConnection and the events of its loop. The result of each
--                     system call is an argument. Tcp/Shape has the invariant; Tcp/Stream, Tcp/Open,
--                     Tcp/Lifecycle and Tcp/Steps go through the operations, Tcp/Runs through
--                     runs of events.
--   Net/RouteTrie.antt
--                     net/RouteTrie.h and net/RouteTrie.cc.
--   Net/Timers.antt   net/TimerQueue.h, net/TimerQueue.cc, net/Timer.h and net/Timer.cc with the
--                     heap of the timers; Timers/Firing has `handleRead` and `reset`. Agree, Found,
--                     Keeps, Steps and Expiry go through the operations, Runs through runs of them.
--   Net/Poller.antt   net/Channel.h, net/Channel.cc, net/Poller.cc and net/poller/EPollPoller.cc: which
--                     channels a loop knows and what the kernel watches. Poller/Agree has the
--                     invariant, Steps and Moves the operations, Runs runs of them.
--   Net/EventLoop.antt
--                     the functors of net/EventLoop.cc, with the calls of other threads as events.
--                     Fifo takes them as one queue, Wakeup is about the eventfd, Rounds about one
--                     round of the loop.
--   Net/Connector.antt
--                     net/Connector.h and net/Connector.cc. Sound has the invariant, Removes what
--                     takes the channel off the loop, Runs runs of events.
--   Net/TcpServer.antt
--                     net/TcpServer.cc and net/EventLoopThreadPool.cc: the map of connections, their
--                     names and their loops. Names is about the map, Balance about one event, Runs
--                     about runs of them and the destructor.
--   Base/AsyncLogging.antt
--                     base/AsyncLogging.h and base/AsyncLogging.cc: the buffers between the front
--                     end and the thread. Supply is about the spare buffers, Stored about the text,
--                     Runs about any interleaving.
--   Base/Date.antt    base/Date.cc; Calendar has the dates, RoundTrip the way there and back.
--   Base/LogStream.antt
--                     base/LogStream.h and base/LogStream.cc: the array of a log line and the
--                     conversion of numbers. Whole is about what is written.
--   App/World.antt    the state of the handler, the disk and the connection; exceptions and
--                     undefined behaviour as outcomes; the outside world as the record `Env`:
--                     MySQL (its answers are a function of all statements sent so far), JSON,
--                     std::hash, the random device, the clock, and what the file system allows.
--   App/Session, App/Account, App/Delete, App/Share, App/ShareAccess, App/Upload,
--   App/FileUpload, App/ListFiles, App/Permission, App/Range, App/Download, App/Reply, App/Text
--                     the handlers and their helpers, one function each. Permission/Policy says who
--                     may read a file, Download/Access whom the handlers serve it.
--   App/Guard         the session check in front of the handlers.
--   App/Routes        the route table and `onRequest`.
--
-- Bounds and fuel. Sizes are 64 bits where the source computes with them across a wrap
-- (the bytes left of a download, the end of a Range header), and atoi keeps its 32 bits.
-- A Content-Length is below 2 ^ 31 in the theorem on complete requests, since atoi reads it.
-- The loop over header lines has as many rounds as the buffer has bytes, and each line takes two.
-- `send_all` gets a number of calls of the write-complete callback; one more than the bytes that
-- are left is enough.
-- A server numbers fewer than 2 ^ 31 connections. Dates are computed in 32-bit integers, where
-- an overflow is `none`, and the theorem on them is for the years 1900 to 2500. The buffers
-- of the log have any size in the theorems, and 4000000 bytes in the code.
-- A run of events on a connection is a list, and a callback that calls the connection back is
-- a later event of it. A `write` that returns zero for a text that is not empty does not
-- happen. Times are whole microseconds that do not overflow, and all timer requests are made
-- in the thread of the loop. Twenty decimal and sixteen hexadecimal digits hold every 64-bit
-- number.
--
-- The kernel is a parameter where the code asks it for what it remembers: the interest list of
-- epoll with what epoll_ctl does to it, and the eventfd, which is readable once it is written.
-- The C++ threads appear as events between the pieces of work that a lock or a loop makes whole.
--
-- Not modelled: the poll(2) poller, the acceptor and TcpClient, the calls of sockets, threads,
-- queues, times and files of net/ and base/; the operators of LogStream that call snprintf; the
-- connection to MySQL at the start; failing writes to a file that is open; the exception of
-- nlohmann::json on a text that is not UTF-8 (`dump` gives a text for every value); the web pages
-- and the build output.
pub mod Common
pub mod Base
pub mod Net
pub mod App
