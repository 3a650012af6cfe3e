-- ===== src/Lib.antt =====
-- Verification of GTS, a TCP server framework in Go.
--
-- The program's parts. A server accepts connections (server/server_*.go), gives each an identifier
-- (utils/snowflake.go), puts it in a table (server/connmanager.go) and starts a reader, a writer and,
-- if asked to, a heartbeat checker for it (server/conn.go, heartbead/heartbeat.go). The reader takes
-- frames off the socket (message/datapack.go) and hands messages to handlers
-- (message/messagehandler.go), which run in a pool of goroutines (pool/). The folder epoll/ holds a
-- second server whose connections are read when epoll reports them.
--
-- The files.
--   Base.antt: shared names and lemmas: lists, Go maps as association lists (Map), 64-bit words
--     (Word, Bits), fallible results (Result), signed integers on native numbers (Int).
--   Message.antt: message/message.go and message/datapack.go. `pack`, `unpack` and `unpack_head` are
--     Pack, Unpack and UnpackHead on lists of bytes.
--   Stack.antt: pool/workerqueue.go, generic in the worker and the time when it was last used.
--   Pool.antt: pool/gpool.go and pool/worker.go. The state counts the goroutines at each point of
--     the code; Pool/Steps.antt has the events, each one step of one goroutine up to its next lock,
--     atomic operation or wait, and reachability by enabled events. The test of IsClosed in a round
--     of the purge is one step with its lock, and so are the two atomic reads of one condition,
--     and the load of the capacity with its store in Tune.
--   FuncPool.antt: pool/gpool_with_func.go and pool/worker_with_func.go, the pool that the handlers run
--     in. Each goroutine carries its argument; FuncPool/Refine.antt forgets the arguments, which gives a
--     run of Pool.antt, and FuncPool/Conserve.antt follows them.
--   Spin.antt: pool/spinLock.go.
--   Snowflake.antt: utils/snowflake.go. The clock is a list of readings.
--   World.antt: what the goroutines share: connections at addresses, the table and its lock, and the
--     outcome of a call, which returns, waits for ever or panics.
--   Registry.antt: server/connmanager.go; Registry/View.antt is its table up to the order of the entries.
--   Conn.antt: server/conn.go: construction, hooks and Stop; Conn/Reader.antt has StartReader,
--     Conn/Send.antt has Send and StartWriter, Conn/Property.antt has the properties and the
--     activity, Conn/Stream.antt has the readers of server/conn_kcp.go, server/conn_quic.go and
--     server/conn_ws.go. Conn/Stop.antt and Conn/Clear.antt are about Stop and ClearConn.
--     Conn/Race.antt has overlapping calls of Stop, up to the hook.
--   Transport.antt: iface/iconn.go, the methods of a connection and their laws; Transport/Tcp.antt,
--     Transport/Kcp.antt, Transport/Quic.antt, Transport/Ws.antt and Transport/Gnet.antt are the
--     connections of server/conn.go and its siblings; Transport/Ws/Lock.antt has the interleavings
--     of the reader and Stop over WebSocket.
--   Heartbeat.antt: heartbead/heartbeat.go, and Start of server/conn.go; Heartbeat/Timeline.antt has
--     heartbeats, ticks, rounds of the writer and changes of the settings over time.
--   Settings.antt: utils/init_settings.go.
--   App.antt: main.go, router/router.go and message/request.go. The handlers answer over any transport
--     that keeps the laws of Transport.antt; App/EndToEnd.antt joins them with the reader, the pool
--     and the writer.
--   Handler.antt: message/messagehandler.go; Handler/Queue.antt has its worker pool.
--   Server.antt: server/server.go. A method may also panic. Server/Listeners.antt has the four listeners
--     of server/server_tcp.go and its siblings, and how they meet `exitChan`.
--   GnetServer.antt: server/server_gnet.go. Client.antt: server/client.go, with the setting of the
--     process that it changes.
--   Accept.antt: the loops that accept connections, in server/server_tcp.go and its siblings, as
--     interleavings of the listeners and of WebSocket requests; Accept/Serve.antt has one round of each.
--   Epoll.antt: epoll/connmanger.go; Epoll/Poller.antt: epoll/epoll.go; Epoll/Serve.antt: Read
--     and StartReader of epoll/conn.go and the loop of epoll/server.go; Epoll/Writer.antt: StartWriter;
--     Epoll/Stop.antt: Stop of epoll/conn.go;
--     Epoll/Methods.antt: its other methods; Epoll/Listener.antt: epoll/server.go.
--   Logger.antt: the levels of utils/logger.go; Logger/File.antt: its log file, on a disk of folders
--     and files whose paths are lists of names; Logger/Decimal.antt: the numbers in a name.
--
-- Bounds. Lengths and identifiers of messages are kept below 2 ^ 32 and the identifiers of the
-- generator are 64-bit patterns; `cap` is an int32, the counters of the pool are unbounded numbers.
-- The search of Stack.antt takes a number of rounds, and the length of the stack is shown to be
-- enough; the reader of Conn/Reader.antt takes the number of rounds to look at, since its loop has
-- no end. Times are numbers, and subtraction of them stops at 0. A task of
-- the pool in Pool.antt is not nil; an argument of the one in FuncPool.antt may be.
--
-- Parameters. What the socket, EpollCtl, EpollWait, the clock, the user's hooks and handlers do is an
-- argument of the definitions or recorded as a notice. A call that waits for a channel or a lock that
-- no other goroutine of the model can serve is an outcome of its own.
--
-- A call of Stop of epoll/conn.go is one of a connection that was started, so that it has a context.
-- Chmod in utils/logger.go is taken to fail only where its folder could not be made.
--
-- Not modelled: what viper does, TLS and upgrades, listening, the permissions of folders, the protocol
-- buffer stub, newClientWsConn, which nothing calls, and the getters of addresses and sockets.
pub mod Base
pub mod Message
pub mod Stack
pub mod Pool
pub mod Snowflake
pub mod World
pub mod Registry
pub mod Conn
pub mod Heartbeat
pub mod Epoll
pub mod Handler
pub mod Logger
pub mod Accept
pub mod Spin
pub mod Server
pub mod FuncPool
pub mod Transport
pub mod GnetServer
pub mod Client
pub mod App
pub mod Settings
