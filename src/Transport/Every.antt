-- ===== src/Transport/Every.antt =====
-- The five kinds of connection.
use gts.Base.{List, [], ◌∷◌, false}
use gts.Stack.Sorted.{All}
use gts.Transport.{ConnectionOps, IsConnection}
use gts.Transport.Tcp
use gts.Transport.Kcp
use gts.Transport.Quic
use gts.Transport.Gnet
use gts.Transport.Ws
use gts.Transport.Ws.Laws

-- Those over TCP, KCP, QUIC and gnet, and the one over WebSocket between two messages.
abbrev pub transports : List ConnectionOps
transports = Tcp.ops ∷ Kcp.ops ∷ Quic.ops ∷ Gnet.ops ∷ Ws.ops false ∷ []

-- Each of the five kinds of connection keeps the laws of a connection: `Stop` of a connection that was
-- started closes it and its socket, calls its hook once and takes it out of the table, a second one
-- changes nothing, and where the writer's socket fails the writer does the same; a closed
-- connection is not alive and takes no message, an open one queues each behind those that wait,
-- and the writer writes them in that order until it is stopped; the properties are a map. Of a
-- WebSocket connection this holds while its reader is not in `ReadMessage`.
pub transports-IsConnection : All IsConnection transports
transports-IsConnection = (
  Tcp.ops-IsConnection,
  (
    Kcp.ops-IsConnection,
    (Quic.ops-IsConnection, (Gnet.ops-IsConnection, (Laws.ops-IsConnection, tt))),
  ),
)
