-- ===== src/Server/Listeners/Stopped.antt =====
-- What the listeners of a stopped server still accept.
use gts.Base.{
  ℕ, ◌≡◌, Bool, true, false, Option, none, some, List, [], ◌∷◌, leb, length, if◌then◌else◌,
}
use gts.World.{World}
use gts.Heartbeat.{Heartbeat}
use gts.Accept.Serve.{Offer}
use gts.Accept.Serve.Round.{admitted, with_admitted}
use gts.Server.{closed_chan, tcp, web_socket, quic, kcp}
use gts.Server.Listeners.{Net, is_listening, Event, starts, closes, sees_exit, accepts}

-- The world behind a request over WebSocket.
abbrev pub joined : Offer → Option ℕ → Option ℕ → World → World
joined o none cid w = w
joined o (some a) none w = w
joined o (some a) (some conn_id) w =
    if leb o.max_conn (length w.connections)
    then w
    else with_admitted w a (admitted 1024 o none conn_id)

-- The world behind the requests over WebSocket among some events, and nothing else.
abbrev pub web_world : Offer → List Event → World → World
web_world o [] w = w
web_world o (accepts web_socket accepted cid ∷ es) w = web_world o es (joined o accepted cid w)
web_world o (_ ∷ es) w = web_world o es w

-- Nothing is started or stopped once more.
abbrev pub goes_on : List Event → Bool
goes_on [] = true
goes_on (starts l success ∷ es) = false
goes_on (closes ∷ es) = false
goes_on (sees_exit l ∷ es) = goes_on es
goes_on (accepts l accepted cid ∷ es) = goes_on es

-- `exitChan` is closed, and the listeners that look at it have seen it.
pub record Stopped (n : Net) : Type 0 where
  pub closed : n.exit_chan ≡ closed_chan
  pub tcp_ended : is_listening (n.phase tcp) ≡ false
  pub quic_ended : is_listening (n.phase quic) ≡ false
  pub kcp_ended : is_listening (n.phase kcp) ≡ false
