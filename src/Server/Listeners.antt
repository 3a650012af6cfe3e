-- ===== src/Server/Listeners.antt =====
-- The listeners that `Start` of server/server.go sets going, in server/server_tcp.go,
-- server/server_kcp.go, server/server_quic.go and server/server_ws.go, and how they meet `exitChan`.
pub mod Stopped
use gts.Base.{ℕ, Bool, true, false, Option, none, some, List, [], ◌∷◌, ◌&&◌, if◌then◌else◌}
use gts.World.{World, Outcome, M, ◌>>=◌, ◌>>◌, pure}
use gts.Accept.Serve.{Offer, serve_tcp, serve_kcp, serve_quic, upgrade_ws}
use gts.Server.{ExitChan, no_chan, open_chan, closed_chan, Listener, tcp, web_socket, quic, kcp}

-- A listener that is not there or could not listen; one whose socket is open; and one whose socket
-- was closed when it saw `exitChan`, while the goroutine that accepts goes on.
pub data Phase : Type 0 where
  down listening shut : Phase

-- `exitChan`, and where each listener stands.
pub record Net : Type 0 where
  pub exit_chan : ExitChan
  pub phase : Listener → Phase

abbrev pub same : Listener → Listener → Bool
same tcp tcp = true
same web_socket web_socket = true
same quic quic = true
same kcp kcp = true
same _ _ = false

abbrev pub put : Listener → Phase → Net → Net
put l p n = record n { phase = λ k. if same l k then p else n.phase k }

abbrev pub is_listening : Phase → Bool
is_listening listening = true
is_listening _ = false

-- The start of a listener, and whether it could listen. `ListenAndServe` waits for its requests.
unfoldable pub start_server : Listener → Bool → Net → Net
start_server l true n = put l listening n
start_server l false n = n

abbrev pub is_closed : ExitChan → Bool
is_closed closed_chan = true
is_closed _ = false

-- The `select` on `exitChan` and the listener's `Close` behind it. The WebSocket listener has none.
unfoldable pub see_exit : Listener → Net → Net
see_exit web_socket n = n
see_exit l n = if is_closed n.exit_chan && is_listening (n.phase l) then put l shut n else n

-- A round of the loop that accepts, or the handler of a request.
unfoldable pub serve_of : Listener → Offer → Option ℕ → Option ℕ → M (Option ℕ)
unfolding serve_tcp serve_kcp serve_quic upgrade_ws
serve_of tcp o accepted cid = serve_tcp o accepted cid
serve_of web_socket o accepted cid = upgrade_ws o accepted cid
serve_of quic o accepted cid = serve_quic o accepted cid
serve_of kcp o accepted cid = serve_kcp o accepted cid

-- Accepting from a closed socket is an error, behind which the loop goes on.
unfoldable pub accept_round : Offer → Listener → Phase → Option ℕ → Option ℕ → M (Option ℕ)
unfolding serve_of
accept_round o l down accepted cid = pure none
accept_round o l listening accepted cid = serve_of l o accepted cid
accept_round o l shut accepted cid = serve_of l o none none

pub data Event : Type 0 where
  -- The goroutine of a listener starts.
  starts : Listener → Bool → Event
  -- `Stop` closes `exitChan`.
  closes : Event
  sees_exit : Listener → Event
  -- What `Accept`, or `Upgrade`, and `NextVal` give in a round.
  accepts : Listener → Option ℕ → Option ℕ → Event

unfoldable pub step : Offer → Event → Net → M Net
unfolding start_server see_exit accept_round
step o (starts l success) n = pure (start_server l success n)
step o closes n = pure (record n { exit_chan = closed_chan })
step o (sees_exit l) n = pure (see_exit l n)
step o (accepts l accepted cid) n = do r ← accept_round o l (n.phase l) accepted cid; pure n

unfoldable pub run : Offer → List Event → Net → M Net
unfolding step
run o [] n = pure n
run o (e ∷ es) n = do m ← step o e n; run o es m
