-- ===== src/Accept/Serve.antt =====
-- One round of the loops that accept connections in server/server_tcp.go, server/server_kcp.go and
-- server/server_quic.go, the handler of server/server_ws.go, and `OnOpened` of
-- server/server_gnet.go: from the test of the limit to the connection whose `Start` is called.
pub mod Round
use gts.Base.{
  ℕ, ◌≡◌, refl, sym, ap, ◌∙◌, Bool, true, false, Option, none, some, List, [], ◌∷◌, leb,
  if◌then◌else◌, length,
}
use gts.Base.Map.{insert}
use gts.World.{
  Checker, unbound, idle, Connection, World, Outcome, returns, M, ◌>>=◌, ◌>>◌, pure, store, modify,
  at, at_laws, at-heap, at-locked, at-connections,
}
use gts.Registry.{len, add}
use gts.Registry.Laws.{add_eq}
use gts.Conn.{new_server_conn}
use gts.Heartbeat.{Heartbeat, bind_conn, clone}
use gts.Transport.Kcp.{new_kcp_server_conn}
use gts.Transport.Quic.{new_quic_server_conn}
use gts.Transport.Ws.{new_server_ws_conn}
use gts.Transport.Gnet.{new_g_server_conn}

-- What the server gives to each connection: its limit, whether its hooks are set, its checker, and
-- whether the socket will report an error when it is closed.
pub record Offer : Type 0 where
  pub max_conn : ℕ
  pub has_on_start : Bool
  pub has_on_stop : Bool
  pub hb : Option Heartbeat
  pub close_fails : Bool

-- A clone of the server's checker for the connection.
unfoldable pub bind_clone : Option Heartbeat → ℕ → M (Unit {0})
unfolding bind_conn clone
bind_clone none a = pure tt
bind_clone (some h) a = do bound ← bind_conn a (clone h); pure tt

-- What follows on the test: the client at the address that `Accept` gave, and the identifier that
-- `NextVal` gave; `none` stands for an error of either. The result is the connection to start.
unfoldable pub admit :
    (ℕ → ℕ → M (Unit {0})) → Option Heartbeat → Option ℕ → Option ℕ → M (Option ℕ)
unfolding bind_clone
admit new_conn hb none cid = pure none
admit new_conn hb (some a) none = pure none
admit new_conn hb (some a) (some conn_id) = do new_conn a conn_id; bind_clone hb a; pure (some a)

-- `if s.ConnMgr.Len() >= utils.Conf.MaxConn`
unfoldable pub under_limit : Offer → M (Option ℕ) → M (Option ℕ)
under_limit o go = do n ← len; if leb o.max_conn n then pure none else go

unfoldable pub serve_tcp : Offer → Option ℕ → Option ℕ → M (Option ℕ)
unfolding under_limit admit
serve_tcp o accepted cid = under_limit o (
    admit (λ a conn_id. new_server_conn a conn_id o.has_on_start o.has_on_stop o.close_fails) o.hb
      accepted cid)

unfoldable pub serve_kcp : Offer → Option ℕ → Option ℕ → M (Option ℕ)
unfolding under_limit admit
serve_kcp o accepted cid = under_limit o (
    admit (λ a conn_id. new_kcp_server_conn a conn_id o.has_on_start o.has_on_stop o.close_fails)
      o.hb accepted cid)

unfoldable pub serve_quic : Offer → Option ℕ → Option ℕ → M (Option ℕ)
unfolding under_limit admit
serve_quic o accepted cid = under_limit o (
    admit (λ a conn_id. new_quic_server_conn a conn_id o.has_on_start o.has_on_stop o.close_fails)
      o.hb accepted cid)

-- `upgradeWs`, with what `Upgrade` gave: no checker is bound.
unfoldable pub upgrade_ws : Offer → Option ℕ → Option ℕ → M (Option ℕ)
unfolding under_limit admit
upgrade_ws o upgraded cid = under_limit o (
    admit (λ a conn_id. new_server_ws_conn a conn_id o.has_on_start o.has_on_stop o.close_fails)
      none upgraded cid)

-- `OnOpened` of a connection that gnet has opened already.
unfoldable pub on_opened : Offer → ℕ → Option ℕ → M (Option ℕ)
unfolding under_limit admit
on_opened o opened cid = under_limit o (
    admit (λ a conn_id. new_g_server_conn a conn_id o.has_on_start o.has_on_stop o.close_fails) o.hb
      (some opened) cid)
