-- ===== src/Accept/Serve/Round.antt =====
-- What one round of each listener of the server comes to.
use gts.Base.{
  ℕ, ◌≡◌, refl, ap, ◌∙◌, Bool, true, false, Option, none, some, [], leb, if◌then◌else◌, length,
}
use gts.Base.Map.{insert}
use gts.World.{
  Checker, unbound, idle, Connection, World, Outcome, returns, M, ◌>>=◌, pure, at, at_laws, at-heap,
  at-locked, at-connections,
}
use gts.Registry.{len, add}
use gts.Registry.Laws.{add_eq}
use gts.Conn.{new_server_conn}
use gts.Heartbeat.{Heartbeat, bind_conn}
use gts.Transport.Kcp.{new_kcp_server_conn}
use gts.Transport.Quic.{new_quic_server_conn}
use gts.Transport.Ws.{new_server_ws_conn}
use gts.Transport.Gnet.{new_g_server_conn}
use gts.Accept.Serve.{
  Offer, bind_clone, admit, under_limit, serve_tcp, serve_kcp, serve_quic, upgrade_ws, on_opened,
}

-- A connection as its constructor makes it, with a channel of the given size.
abbrev pub fresh : ℕ → Offer → ℕ → Connection
fresh msg_cap o conn_id = record {
  conn_id = conn_id;
  is_closed = false;
  has_manager = true;
  has_on_start = o.has_on_start;
  has_on_stop = o.has_on_stop;
  socket_closed = false;
  close_fails = o.close_fails;
  has_cancel = false;
  ctx_done = false;
  msg_chan = [];
  msg_cap = msg_cap;
  property = [];
  checker = unbound;
  last_activity_time = 0;
  notices = [];
}

abbrev pub checker_of : Option Heartbeat → Checker
checker_of none = unbound
checker_of (some h) = idle

-- The connection that is in the table when it is started.
abbrev pub admitted : ℕ → Offer → Option Heartbeat → ℕ → Connection
admitted msg_cap o hb conn_id = record (fresh msg_cap o conn_id) { checker = checker_of hb }

-- The world with it at `a`.
abbrev pub with_admitted : World → ℕ → Connection → World
with_admitted w a c = record (at w a c) {
  connections = insert c.conn_id a w.connections;
  locked = false;
}

-- What a round comes to.
abbrev pub outcome : ℕ → Offer → Option Heartbeat → Option ℕ → Option ℕ → World → Outcome (Option ℕ)
outcome msg_cap o hb none cid w = returns none (record w { locked = false })
outcome msg_cap o hb (some a) none w = returns none (record w { locked = false })
outcome msg_cap o hb (some a) (some conn_id) w =
    returns (some a) (with_admitted w a (admitted msg_cap o hb conn_id))

bind_clone-eq :
    (hb : Option Heartbeat) (w : World) (a conn_id msg_cap : ℕ) (o : Offer)
    → bind_clone hb a (with_admitted w a (fresh msg_cap o conn_id))
      ≡ returns tt (with_admitted w a (admitted msg_cap o hb conn_id))
unfolding bind_clone bind_conn
bind_clone-eq none w a conn_id msg_cap o = refl
bind_clone-eq (some h) w a conn_id msg_cap o = simp at_laws

if_at {ℓ} :
    {A : Type ℓ} (b : Bool) (m n : M A) (w : World)
    → (if b then m else n) w ≡ (if b then m w else n w)
if_at true m n w = refl
if_at false m n w = refl

under_limit-eq :
    (o : Offer) (go : M (Option ℕ)) (w : World)
    → w.locked ≡ false
    → under_limit o go w ≡ (
        if leb o.max_conn (length w.connections)
        then returns none (record w { locked = false })
        else go (record w { locked = false }))
unfolding under_limit len
under_limit-eq o go w f =
    rw f
      (if_at (leb o.max_conn (length w.connections)) (pure none) go (record w { locked = false }))

-- What a constructor of a connection comes to, from a free lock.
abbrev pub Constructs : ℕ → Offer → (ℕ → ℕ → M (Unit {0})) → Type 0
Constructs msg_cap o new_conn =
    (w : World) (a conn_id : ℕ)
    → w.locked ≡ false
    → new_conn a conn_id w ≡ returns tt (with_admitted w a (fresh msg_cap o conn_id))

admit-eq :
    (msg_cap : ℕ) (o : Offer) (new_conn : ℕ → ℕ → M (Unit {0}))
    → Constructs msg_cap o new_conn
    → (hb : Option Heartbeat) (accepted cid : Option ℕ) (w : World) → w.locked ≡ false
    → admit new_conn hb accepted cid w ≡ outcome msg_cap o hb accepted cid w
unfolding admit
admit-eq msg_cap o new_conn k hb none cid w f =
    ap (λ (l : Bool). returns none (record w { locked = l })) f
admit-eq msg_cap o new_conn k hb (some a) none w f =
    ap (λ (l : Bool). returns none (record w { locked = l })) f
admit-eq msg_cap o new_conn k hb (some a) (some conn_id) w f =
    rw (k w a conn_id f, ◌>>=◌) (rw (bind_clone-eq hb w a conn_id msg_cap o, ◌>>=◌) refl)

-- A round of a listener whose constructor gives channels of the size `msg_cap`.
abbrev pub round : ℕ → Offer → Option Heartbeat → Option ℕ → Option ℕ → World → Outcome (Option ℕ)
round msg_cap o hb accepted cid w =
    if leb o.max_conn (length w.connections)
    then returns none (record w { locked = false })
    else outcome msg_cap o hb accepted cid w

add-fresh :
    (msg_cap : ℕ) (o : Offer) (w : World) (a conn_id : ℕ)
    → w.locked ≡ false
    → add a (at w a (fresh msg_cap o conn_id))
      ≡ returns tt (with_admitted w a (fresh msg_cap o conn_id))
add-fresh msg_cap o w a conn_id f =
    rw
      (
        add_eq a (at w a (fresh msg_cap o conn_id)) (at-locked w a (fresh msg_cap o conn_id) ∙ f),
        at-heap w a (fresh msg_cap o conn_id),
        at-connections w a (fresh msg_cap o conn_id),
      )
      refl

outcome-unlocked :
    (msg_cap : ℕ) (o : Offer) (hb : Option Heartbeat) (accepted cid : Option ℕ) (w : World)
    → outcome msg_cap o hb accepted cid (record w { locked = false })
      ≡ outcome msg_cap o hb accepted cid w
unfolding at
outcome-unlocked msg_cap o hb none cid w = refl
outcome-unlocked msg_cap o hb (some a) none w = refl
outcome-unlocked msg_cap o hb (some a) (some conn_id) w = refl

module _ (o : Offer) where
  new_server_conn-Constructs :
      Constructs 1024 o
        (λ a conn_id. new_server_conn a conn_id o.has_on_start o.has_on_stop o.close_fails)
  unfolding new_server_conn
  new_server_conn-Constructs w a conn_id f = add-fresh 1024 o w a conn_id f

  new_kcp_server_conn-Constructs :
      Constructs 0 o
        (λ a conn_id. new_kcp_server_conn a conn_id o.has_on_start o.has_on_stop o.close_fails)
  unfolding new_kcp_server_conn
  new_kcp_server_conn-Constructs w a conn_id f = add-fresh 0 o w a conn_id f

  new_quic_server_conn-Constructs :
      Constructs 0 o
        (λ a conn_id. new_quic_server_conn a conn_id o.has_on_start o.has_on_stop o.close_fails)
  unfolding new_quic_server_conn
  new_quic_server_conn-Constructs w a conn_id f = add-fresh 0 o w a conn_id f

  new_server_ws_conn-Constructs :
      Constructs 1024 o
        (λ a conn_id. new_server_ws_conn a conn_id o.has_on_start o.has_on_stop o.close_fails)
  unfolding new_server_ws_conn
  new_server_ws_conn-Constructs w a conn_id f = add-fresh 1024 o w a conn_id f

  new_g_server_conn-Constructs :
      Constructs 1024 o
        (λ a conn_id. new_g_server_conn a conn_id o.has_on_start o.has_on_stop o.close_fails)
  unfolding new_g_server_conn
  new_g_server_conn-Constructs w a conn_id f = add-fresh 1024 o w a conn_id f

listens :
    (msg_cap : ℕ) (o : Offer) (new_conn : ℕ → ℕ → M (Unit {0})) (hb : Option Heartbeat)
    (accepted cid : Option ℕ) (w : World)
    → Constructs msg_cap o new_conn
    → w.locked ≡ false
    → under_limit o (admit new_conn hb accepted cid) w ≡ round msg_cap o hb accepted cid w
listens msg_cap o new_conn hb accepted cid w k f =
    under_limit-eq o (admit new_conn hb accepted cid) w f
    ∙ ap
        (λ (r : Outcome (Option ℕ)).
          if leb o.max_conn (length w.connections)
          then returns none (record w { locked = false })
          else r)
        (admit-eq msg_cap o new_conn k hb accepted cid (record w { locked = false }) refl
          ∙ outcome-unlocked msg_cap o hb accepted cid w)

module _ (o : Offer) (cid : Option ℕ) (w : World) (free : w.locked ≡ false) where
  -- From a free lock, a round of each listener leaves everything as it is when the table has reached
  -- the limit, or when accepting or the identifier fails; otherwise the new connection, open and not
  -- started, is in the table under its identifier. A checker that is not started is bound to it if
  -- the server has one, except over WebSocket, where none is. The channel of a connection has room
  -- for 1024 messages over TCP, WebSocket and gnet, and for none over KCP and QUIC.
  pub serve-round :
      (accepted : Option ℕ) (opened : ℕ)
      → (serve_tcp o accepted cid w ≡ round 1024 o o.hb accepted cid w)
        × (serve_kcp o accepted cid w ≡ round 0 o o.hb accepted cid w)
        × (serve_quic o accepted cid w ≡ round 0 o o.hb accepted cid w)
        × (upgrade_ws o accepted cid w ≡ round 1024 o none accepted cid w)
        × (on_opened o opened cid w ≡ round 1024 o o.hb (some opened) cid w)
  unfolding serve_tcp serve_kcp serve_quic upgrade_ws on_opened
  serve-round accepted opened = (
    listens 1024 o _ o.hb accepted cid w (new_server_conn-Constructs o) free,
    listens 0 o _ o.hb accepted cid w (new_kcp_server_conn-Constructs o) free,
    listens 0 o _ o.hb accepted cid w (new_quic_server_conn-Constructs o) free,
    listens 1024 o _ none accepted cid w (new_server_ws_conn-Constructs o) free,
    listens 1024 o _ o.hb (some opened) cid w (new_g_server_conn-Constructs o) free,
  )
