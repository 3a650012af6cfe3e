-- ===== src/Client/Lifecycle.antt =====
-- A client of server/client.go from `Start` to `Stop`.
use gts.Base.{
  ℕ, ◌≡◌, refl, sym, ap, subst, arith, ◌∙◌, inl, inr, ◌⊎◌, Bool, false, Option, none, some, [],
}
use gts.Base.Int.{ℤ, pos}
use gts.World.{Checker, unbound, idle, Connection, World, ◌>>=◌, at, at_laws}
use gts.Conn.Stop.{stopped_world, stop_lem}
use gts.Heartbeat.{Heartbeat}
use gts.Heartbeat.Lifecycle.{started, start_conn_lem, heard_after, ends_open}
use gts.Server
use gts.Server.Lifecycle.{start_lem}
use gts.Client.{Client, Ran, done, waits, panics, bind_own, dialled, keep, start, ended, stop}

-- The client's connection, with its checker if it has one.
abbrev pub client_conn : Client → Bool → Connection
client_conn c close_fails = record {
  conn_id = 0;
  is_closed = false;
  has_manager = false;
  has_on_start = c.has_on_start;
  has_on_stop = c.has_on_stop;
  socket_closed = false;
  close_fails = close_fails;
  has_cancel = false;
  ctx_done = false;
  msg_chan = [];
  msg_cap = 0;
  property = [];
  checker = elim c.hb [ none ↦ unbound | some h ↦ idle ];
  last_activity_time = 0;
  notices = [];
}

abbrev pub bound_to : ℕ → Option Heartbeat → Option Heartbeat
bound_to a none = none
bound_to a (some h) = some (record h { conn = some a })

pub start_by :
    (now a : ℕ) (close_fails : Bool) (c : Client) (hb : Option Heartbeat) (w : World)
    → start now (some a) close_fails (record c { hb = hb }) w
      ≡ done
          (record c { conn = some a; hb = bound_to a hb })
          (pos 0)
          (at w a (started now (client_conn (record c { hb = hb }) close_fails)))
unfolding start dialled keep bind_own
start_by now a close_fails c none w =
    rw (start_conn_lem now a w (client_conn (record c { hb = none }) close_fails), ◌>>=◌) refl
start_by now a close_fails c (some h) w =
    simp at_laws
      (rw (start_conn_lem now a w (client_conn (record c { hb = some h }) close_fails), ◌>>=◌) refl)

-- `Stop` of what `Start` left.
abbrev pub then_stop : Ran → Ran
then_stop (done c size w) = stop c size w
then_stop (waits w) = waits w
then_stop panics = panics

stoppable :
    (hb : Option Heartbeat)
    → (elim hb as (λ _. Checker) [ none ↦ unbound | some h ↦ idle ] ≡ unbound)
      ⊎ (elim hb as (λ _. Checker) [ none ↦ unbound | some h ↦ idle ] ≡ idle)
stoppable none = inl refl
stoppable (some h) = inr refl

-- A client that has dialled, stopped after its start, has closed its connection and its socket and
-- called the hooks that are set, and its checker, if it has one, has ended; no table and no lock is
-- touched. Its start has set the size of the worker pool to 0 for the whole process.
pub start-then_stop :
    (now a : ℕ) (close_fails : Bool) (c : Client) (w : World)
    → then_stop (start now (some a) close_fails c w)
      ≡ done
          (record c { conn = some a; hb = bound_to a c.hb })
          (pos 0)
          (stopped_world w a (started now (client_conn c close_fails)))
unfolding stop ended
start-then_stop now a close_fails c w =
    ap then_stop (start_by now a close_fails c c.hb w)
    ∙ rw
        (
          stop_lem w a (started now (client_conn c close_fails)) refl (record {
            heard = heard_after (client_conn c close_fails).checker (stoppable c.hb);
            unlocked = λ h. absurd (ground arith);
            started = ends_open close_fails;
          }),
          ended,
        )
        refl

abbrev pub size_of : Ran → ℤ
size_of (done c size w) = size
size_of (waits w) = pos 0
size_of panics = pos 0

-- `NewServer` and `Start` of what it made.
abbrev pub made_and_started : Option Server.Server → World → Server.Ran
made_and_started none w = Server.panics
made_and_started (some s) w = Server.start s w

-- A server that is made from the settings that the start of a client in the same process has left
-- panics in its own `Start`.
pub start-server :
    (now a heartbeat_interval : ℕ) (close_fails tcp_mode ws_mode quic_mode kcp_mode : Bool)
    (c d : Client) (size : ℤ) (w v : World)
    → start now (some a) close_fails c w ≡ done d size v
    → made_and_started
        (Server.new_server tcp_mode ws_mode quic_mode kcp_mode size heartbeat_interval)
        v
      ≡ Server.panics
unfolding Server.new_server gts.Handler.new_msg_handle
start-server now a heartbeat_interval close_fails tcp_mode ws_mode quic_mode kcp_mode c d size w v
      e =
    let zero_size : size ≡ pos 0 =
      sym (ap size_of e) ∙ ap size_of (start_by now a close_fails c c.hb w) in
    subst
      (λ (n : ℤ).
        made_and_started
          (Server.new_server tcp_mode ws_mode quic_mode kcp_mode n heartbeat_interval) v
        ≡ Server.panics)
      (sym zero_size)
      (start_lem
        (record {
          tcp_mode = tcp_mode;
          ws_mode = ws_mode;
          quic_mode = quic_mode;
          kcp_mode = kcp_mode;
          worker_pool_size = pos 0;
          heartbeat_interval = heartbeat_interval;
          apis = [];
          hb = none;
          exit_chan = Server.no_chan;
          listeners = [];
        })
        v)
