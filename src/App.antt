-- ===== src/App.antt =====
-- main.go, the routers of router/router.go and router/heartbeatrouter.go, and the request of
-- message/request.go. The handlers answer on whatever connection the request came on.
pub mod Answers
pub mod EndToEnd
pub mod Startup
mod Tests
use gts.Base.{
  ℕ, zero, suc, Bool, true, false, Option, none, some, List, [], ◌∷◌, ◌++◌, ◌==◌, if◌then◌else◌,
}
use gts.Base.Int.{pos_part}
use gts.World.{Connection, World, Outcome, returns, M, ◌>>=◌, ◌>>◌, pure, load, store}
use gts.Message.{Message}
use gts.Conn.Property.{set_property, get_property}
use gts.Handler.{Call, pre_handle, handle, post_handle, do_msg_handler}
use gts.Server.{Server, Ran, done, waits, panics, new_server, add_handler, start}
use gts.Settings.{AppConfig, get_heartbeat_interval, init_settings}
use gts.Transport.{ConnectionOps, written}

-- A request: the address of its connection, and its message.
pub record Request : Type 0 where
  pub conn : ℕ
  pub msg : Message

unfoldable pub get_data : Request → List ℕ
get_data r = r.msg.body

unfoldable pub get_msg_id : Request → ℕ
get_msg_id r = r.msg.id

-- "ping...ping...ping\n"
abbrev pub ping_text : List ℕ
ping_text =
    112 ∷ 105 ∷ 110 ∷ 103 ∷ 46 ∷ 46 ∷ 46 ∷ 112 ∷ 105 ∷ 110 ∷ 103 ∷ 46 ∷ 46 ∷ 46 ∷ 112 ∷ 105 ∷ 110
    ∷ 103 ∷ 10 ∷ []

-- "ping2...ping2...ping2\n"
abbrev pub ping2_text : List ℕ
ping2_text =
    112 ∷ 105 ∷ 110 ∷ 103 ∷ 50 ∷ 46 ∷ 46 ∷ 46 ∷ 112 ∷ 105 ∷ 110 ∷ 103 ∷ 50 ∷ 46 ∷ 46 ∷ 46 ∷ 112
    ∷ 105 ∷ 110 ∷ 103 ∷ 50 ∷ 10 ∷ []

-- The routers are known by numbers.
abbrev pub ping_router : ℕ
ping_router = 1

abbrev pub ping2_router : ℕ
ping2_router = 2

-- The strings of the properties are numbers.
abbrev pub name : ℕ
name = 0

abbrev pub key1 : ℕ
key1 = 1

abbrev pub key2 : ℕ
key2 = 2

abbrev pub key3 : ℕ
key3 = 3

-- `handleStart`, with the values of its four properties.
unfoldable pub handle_start : ℕ → ℕ → ℕ → ℕ → Connection → Connection
unfolding set_property
handle_start st test1 test2 test3 c =
    set_property key3 test3
      (set_property key2 test2 (set_property key1 test1 (set_property name st c)))

-- `handleStop`: what it prints of the properties.
unfoldable pub handle_stop : Connection → List (Option ℕ)
unfolding get_property
handle_stop c =
    get_property name c ∷ get_property key1 c ∷ get_property key2 c ∷ get_property key3 c ∷ []

module _ (ops : ConnectionOps) where
  -- `request.GetConnection().Send(1, text)`; an error of it is printed.
  unfoldable pub reply : List ℕ → ℕ → M (Unit {0})
  reply text a = do c ← load a; store a (ops.send c 1 text).1

  -- `Handle` of the router with a number. That of the base router and of the heartbeat's router
  -- sends nothing.
  unfoldable pub handle_by : ℕ → ℕ → M (Unit {0})
  unfolding reply
  handle_by router a =
      if router == ping_router
      then reply ping_text a
      else if router == ping2_router
      then reply ping2_text a
      else pure tt

  -- `PreHandle` and `PostHandle` are those of the base router, which are empty.
  unfoldable pub perform : ℕ → Call → M (Unit {0})
  unfolding handle_by
  perform a (pre_handle router m) = pure tt
  perform a (handle router m) = handle_by router a
  perform a (post_handle router m) = pure tt

  unfoldable pub performs : ℕ → List Call → M (Unit {0})
  unfolding perform
  performs a [] = pure tt
  performs a (c ∷ cs) = perform a c >> performs a cs

  -- `DoMsgHandler` of a request, and of requests in the order in which they call `Send`.
  unfoldable pub serve : List (ℕ × ℕ) → Request → M (Unit {0})
  unfolding performs
  serve apis r = performs r.conn (do_msg_handler apis r.msg)

  unfoldable pub serve_all : List (ℕ × ℕ) → List Request → M (Unit {0})
  unfolding serve
  serve_all apis [] = pure tt
  serve_all apis (r ∷ rs) = serve apis r >> serve_all apis rs

  -- Rounds of the connection's writer whose writes take the whole, and the bytes that they wrote.
  unfoldable pub drain : ℕ → ℕ → M (List ℕ)
  drain zero a = pure []
  drain (suc n) a = do r ← ops.writer_round (written none) a; more ← drain n a; pure (r.0 ++ more)

-- The calls of `AddRouter` in `main`.
abbrev pub app_routers : List (ℕ × ℕ)
app_routers = (1, ping_router) ∷ (2, ping2_router) ∷ []

unfoldable pub and_then : Ran → (Server → World → Ran) → Ran
and_then (done s w) f = f s w
and_then (waits w) f = waits w
and_then panics f = panics

-- `NewServer` with the settings.
abbrev pub server_of : AppConfig → Option Server
server_of g =
    new_server g.tcp_mode g.ws_mode g.quic_mode g.kcp_mode g.worker_pool_size
      (pos_part (get_heartbeat_interval g))

-- `main` behind `InitSettings`, up to the wait for a signal in `Serve`.
unfoldable pub main_with : AppConfig → World → Ran
unfolding and_then
main_with g w = elim (server_of g) [
  | none ↦ panics
  | some s ↦
      and_then (add_handler 1 ping_router s w)
        (λ t v. and_then (add_handler 2 ping2_router t v) start)
]

module _ {ℓ} {Raw : Type ℓ} (unmarshal : Raw → AppConfig → Bool × AppConfig) where
  unfoldable pub main : Option Raw → AppConfig → World → Ran
  unfolding main_with init_settings
  main raw conf w = elim (init_settings unmarshal raw conf) [
    | none ↦ panics
    | some g ↦ main_with g w
  ]
