-- ===== src/App/Startup.antt =====
-- The start of the program of main.go, and the hooks that it sets.
use gts.Base.{
  ℕ, arith, Bool, true, false, ◌≡◌, refl, ap, ◌∙◌, some, List, ◌++◌, [], ◌∷◌, Option, none,
  if◌then◌else◌,
}
use gts.Base.Int.{ℤ, pos, negsuc, pos_part, leb_ℤ}
use gts.Base.Map.{lookup, insert, lookup-insert}
use gts.World.{Connection, World}
use gts.Server.{
  Server, Ran, Listener, tcp, web_socket, quic, kcp, done, panics, new_server, only, listen, start,
  no_chan, open_chan, add_handler,
}
use gts.Server.Lifecycle.{start_lem}
use gts.Handler.{new_msg_handle, add_router}
use gts.Settings.{AppConfig, get_heartbeat_interval, init_settings}
use gts.App.{main, main_with, and_then, ping_router, ping2_router, handle_start, handle_stop}

-- The setting of each listener, and the listeners whose setting is on.
abbrev pub mode_of : AppConfig → Listener → Bool
mode_of g tcp = g.tcp_mode
mode_of g web_socket = g.ws_mode
mode_of g quic = g.quic_mode
mode_of g kcp = g.kcp_mode

abbrev pub chosen : AppConfig → List Listener → List Listener
chosen g [] = []
chosen g (l ∷ ls) = let rest = chosen g ls in if mode_of g l then l ∷ rest else rest

-- The running server of the settings: its two routers, and its listeners.
abbrev pub running : AppConfig → Server
running g = record {
  tcp_mode = g.tcp_mode;
  ws_mode = g.ws_mode;
  quic_mode = g.quic_mode;
  kcp_mode = g.kcp_mode;
  worker_pool_size = g.worker_pool_size;
  heartbeat_interval = pos_part (get_heartbeat_interval g);
  apis = (1, ping_router) ∷ (2, ping2_router) ∷ [];
  hb = none;
  exit_chan = open_chan;
  listeners = chosen g (tcp ∷ web_socket ∷ quic ∷ kcp ∷ []);
}

only-append :
    (b : Bool) (l : Listener) (ls : List Listener) → only b l ++ ls ≡ (if b then l ∷ ls else ls)
only-append true l ls = refl
only-append false l ls = refl

only_if : (b : Bool) (l : Listener) → only b l ≡ (if b then l ∷ [] else [])
only_if true l = refl
only_if false l = refl

listen_lem : (g : AppConfig) → listen (record (running g) { listeners = [] }) ≡ running g
unfolding listen
listen_lem g =
    ap (λ ls. record (running g) { listeners = ls })
      (only-append g.tcp_mode tcp
          (only g.ws_mode web_socket ++ (only g.quic_mode quic ++ only g.kcp_mode kcp))
        ∙ rw
            (
              only-append g.ws_mode web_socket (only g.quic_mode quic ++ only g.kcp_mode kcp),
              only-append g.quic_mode quic (only g.kcp_mode kcp),
              only_if g.kcp_mode kcp,
            )
            refl)

-- The server that `NewServer` makes from a size that is not negative, with its two routers.
unfoldable registered : AppConfig → Server
registered g = record (running g) { exit_chan = no_chan; listeners = [] }

start_registered :
    (g : AppConfig) (w : World)
    → start (registered g) w
      ≡ (if leb_ℤ g.worker_pool_size (pos 0) then panics else done (running g) w)
unfolding registered
start_registered g w =
    start_lem (registered g) w
    ∙ ap (λ s. if leb_ℤ g.worker_pool_size (pos 0) then panics else done s w) (listen_lem g)

-- `main` behind `NewMsgHandle`.
unfoldable from_handle : AppConfig → World → Option (List (ℕ × ℕ)) → Ran
from_handle g w none = panics
from_handle g w (some apis) =
    and_then (add_handler 1 ping_router (record (registered g) { apis = apis }) w)
      (λ s v. and_then (add_handler 2 ping2_router s v) start)

main_with-from_handle :
    (g : AppConfig) (w : World) (o : Option (List (ℕ × ℕ)))
    → new_msg_handle g.worker_pool_size ≡ o
    → main_with g w ≡ from_handle g w o
unfolding main_with new_server from_handle registered
main_with-from_handle g w none e = rw (main_with, new_server, e) refl
main_with-from_handle g w (some apis) e = rw (main_with, new_server, e) refl

from_handle-empty : (g : AppConfig) (w : World) → from_handle g w (some []) ≡ start (registered g) w
unfolding from_handle registered and_then add_handler add_router lookup insert
from_handle-empty g w = refl

panics_if_negative : (n : ℕ) (x : Ran) → panics ≡ (if leb_ℤ (negsuc n) (pos 0) then panics else x)
panics_if_negative n x = ground arith

main_by :
    (g : AppConfig) (w : World) (size : ℤ)
    → g.worker_pool_size ≡ size
    → main_with g w ≡ (if leb_ℤ size (pos 0) then panics else done (running g) w)
unfolding new_msg_handle from_handle
main_by g w (pos n) e =
    main_with-from_handle g w (some []) (ap new_msg_handle e)
    ∙ from_handle-empty g w
    ∙ start_registered g w
    ∙ ap (λ size. if leb_ℤ size (pos 0) then panics else done (running g) w) e
main_by g w (negsuc n) e =
    main_with-from_handle g w none (ap new_msg_handle e) ∙ panics_if_negative n (done (running g) w)

main_with_lem :
    (g : AppConfig) (w : World)
    → main_with g w ≡ (if leb_ℤ g.worker_pool_size (pos 0) then panics else done (running g) w)
main_with_lem g w = main_by g w g.worker_pool_size refl

decoded :
    (success : Bool) (g : AppConfig) (w : World)
    → (elim (if success then some g else none) as (λ _. Ran) [
      | none ↦ panics
      | some h ↦ main_with h w
    ])
      ≡ (if success
          then (if leb_ℤ g.worker_pool_size (pos 0) then panics else done (running g) w)
          else panics)
decoded true g w = main_with_lem g w
decoded false g w = refl

-- The program that `main` starts from settings that were read and decoded has its two routers and
-- the listeners of the modes that are set; with a size of the worker pool of 0 or less it panics,
-- and so it does when the settings cannot be read or decoded.
pub main_lem {ℓ} :
    {Raw : Type ℓ} (unmarshal : Raw → AppConfig → Bool × AppConfig) (raw : Option Raw)
    (conf : AppConfig) (w : World)
    → main unmarshal raw conf w ≡ (elim raw [
      | none ↦ panics
      | some r ↦
          let (success, g) = unmarshal r conf in
          if success
          then (if leb_ℤ g.worker_pool_size (pos 0) then panics else done (running g) w)
          else panics
    ])
unfolding main init_settings
main_lem unmarshal none conf w = refl
main_lem unmarshal (some r) conf w = decoded (unmarshal r conf).0 (unmarshal r conf).1 w

-- What `handleStart` set is what `handleStop` prints, whatever properties the connection had.
pub handle_stop-handle_start :
    (st test1 test2 test3 : ℕ) (c : Connection)
    → handle_stop (handle_start st test1 test2 test3 c)
      ≡ some st ∷ some test1 ∷ some test2 ∷ some test3 ∷ []
unfolding handle_stop handle_start gts.Conn.Property.get_property gts.Conn.Property.set_property
handle_stop-handle_start st test1 test2 test3 c = simp (lookup-insert)
