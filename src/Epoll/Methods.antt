-- ===== src/Epoll/Methods.antt =====
-- `Start` and the remaining methods of epoll/conn.go. Where a method does not meet the manager, the
-- connection is that of World.antt, whose fields the one of epoll/conn.go has too.
use gts.Base.{
  ℕ, ◌+◌, ◌≡◌, refl, ap, ◌∙◌, Bool, true, false, Option, some, List, [], ◌∷◌, ◌++◌, ltb,
  if◌then◌else◌, length,
}
use gts.Base.Map.{lookup, insert, delete}
use gts.World
use gts.World.{Checker, unbound, idle, selecting, checking, exited, on_conn_start, on_conn_stop}
use gts.Message.{new_msg_package, pack}
use gts.Conn.Send.{SendResult, closed, sent, waits}
use gts.Heartbeat.{has_heartbeat}
use gts.Epoll.{ConnManager}
use gts.Epoll.Deadlock.{stuck}
use gts.Epoll.Stop.{Stoppable, Ended, waiting, returned, marked, quit, stop, stop-remove}

-- `callOnConnStart` and `callOnConnStop`.
unfoldable pub call_on_conn_start : Stoppable → Stoppable
call_on_conn_start c = record c {
  notices = if c.has_on_start then c.notices ++ on_conn_start ∷ [] else c.notices;
}

unfoldable pub call_on_conn_stop : Stoppable → Stoppable
call_on_conn_stop c = record c {
  notices = if c.has_on_stop then c.notices ++ on_conn_stop ∷ [] else c.notices;
}

-- `Start` up to the wait for its context; the writer runs beside it, and no reader is started.
unfoldable pub start : Stoppable → Stoppable
unfolding call_on_conn_start
start c = call_on_conn_start (record c {
  checker = if has_heartbeat c.checker then selecting else c.checker;
  ctx_done = false;
})

-- Whether the wait at the end of `Start` and the writer's `select` see the context end.
unfoldable pub sees_done : Ended → Bool
sees_done (returned c cm) = c.ctx_done
sees_done (waiting c cm) = c.ctx_done

unfoldable pub send : World.Connection → ℕ → List ℕ → SendResult × World.Connection
send c msg_id bytes = if c.is_closed then (closed, c) else (
  (if ltb (length c.msg_chan) c.msg_cap then sent else waits),
  record c { msg_chan = c.msg_chan ++ pack (new_msg_package msg_id bytes) ∷ [] },
)

unfoldable pub set_property : ℕ → ℕ → World.Connection → World.Connection
set_property key value c = record c { property = insert key value c.property }

unfoldable pub get_property : ℕ → World.Connection → Option ℕ
get_property key c = lookup key c.property

unfoldable pub remove_property : ℕ → World.Connection → World.Connection
remove_property key c = record c { property = delete key c.property }

unfoldable pub is_alive : ℕ → ℕ → World.Connection → Bool
is_alive now max c = if c.is_closed then false else ltb now (c.last_activity_time + max)

unfoldable pub update_activity : ℕ → World.Connection → World.Connection
update_activity now c = record c { last_activity_time = now }

-- What the send on `quitChan` makes of the checker of a started connection.
abbrev pub after_quit : Checker → Checker
after_quit unbound = unbound
after_quit _ = exited

quit-started : (k : Checker) → quit (if has_heartbeat k then selecting else k) ≡ some (after_quit k)
unfolding quit has_heartbeat
quit-started unbound = refl
quit-started idle = refl
quit-started selecting = refl
quit-started checking = refl
quit-started exited = refl

-- `Stop` of a started connection of the table, from a free lock and with `EpollCtl` in order, waits
-- for ever; the socket stays open, and neither the wait of `Start` nor the writer sees an end.
pub start-stop_waits :
    (c : Stoppable) (fd : ℕ) (cm : ConnManager)
    → c.is_closed ≡ false
    → c.conn.fd ≡ some fd
    → cm.locked ≡ false
    → (stop true (start c) cm
        ≡ waiting (marked (after_quit c.checker) (start c)) (stuck c.conn fd cm))
      × (sees_done (stop true (start c) cm) ≡ false)
unfolding start call_on_conn_start
start-stop_waits c fd cm o at_fd free =
    let e =
      stop-remove true (start c) (after_quit c.checker) fd cm o (quit-started c.checker) at_fd
        free in
    (e, ap sees_done e ∙ (unfold sees_done marked in refl))
