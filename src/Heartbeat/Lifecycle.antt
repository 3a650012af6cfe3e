-- ===== src/Heartbeat/Lifecycle.antt =====
-- A connection of server/conn.go from `Start` to `Stop`, with or without a checker.
use gts.Base.{
  ℕ, ◌≡◌, refl, ◌⊎◌, inl, inr, Bool, true, false, [], ◌∷◌, ◌++◌, arith, if◌then◌else◌, ◌||◌,
}
use gts.World.{
  Checker, unbound, idle, selecting, on_conn_start, Connection, World, returns, at, at_laws,
  at-heap, ◌>>=◌, ◌>>◌, when,
}
use gts.Conn.{call_on_conn_start, stop}
use gts.Conn.Stop.{stopped_world, stop_lem}
use gts.Heartbeat.{has_heartbeat, start, start_conn}

-- A connection after `Start`: its checker waits in its `select`, it has been active now, its context
-- is new, and its hook was called.
abbrev pub started : ℕ → Connection → Connection
started now c = record c {
  checker = if has_heartbeat c.checker then selecting else c.checker;
  last_activity_time = if has_heartbeat c.checker then now else c.last_activity_time;
  has_cancel = true;
  ctx_done = false;
  notices = if c.has_on_start then c.notices ++ on_conn_start ∷ [] else c.notices;
}

when-start :
    (now a : ℕ) (w : World) (c : Connection) (b : Bool)
    → when b (start now a) (at w a c)
      ≡ returns tt (
          at w a (record c {
            checker = if b then selecting else c.checker;
            last_activity_time = if b then now else c.last_activity_time;
          }))
unfolding start
when-start now a w c true = simp at_laws
when-start now a w c false = refl

pub start_conn_lem :
    (now a : ℕ) (w : World) (c : Connection)
    → start_conn now a (at w a c) ≡ returns tt (at w a (started now c))
unfolding start_conn call_on_conn_start
start_conn_lem now a w c =
    rw (at-heap w a c, when-start now a w c (has_heartbeat c.checker), ◌>>=◌) (simp at_laws)

pub heard_after :
    (k : Checker)
    → (k ≡ unbound) ⊎ (k ≡ idle)
    → ((if has_heartbeat k then selecting else k) ≡ unbound)
      ⊎ ((if has_heartbeat k then selecting else k) ≡ selecting)
unfolding has_heartbeat
heard_after unbound h = inl refl
heard_after idle h = inr refl
heard_after _ h = absurd (ground arith)

pub ends_open : (b : Bool) → (b || true) ≡ true
ends_open true = refl
ends_open false = refl

-- An open connection that was not started, with a checker or without one, is closed by `Stop` after
-- `Start`: its hooks, where they are set, are called in this order, its checker's goroutine ends,
-- its socket is closed and its number leaves the table of its manager, when the lock of the table is
-- free.
pub start_stop :
    (now a : ℕ) (w : World) (c : Connection)
    → c.is_closed ≡ false
    → (c.checker ≡ unbound) ⊎ (c.checker ≡ idle)
    → w.locked ≡ false
    → (start_conn now a >> stop a) (at w a c) ≡ returns tt (stopped_world w a (started now c))
start_stop now a w c o k free =
    rw (start_conn_lem now a w c, ◌>>=◌)
      (stop_lem w a (started now c) o (record {
        heard = heard_after c.checker k;
        unlocked = λ _. free;
        started = ends_open c.close_fails;
      }))
