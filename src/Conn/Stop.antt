-- ===== src/Conn/Stop.antt =====
-- `Stop` of server/conn.go on every branch.
use gts.Base.{
  ℕ, ◌≡◌, refl, sym, ap, ◌∙◌, ◌⊎◌, Bool, true, false, ◌||◌, List, [], ◌∷◌, ◌++◌, arith,
  if◌then◌else◌,
}
use gts.Base.Map.{delete}
use gts.World.{
  Checker, unbound, idle, selecting, checking, exited, on_conn_stop, Connection, World, returns,
  blocks, crashes, ◌>>=◌, ◌>>◌, when, at, at_laws, at-heap, at-locked, at-connections,
}
use gts.Registry.{remove}
use gts.Registry.Laws.{remove_eq}
use gts.Conn.{quit, stop_open, stop}

-- A connection that is closed already is left alone, and so is the table.
pub stop_closed : (a : ℕ) (w : World) → (w.heap a).is_closed ≡ true → stop a w ≡ returns tt w
unfolding stop
stop_closed a w h = rw h refl

-- Nobody receives on `quitChan`: a heartbeat is bound, and its goroutine is not in its `select`, and
-- stays where it is.
abbrev pub Unheard : Checker → Type 0
Unheard idle = Unit
Unheard checking = Unit
Unheard exited = Unit
Unheard _ = ⊥

stop-Unheard_by :
    (a : ℕ) (w : World) (k : Checker)
    → (w.heap a).checker ≡ k
    → Unheard k
    → stop_open a w ≡ blocks w
unfolding stop_open
stop-Unheard_by a w unbound e u = elim u [ ]
stop-Unheard_by a w selecting e u = elim u [ ]
stop-Unheard_by a w idle e u = rw e refl
stop-Unheard_by a w checking e u = rw e refl
stop-Unheard_by a w exited e u = rw e refl

-- `Stop` of an open connection whose heartbeat nobody listens for waits for ever, and the
-- connection stays open, in the table, and with its socket open.
pub stop-Unheard :
    (a : ℕ) (w : World)
    → (w.heap a).is_closed ≡ false
    → Unheard (w.heap a).checker
    → stop a w ≡ blocks w
unfolding stop
stop-Unheard a w h u = rw h (stop-Unheard_by a w (w.heap a).checker refl u)

-- What the send on `quitChan` makes of the heartbeat's goroutine.
abbrev pub after_quit : Checker → Checker
after_quit selecting = exited
after_quit unbound = unbound
after_quit idle = idle
after_quit checking = checking
after_quit exited = exited

-- A connection after `Stop`: closed for its users, its hook called once, its socket closed, and
-- its context cancelled unless the socket reported an error.
abbrev pub stopped : Connection → Connection
stopped c = record c {
  is_closed = true;
  checker = after_quit c.checker;
  notices = if c.has_on_stop then c.notices ++ on_conn_stop ∷ [] else c.notices;
  socket_closed = true;
  ctx_done = if c.close_fails then c.ctx_done else true;
}

-- Nobody is in the way of `Stop`: no heartbeat is bound or its goroutine listens, and the lock of
-- the table is free where the connection has a manager. The connection has been started, or its
-- socket's `Close` fails.
pub record Stoppable (w : World) (c : Connection) : Type 0 where
  pub heard : (c.checker ≡ unbound) ⊎ (c.checker ≡ selecting)
  pub unlocked : c.has_manager ≡ true → w.locked ≡ false
  pub started : (c.close_fails || c.has_cancel) ≡ true

abbrev pub table_after : World → Connection → List (ℕ × ℕ)
table_after w c = if c.has_manager then delete c.conn_id w.connections else w.connections

-- The world after `Stop` of the connection `c` at `a`.
abbrev pub stopped_world : World → ℕ → Connection → World
stopped_world w a c = record (at w a (stopped c)) {
  connections = table_after w c;
  locked = w.locked;
}

-- The connection while `Stop` takes it out of the table.
abbrev pub marked : Connection → Connection
marked c = record c {
  is_closed = true;
  checker = after_quit c.checker;
  notices = if c.has_on_stop then c.notices ++ on_conn_stop ∷ [] else c.notices;
}

quit_by :
    (w : World) (a : ℕ) (c : Connection) (k : Checker)
    → c.checker ≡ k
    → (k ≡ unbound) ⊎ (k ≡ selecting)
    → quit k a (at w a c) ≡ returns tt (at w a (record c { checker = after_quit k }))
unfolding quit
quit_by w a c unbound e u = ap (λ (k : Checker). returns tt (at w a (record c { checker = k }))) e
quit_by w a c selecting e u = simp at_laws
quit_by w a c _ e u = absurd (ground arith)

remove-at :
    (w : World) (a : ℕ) (c : Connection)
    → w.locked ≡ false
    → remove a (at w a c)
      ≡ returns tt
          (record (at w a c) { connections = delete c.conn_id w.connections; locked = false })
remove-at w a c f =
    rw (remove_eq a (at w a c) (at-locked w a c ∙ f), at-heap w a c, at-connections w a c) refl

when-remove :
    (w : World) (a : ℕ) (c : Connection) (b : Bool)
    → (b ≡ true → w.locked ≡ false)
    → when b (remove a) (at w a c)
      ≡ returns tt (record (at w a c) {
        connections = if b then delete c.conn_id w.connections else w.connections;
        locked = w.locked;
      })
unfolding at
when-remove w a c false f = refl
when-remove w a c true f =
    remove-at w a c (f refl)
    ∙ ap
        (λ (held : Bool).
          returns tt
            (record (at w a c) { connections = delete c.conn_id w.connections; locked = held }))
        (sym (f refl))

-- `stop` behind the test of `isClosed`.
stop_open_lem :
    (w : World) (a : ℕ) (c : Connection)
    → Stoppable w c
    → stop_open a (at w a c) ≡ returns tt (stopped_world w a c)
unfolding stop_open
stop_open_lem w a c s =
    rw (at-heap w a c, quit_by w a c c.checker refl s.heard, ◌>>=◌)
      (simp at_laws (
        rw (when-remove w a (marked c) c.has_manager s.unlocked, ◌>>=◌)
          (simp (at_laws, s.started))))

-- `Stop` of an open connection that nobody is in the way of, and which was started or whose socket
-- reports an error, returns: the connection is closed, its hook was called once, its socket is closed, its number is out of the manager's table, and its
-- context is cancelled unless the socket reported an error.
pub stop_lem :
    (w : World) (a : ℕ) (c : Connection)
    → c.is_closed ≡ false
    → Stoppable w c
    → stop a (at w a c) ≡ returns tt (stopped_world w a c)
unfolding stop
stop_lem w a c o s = rw (at-heap w a c) (simp o (stop_open_lem w a c s))

-- `Stop` of an open connection that was not started, and whose socket closes without an error, panics
-- on the call of `cancel`.
pub stop_unstarted :
    (w : World) (a : ℕ) (c : Connection)
    → c.is_closed ≡ false
    → (c.checker ≡ unbound) ⊎ (c.checker ≡ selecting)
    → (c.has_manager ≡ true → w.locked ≡ false)
    → (c.close_fails || c.has_cancel) ≡ false
    → stop a (at w a c) ≡ crashes
unfolding stop stop_open
stop_unstarted w a c o k free h = rw (at-heap w a c) (
    simp (o, at-heap)
      (rw (quit_by w a c c.checker refl k, ◌>>=◌)
        (simp at_laws
          (rw (when-remove w a (marked c) c.has_manager free, ◌>>=◌) (simp (at_laws, h))))))

remove_locked :
    (w : World) (a : ℕ) (b : Bool) → b ≡ true → w.locked ≡ true → when b (remove a) w ≡ blocks w
unfolding remove
remove_locked w a b m h = rw (m, h) refl

-- `Stop` of an open connection of the table, where the lock is held: it waits in `Remove`.
pub stop_locked :
    (w : World) (a : ℕ) (c : Connection)
    → (c.checker ≡ unbound) ⊎ (c.checker ≡ selecting)
    → c.is_closed ≡ false
    → c.has_manager ≡ true
    → w.locked ≡ true
    → stop a (at w a c) ≡ blocks (at w a (marked c))
unfolding stop stop_open
stop_locked w a c k o m h = rw (at-heap w a c) (
    simp (o, at-heap)
      (rw (quit_by w a c c.checker refl k, ◌>>=◌)
        (simp at_laws (
          rw
            (
              remove_locked (at w a (marked c)) a c.has_manager m (at-locked w a (marked c) ∙ h),
              ◌>>=◌,
            )
            refl))))

-- A second `Stop` changes nothing: the hook is not called again.
pub stop_twice :
    (w : World) (a : ℕ) (c : Connection)
    → c.is_closed ≡ false
    → Stoppable w c
    → (stop a >> stop a) (at w a c) ≡ stop a (at w a c)
stop_twice w a c o s =
    rw (stop_lem w a c o s, ◌>>=◌)
      (stop_closed a (stopped_world w a c)
        (ap (λ (d : Connection). d.is_closed) (at-heap w a (stopped c))))
