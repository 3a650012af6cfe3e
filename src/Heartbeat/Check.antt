-- ===== src/Heartbeat/Check.antt =====
-- One tick of the checker in heartbead/heartbeat.go, for a connection that answers and for one that
-- does not.
use gts.Base.{
  ℕ, ◌≡◌, refl, sym, ap, ◌∙◌, Bool, true, false, Option, none, some, List, [], ◌∷◌, ◌++◌, arith,
  if◌then◌else◌, ltb, length, subst,
}
use gts.World.{
  selecting, checking, Connection, World, returns, blocks, M, at, at_laws, at-heap, ◌>>=◌, pure,
}
use gts.Message.{new_msg_package, pack}
use gts.Conn.{stop}
use gts.Conn.Stop.{stop-Unheard, Unheard}
use gts.Conn.Send.{sent, waits, send}
use gts.Conn.Property.{is_alive}
use gts.Heartbeat.{
  Heartbeat, CheckResult, failed, passed, sending, no_conn, send_error, send_heart_beat_msg,
  give_up, check_conn, check, after_check, tick,
}

-- Whatever the handler for a dead connection does, when it returns with the checker still in its
-- own `check`, the send on `quitChan` that follows waits for ever.
pub give_up-blocks :
    (handler : ℕ → M (Unit {0})) (a : ℕ) (w v : World)
    → handler a w ≡ returns tt v
    → (v.heap a).checker ≡ checking
    → give_up handler a w ≡ blocks v
unfolding give_up
give_up-blocks handler a w v r k = rw (give_up, r, ◌>>=◌, k) refl

give_up_waits :
    (handler : ℕ → M (Unit {0})) (a : ℕ) (w v : World)
    → handler a w ≡ blocks v
    → give_up handler a w ≡ blocks v
unfolding give_up
give_up_waits handler a w v r = rw (give_up, r, ◌>>=◌) refl

alive_open : (now max : ℕ) (c : Connection) → is_alive now max c ≡ true → c.is_closed ≡ false
unfolding is_alive
alive_open now max c h = ground arith

send_open :
    (c : Connection) (msg_id : ℕ) (bytes : List ℕ)
    → c.is_closed ≡ false
    → send c msg_id bytes ≡ (
      (if ltb (length c.msg_chan) c.msg_cap then sent else waits),
      record c { msg_chan = c.msg_chan ++ pack (new_msg_package msg_id bytes) ∷ [] },
    )
unfolding send
send_open c msg_id bytes o = simp o refl

-- What comes of a `Send` on an open connection: with room in `msgChan` it returns.
abbrev pub by_room : Bool → CheckResult
by_room true = passed
by_room false = sending

abbrev pub has_room : Connection → Bool
has_room c = ltb (length c.msg_chan) c.msg_cap

send_error_if : (b : Bool) → send_error (if b then sent else waits) ≡ by_room b
unfolding send_error
send_error_if true = refl
send_error_if false = refl

stop_unheard_at :
    (w : World) (a : ℕ) (c : Connection)
    → c.is_closed ≡ false
    → c.checker ≡ checking
    → stop a (at w a c) ≡ blocks (at w a c)
stop_unheard_at w a c o k =
    stop-Unheard a (at w a c) (ap (λ (d : Connection). d.is_closed) (at-heap w a c) ∙ o)
      (subst Unheard (sym (ap (λ (d : Connection). d.checker) (at-heap w a c) ∙ k)) tt)

module _ (h : Heartbeat) (now max : ℕ) (msg : List ℕ) (a : ℕ) (w : World) (c : Connection)
    (bound : h.conn ≡ some a) where
  send_heart_beat_msg_open :
      c.is_closed ≡ false
      → send_heart_beat_msg h a msg (at w a c)
        ≡ returns (by_room (has_room c)) (
            at w a (record c { msg_chan = c.msg_chan ++ pack (new_msg_package h.msg_id msg) ∷ [] }))
  unfolding send_heart_beat_msg
  send_heart_beat_msg_open o =
      rw (at-heap w a c, send_open c h.msg_id msg o, send_error_if (has_room c)) (simp at_laws)

  check_of :
      (handler : ℕ → M (Unit {0}))
      → check h handler now max msg ≡ check_conn h handler now max msg a
  unfolding check
  check_of handler =
      ap
        (λ (o : Option ℕ). elim o as (λ _. M CheckResult) [
          | none ↦ pure (failed no_conn)
          | some b ↦ check_conn h handler now max msg b
        ])
        bound

  check_alive :
      (handler : ℕ → M (Unit {0}))
      → is_alive now max c ≡ true
      → check h handler now max msg (at w a c)
        ≡ returns (by_room (has_room c)) (
            at w a (record c { msg_chan = c.msg_chan ++ pack (new_msg_package h.msg_id msg) ∷ [] }))
  unfolding check_conn
  check_alive handler alive =
      rw (check_of handler, at-heap w a c, alive)
        (send_heart_beat_msg_open (alive_open now max c alive))

  check_dead :
      c.is_closed ≡ false
      → c.checker ≡ checking
      → is_alive now max c ≡ false
      → check h stop now max msg (at w a c) ≡ blocks (at w a c)
  unfolding check_conn
  check_dead o k dead =
      rw (check_of stop, at-heap w a c, dead)
        (give_up_waits stop a (at w a c) (at w a c) (stop_unheard_at w a c o k))

after_room : (b : Bool) → after_check (by_room b) ≡ (if b then selecting else checking)
unfolding after_check
after_room true = refl
after_room false = refl

module _ (h : Heartbeat) (now max : ℕ) (msg : List ℕ) (a : ℕ) (w : World) (c : Connection)
    (bound : h.conn ≡ some a) where
  -- A tick for a connection that is alive queues one frame with the checker's identifier; with room
  -- in `msgChan` the checker is back in its `select`, and without it stays in `Send`.
  pub tick_alive :
      (handler : ℕ → M (Unit {0})) (room : Bool)
      → is_alive now max c ≡ true
      → has_room c ≡ room
      → tick h handler now max msg a (at w a c)
        ≡ returns tt (
            at w a (record c {
              msg_chan = c.msg_chan ++ pack (new_msg_package h.msg_id msg) ∷ [];
              checker = if room then selecting else checking;
            }))
  unfolding tick is_alive
  tick_alive handler room alive e = simp at_laws (
      rw
        (check_alive h now max msg a w (record c { checker = checking }) bound handler alive, ◌>>=◌)
        (simp (at_laws, after_room)
          (ap
            (λ b. returns tt (
              at w a (record c {
                msg_chan = c.msg_chan ++ pack (new_msg_package h.msg_id msg) ∷ [];
                checker = if b then selecting else checking;
              })))
            e)))

  -- A tick for an open connection that is dead, with the default handler, waits for ever in `Stop`:
  -- nothing but the checker's place has changed. Any other `Stop` then waits for ever too.
  pub tick_dead :
      c.is_closed ≡ false
      → is_alive now max c ≡ false
      → (tick h stop now max msg a (at w a c) ≡ blocks (at w a (record c { checker = checking })))
        × (stop a (at w a (record c { checker = checking }))
            ≡ blocks (at w a (record c { checker = checking })))
  unfolding tick is_alive
  tick_dead o dead = (
    simp at_laws (
        rw (check_dead h now max msg a w (record c { checker = checking }) bound o refl dead, ◌>>=◌)
          refl),
    stop_unheard_at w a (record c { checker = checking }) o refl,
  )
