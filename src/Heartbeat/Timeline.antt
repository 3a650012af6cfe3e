-- ===== src/Heartbeat/Timeline.antt =====
-- The checker of heartbead/heartbeat.go over time, with the heartbeats that the reader meets and the
-- settings that change while it runs.
pub mod Late
use gts.Base.{
  ℕ, ◌≡◌, refl, ap, ◌∙◌, inl, inr, Bool, true, false, ◌&&◌, some, List, [], ◌∷◌, ◌++◌, ltb, leb,
  length, ◌+◌, if◌then◌else◌, Bool-cases, arith,
}
use gts.Base.Int.{pos_part}
use gts.World.{
  Checker, unbound, idle, exited, load, when, selecting, checking, Connection, World, returns,
  blocks, M, ◌>>=◌, ◌>>◌, pure, modify, at, at-heap, at-at,
}
use gts.Message.{new_msg_package, pack}
use gts.Conn.{stop}
use gts.Conn.Reader.{heartbeat}
use gts.Conn.Property.{is_alive, update_activity}
use gts.Heartbeat.{Heartbeat, tick, after_round, has_heartbeat}
use gts.Heartbeat.Check.{has_room, tick_alive, tick_dead}
use gts.Settings.{AppConfig, get_heartbeat_max_time}

-- A heartbeat is read, the ticker fires with the message that is made then, the writer takes a value
-- out of `msgChan`, or the settings change; the first two with the time.
pub data Event : Type 0 where
  beats : ℕ → Event
  ticks : ℕ → List ℕ → Event
  takes : Event
  reloads : AppConfig → Event

-- `Conf.GetHeartbeatMaxTime()`. A negative one is 0 here: no time is below either.
abbrev pub max_time : AppConfig → ℕ
max_time g = pos_part (get_heartbeat_max_time g)

abbrev pub behind_first : List (List ℕ) → List (List ℕ)
behind_first [] = []
behind_first (chunk ∷ rest) = rest

-- The goroutine of the checker when the writer has left so many values in `msgChan`: in `Send` it goes
-- on once they are no more than the channel holds.
unfoldable pub released : ℕ → ℕ → Checker → Checker
released left msg_cap checking = if leb left msg_cap then selecting else checking
released left msg_cap selecting = selecting
released left msg_cap unbound = unbound
released left msg_cap idle = idle
released left msg_cap exited = exited

-- `<-c.msgChan` of the writer.
unfoldable pub take_chunk : Connection → Connection
unfolding released
take_chunk c =
    let rest = behind_first c.msg_chan in
    record c { msg_chan = rest; checker = released (length rest) c.msg_cap c.checker }

-- A tick is taken up in the `select` only.
unfoldable pub is_selecting : Checker → Bool
is_selecting selecting = true
is_selecting checking = false
is_selecting unbound = false
is_selecting idle = false
is_selecting exited = false

unfoldable pub run : Heartbeat → ℕ → AppConfig → List Event → M (Unit {0})
unfolding tick after_round take_chunk is_selecting
run h a g [] = pure tt
run h a g (beats now ∷ es) = modify a (after_round now heartbeat) >> run h a g es
run h a g (ticks now msg ∷ es) =
    (load a >>= λ c. when (is_selecting c.checker) (tick h stop now (max_time g) msg a))
    >> run h a g es
run h a g (takes ∷ es) = modify a take_chunk >> run h a g es
run h a g (reloads later ∷ es) = run h a later es

-- Each tick comes less than the time that the settings allow then after the heartbeat before it.
abbrev pub in_time : ℕ → AppConfig → List Event → Bool
in_time last g [] = true
in_time last g (beats now ∷ es) = in_time now g es
in_time last g (ticks now msg ∷ es) = ltb now (last + max_time g) && in_time last g es
in_time last g (takes ∷ es) = in_time last g es
in_time last g (reloads later ∷ es) = in_time last later es

-- What is in `msgChan` after the ticks and the writer's rounds, and the time of the last heartbeat.
abbrev pub queued : Heartbeat → List (List ℕ) → List Event → List (List ℕ)
queued h chan [] = chan
queued h chan (beats now ∷ es) = queued h chan es
queued h chan (ticks now msg ∷ es) = queued h (chan ++ pack (new_msg_package h.msg_id msg) ∷ []) es
queued h chan (takes ∷ es) = queued h (behind_first chan) es
queued h chan (reloads later ∷ es) = queued h chan es

-- Each tick finds room in a `msgChan` of the given size.
abbrev pub roomy : Heartbeat → ℕ → List (List ℕ) → List Event → Bool
roomy h msg_cap chan [] = true
roomy h msg_cap chan (beats now ∷ es) = roomy h msg_cap chan es
roomy h msg_cap chan (ticks now msg ∷ es) =
    ltb (length chan) msg_cap
    && roomy h msg_cap (chan ++ pack (new_msg_package h.msg_id msg) ∷ []) es
roomy h msg_cap chan (takes ∷ es) = roomy h msg_cap (behind_first chan) es
roomy h msg_cap chan (reloads later ∷ es) = roomy h msg_cap chan es

abbrev pub last_beat : ℕ → List Event → ℕ
last_beat last [] = last
last_beat last (beats now ∷ es) = last_beat now es
last_beat last (ticks now msg ∷ es) = last_beat last es
last_beat last (takes ∷ es) = last_beat last es
last_beat last (reloads later ∷ es) = last_beat last es

abbrev pub kept : Heartbeat → List Event → Connection → Connection
kept h es c = record c {
  msg_chan = queued h c.msg_chan es;
  last_activity_time = last_beat c.last_activity_time es;
  checker = selecting;
}

pub alive_open :
    (now max : ℕ) (c : Connection)
    → c.is_closed ≡ false
    → is_alive now max c ≡ ltb now (c.last_activity_time + max)
unfolding is_alive
alive_open now max c o = ap (λ b. if b then false else ltb now (c.last_activity_time + max)) o

pub beat_eq :
    (now : ℕ) (c : Connection)
    → c.checker ≡ selecting
    → after_round now heartbeat c ≡ update_activity now c
unfolding after_round
beat_eq now c k =
    ap (λ s. if has_heartbeat s then update_activity now c else c) k
    ∙ (unfold has_heartbeat in refl)

pub both : (x y : Bool) → (x && y) ≡ true → (x ≡ true) × (y ≡ true)
both true true h = (refl, refl)
both true false h = absurd (ground arith)
both false y h = absurd (ground arith)

-- The connection after a tick that had room for its frame.
abbrev pub ticked : Heartbeat → List ℕ → Connection → Connection
ticked h msg c = record c {
  msg_chan = c.msg_chan ++ pack (new_msg_package h.msg_id msg) ∷ [];
  checker = selecting;
}

take_eq :
    (c : Connection)
    → c.checker ≡ selecting
    → take_chunk c ≡ record c { msg_chan = behind_first c.msg_chan; checker = selecting }
unfolding take_chunk
take_eq c k =
    ap
      (λ s. record c {
        msg_chan = behind_first c.msg_chan;
        checker = released (length (behind_first c.msg_chan)) c.msg_cap s;
      })
      k
    ∙ (unfold released in refl)

module _ (h : Heartbeat) (a : ℕ) (w : World) (bound : h.conn ≡ some a) where
  pub beats_eq :
      (now : ℕ) (c : Connection)
      → c.checker ≡ selecting
      → at (at w a c) a (after_round now heartbeat ((at w a c).heap a))
        ≡ at w a (record c { last_activity_time = now })
  beats_eq now c k =
      rw (at-heap w a c, beat_eq now c k)
        (unfold update_activity in at-at w a c (record c { last_activity_time = now }))

  pub takes_eq :
      (c : Connection)
      → c.checker ≡ selecting
      → at (at w a c) a (take_chunk ((at w a c).heap a))
        ≡ at w a (record c { msg_chan = behind_first c.msg_chan; checker = selecting })
  takes_eq c k =
      rw (at-heap w a c, take_eq c k)
        (at-at w a c (record c { msg_chan = behind_first c.msg_chan; checker = selecting }))

  -- From the `select`, the run of a tick is that of `tick`.
  pub ticks_eq :
      (now : ℕ) (msg : List ℕ) (es : List Event) (g : AppConfig) (c : Connection)
      → c.checker ≡ selecting
      → run h a g (ticks now msg ∷ es) (at w a c)
        ≡ (tick h stop now (max_time g) msg a >> run h a g es) (at w a c)
  unfolding run
  ticks_eq now msg es g c k =
      ap
        (λ s.
          (when (is_selecting s) (tick h stop now (max_time g) msg a) >> run h a g es) (at w a c))
        (ap (λ (d : Connection). d.checker) (at-heap w a c) ∙ k)
      ∙ (unfold is_selecting in refl)

  -- A tick in time that finds room.
  pub tick_kept :
      (now : ℕ) (msg : List ℕ) (es : List Event) (g : AppConfig) (c : Connection)
      → c.is_closed ≡ false
      → c.checker ≡ selecting
      → ltb now (c.last_activity_time + max_time g) ≡ true
      → has_room c ≡ true
      → run h a g (ticks now msg ∷ es) (at w a c) ≡ run h a g es (at w a (ticked h msg c))
  tick_kept now msg es g c o k soon room =
      ticks_eq now msg es g c k
      ∙ rw
          (
            tick_alive h now (max_time g) msg a w c bound stop true
                (alive_open now (max_time g) c o ∙ soon) room,
            ◌>>=◌,
          )
          refl

  -- An open connection whose checker is in its `select` is kept for as long as each tick comes less than
  -- the time that the settings allow at that moment after the heartbeat before it, and finds room in
  -- `msgChan`, which the writer may empty in between: every tick queues one heartbeat, the checker is
  -- back in its `select`, and nothing else of the connection changes but the time of its last
  -- heartbeat. The settings may change in between.
  pub run-in_time :
      (es : List Event) (g : AppConfig) (c : Connection)
      → c.is_closed ≡ false
      → c.checker ≡ selecting
      → in_time c.last_activity_time g es ≡ true
      → roomy h c.msg_cap c.msg_chan es ≡ true
      → run h a g es (at w a c) ≡ returns tt (at w a (kept h es c))
  unfolding run
  run-in_time [] g c o k t r = ap (λ s. returns tt (at w a (record c { checker = s }))) k
  run-in_time (beats now ∷ es) g c o k t r =
      ap (run h a g es) (beats_eq now c k)
      ∙ run-in_time es g (record c { last_activity_time = now }) o k t r
  run-in_time (ticks now msg ∷ es) g c o k t r =
      let (soon, later) =
        both (ltb now (c.last_activity_time + max_time g)) (in_time c.last_activity_time g es) t in
      let d : Connection = ticked h msg c in
      let (room, roomy_later) = both (has_room c) (roomy h c.msg_cap d.msg_chan es) r in
      tick_kept now msg es g c o k soon room ∙ run-in_time es g d o refl later roomy_later
  run-in_time (takes ∷ es) g c o k t r =
      let d : Connection = record c { msg_chan = behind_first c.msg_chan; checker = selecting } in
      ap (run h a g es) (takes_eq c k) ∙ run-in_time es g d o refl t r
  run-in_time (reloads later ∷ es) g c o k t r = run-in_time es later c o k t r
