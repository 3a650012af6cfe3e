-- ===== src/Heartbeat/Timeline/Late.antt =====
-- What becomes of the checker of heartbead/heartbeat.go when a tick is late.
use gts.Base.{
  ℕ, ◌≡◌, refl, ap, ◌∙◌, inl, inr, true, false, some, List, [], ◌∷◌, ltb, ◌+◌, Bool-cases, arith,
}
use gts.World.{selecting, checking, Connection, World, blocks, ◌>>=◌, at}
use gts.Heartbeat.{Heartbeat}
use gts.Heartbeat.Check.{has_room, tick_dead}
use gts.Settings.{AppConfig}
use gts.Heartbeat.Timeline.{
  Event, beats, ticks, takes, reloads, max_time, behind_first, run, in_time, roomy, alive_open,
  both, ticked, beats_eq, takes_eq, ticks_eq, tick_kept,
}

module _ (h : Heartbeat) (a : ℕ) (w : World) (bound : h.conn ≡ some a) where
  -- Where one tick is late, and those before it have room, the first one that is stays in `check` for
  -- ever: the connection stays open, with its socket.
  pub run_late :
      (es : List Event) (g : AppConfig) (c : Connection)
      → c.is_closed ≡ false
      → c.checker ≡ selecting
      → in_time c.last_activity_time g es ≡ false
      → roomy h c.msg_cap c.msg_chan es ≡ true
      → (d : Connection) × (run h a g es (at w a c) ≡ blocks (at w a d))
        × (d.checker ≡ checking)
        × (d.is_closed ≡ false)
        × (d.socket_closed ≡ c.socket_closed)
  unfolding run
  run_late [] g c o k t r = absurd (ground arith)
  run_late (beats now ∷ es) g c o k t r =
      let (d, e, stuck, still, socket) =
        run_late es g (record c { last_activity_time = now }) o k t r in
      (d, ap (run h a g es) (beats_eq h a w bound now c k) ∙ e, stuck, still, socket)
  run_late (ticks now msg ∷ es) g c o k t r =
      let next : Connection = ticked h msg c in
      let (room, roomy_later) = both (has_room c) (roomy h c.msg_cap next.msg_chan es) r in
      elim (Bool-cases (ltb now (c.last_activity_time + max_time g))) [
        | inl soon ↦
            let (d, e, stuck, still, socket) =
              run_late es g next o refl (simp soon at t) roomy_later in
            (d, tick_kept h a w bound now msg es g c o k soon room ∙ e, stuck, still, socket)
        | inr late ↦
            let dead = alive_open now (max_time g) c o ∙ late in
            (
              record c { checker = checking },
              ticks_eq h a w bound now msg es g c k
                  ∙ rw ((tick_dead h now (max_time g) msg a w c bound o dead).0, ◌>>=◌) refl,
              refl,
              o,
              refl,
            )
      ]
  run_late (takes ∷ es) g c o k t r =
      let next : Connection = record c {
        msg_chan = behind_first c.msg_chan;
        checker = selecting;
      } in
      let (d, e, stuck, still, socket) = run_late es g next o refl t r in
      (d, ap (run h a g es) (takes_eq h a w bound c k) ∙ e, stuck, still, socket)
  run_late (reloads later ∷ es) g c o k t r = run_late es later c o k t r
