-- ===== src/Heartbeat/Activity.antt =====
-- Which messages keep a connection of server/conn.go alive for its checker.
use gts.Base.{
  ℕ, ◌+◌, ◌≡◌, refl, ap, ◌∙◌, inl, inr, Bool, true, false, ◌&&◌, List, ◌++◌, ltb, ◌==◌,
  if◌then◌else◌, Bool-cases,
}
use gts.World.{Connection}
use gts.Message.{Message, pack, is_too_large}
use gts.Message.Frame.{IsFramed}
use gts.Conn.Reader.{classify, read_round}
use gts.Conn.Reader.Frames.{read_round-pack}
use gts.Conn.Property.{is_alive, update_activity}
use gts.Heartbeat.{has_heartbeat, after_round}

after_round-classify :
    (now : ℕ) (m : Message) (c : Connection)
    → after_round now (classify m) c
      ≡ (if m.id == 99999 && has_heartbeat c.checker then update_activity now c else c)
unfolding after_round classify
after_round-classify now m c = elim (Bool-cases (m.id == 99999)) [
  | inl e ↦ rw e refl
  | inr e ↦ rw e refl
]

is_alive-update_activity :
    (now later max : ℕ) (c : Connection) (b : Bool)
    → c.is_closed ≡ false
    → is_alive later max (if b then update_activity now c else c)
      ≡ ltb later ((if b then now else c.last_activity_time) + max)
unfolding is_alive update_activity
is_alive-update_activity now later max c true o = simp o refl
is_alive-update_activity now later max c false o = simp o refl

-- A frame within the limit that is read at the time `now` counts as activity exactly when it has the
-- default identifier and the connection has a checker: an open connection is then alive for `max`
-- from `now` on. Every other message leaves the connection as it was.
pub activity_lem :
    (max_packet_size now later max : ℕ) (m : Message) (rest : List ℕ) (c : Connection)
    → IsFramed m
    → is_too_large max_packet_size m.data_len ≡ false
    → c.is_closed ≡ false
    → (after_round now (read_round max_packet_size (pack m ++ rest)).0 c
        ≡ (if m.id == 99999 && has_heartbeat c.checker then update_activity now c else c))
      × (is_alive later max (after_round now (read_round max_packet_size (pack m ++ rest)).0 c)
          ≡ ltb later (
              (if m.id == 99999 && has_heartbeat c.checker then now else c.last_activity_time)
              + max))
activity_lem max_packet_size now later max m rest c f fits o =
    let e =
      ap (λ p. after_round now p.0 c) (read_round-pack max_packet_size m rest f fits)
      ∙ after_round-classify now m c in
    (
      e,
      ap (is_alive later max) e
          ∙ is_alive-update_activity now later max c (m.id == 99999 && has_heartbeat c.checker) o,
    )
