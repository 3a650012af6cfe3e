-- ===== src/Conn/Send/Wire.antt =====
-- What the writer of server/conn.go has written, against the messages that `Send` took.
use mathlib.Core.List.{append_assoc, append-nil}
use gts.Base.{
  ℕ, ◌≡◌, refl, sym, ap, ◌∙◌, Bool, true, false, Option, none, some, List, [], ◌∷◌, ◌++◌, arith,
  take, drop, take-append-drop, concat, concat_snoc, ltb, length, map, subst, ◌+◌, inl, inr,
  if◌then◌else◌, Bool-cases,
}
use gts.World.{Connection}
use gts.Message.{Message, new_msg_package, pack}
use gts.Conn.Reader.Frames.{frames, AllFit, ends_of_input, read_rounds-frames}
use gts.Conn.Reader.{classify, read_rounds}
use gts.Conn.Send.{
  closed, sent, waits, send, Link, write_next, Event, send_msg, write, see_done, close, sending,
  step, run, new_link,
}

frames_snoc : (ms : List Message) (m : Message) → frames (ms ++ m ∷ []) ≡ frames ms ++ pack m
frames_snoc [] m = append-nil (pack m)
frames_snoc (n ∷ ns) m =
    ap (◌++◌ (pack n)) (frames_snoc ns m) ∙ sym (append_assoc (pack n) (frames ns) (pack m))

-- The bytes on the wire are the beginning of the frames of the accepted messages; while the
-- writer runs, what is missing is what the channel holds.
pub record Sends (l : Link) : Type 0 where
  pub missing : List ℕ
  pub whole : l.wire ++ missing ≡ frames l.accepted
  pub writing : l.is_writing ≡ true → missing ≡ concat l.conn.msg_chan

module _ (l : Link) (chunk : List ℕ) (m : Message) (e : chunk ≡ pack m) (s : Sends l) where
  -- A message is appended to both sides.
  accept-Sends : Sends (record l {
    conn = record l.conn { msg_chan = l.conn.msg_chan ++ chunk ∷ [] };
    accepted = l.accepted ++ m ∷ [];
  })
  accept-Sends = record {
    missing = s.missing ++ chunk;
    whole =
        sym (append_assoc l.wire s.missing chunk)
        ∙ ap (λ xs. xs ++ chunk) s.whole
        ∙ ap (◌++◌ (frames l.accepted)) e
        ∙ sym (frames_snoc l.accepted m);
    writing = λ t. ap (λ xs. xs ++ chunk) (s.writing t) ∙ sym (concat_snoc l.conn.msg_chan chunk);
  }

-- Of the three results, `closed` changes nothing and the other two accept the message.
sending-Sends :
    (is_closed has_room : Bool) (c : Connection) (m : Message) (l : Link)
    → Sends l
    → Sends (record l { conn = c; accepted = l.accepted ++ m ∷ [] })
    → Sends (
        sending
          (if is_closed then (closed, l.conn) else ((if has_room then sent else waits), c))
          m
          l)
unfolding sending
sending-Sends true _ c m l s t = s
sending-Sends false true c m l s t = t
sending-Sends false false c m l s t = t

send-Sends :
    (l : Link) (msg_id : ℕ) (bytes : List ℕ) → Sends l → Sends (step l (send_msg msg_id bytes))
unfolding step send
send-Sends l msg_id bytes s =
    let m = new_msg_package msg_id bytes in
    sending-Sends l.conn.is_closed (ltb (length l.conn.msg_chan) l.conn.msg_cap)
      (record l.conn { msg_chan = l.conn.msg_chan ++ pack m ∷ [] }) m l s
      (accept-Sends l (pack m) m refl s)

write-Sends :
    (l : Link) (failure : Option ℕ) (chan : List (List ℕ))
    → chan ≡ l.conn.msg_chan
    → l.is_writing ≡ true
    → Sends l
    → Sends (write_next failure chan l)
unfolding write_next
write-Sends l failure [] e h s = s
write-Sends l none (chunk ∷ rest) e h s = record {
  missing = concat rest;
  whole =
      append_assoc l.wire chunk (concat rest)
      ∙ ap (◌++◌ l.wire) (ap concat e ∙ sym (s.writing h))
      ∙ s.whole;
  writing = λ _. refl;
}
write-Sends l (some k) (chunk ∷ rest) e h s = record {
  missing = drop k chunk ++ concat rest;
  whole =
      append_assoc l.wire (take k chunk) (drop k chunk ++ concat rest)
      ∙ ap (◌++◌ l.wire) (
          sym (append_assoc (take k chunk) (drop k chunk) (concat rest))
          ∙ ap (λ xs. xs ++ concat rest) (take-append-drop k chunk)
          ∙ ap concat e
          ∙ sym (s.writing h))
      ∙ s.whole;
  writing = λ t. absurd (ground arith);
}

step-Sends : (l : Link) (e : Event) → Sends l → Sends (step l e)
unfolding step
step-Sends l (send_msg msg_id bytes) s = send-Sends l msg_id bytes s
step-Sends l (write failure) s = elim (Bool-cases l.is_writing) [
  | inl t ↦ simp t (write-Sends l failure l.conn.msg_chan refl t s)
  | inr f ↦ simp f s
]
step-Sends l see_done s = elim (Bool-cases l.conn.ctx_done) [
  | inl t ↦
      simp t (record { missing = s.missing; whole = s.whole; writing = λ h. absurd (ground arith) })
  | inr f ↦ simp f s
]
step-Sends l close s = record { missing = s.missing; whole = s.whole; writing = s.writing }

run-Sends : (l : Link) (es : List Event) → Sends l → Sends (run l es)
unfolding run
run-Sends l [] s = s
run-Sends l (e ∷ es) s = run-Sends (step l e) es (step-Sends l e s)

-- From a connection that was just started, whatever calls, writes, failures and stops follow, the
-- bytes on the wire begin the frames of the accepted messages in the order of the calls, and while
-- the writer runs, what is missing is what the channel holds.
pub new_link-Sends : (c : Connection) (es : List Event) → Sends (run (new_link c) es)
unfolding new_link
new_link-Sends c es =
    run-Sends (new_link c) es (record { missing = []; whole = refl; writing = λ _. refl })

-- What the peer's read loop makes of the wire of a running writer whose channel is drained: every
-- message that `Send` took, once, in the order of the calls, when each is within the peer's limit.
pub send-read_rounds :
    (max_packet_size n : ℕ) (c : Connection) (es : List Event)
    → (run (new_link c) es).is_writing ≡ true
    → (run (new_link c) es).conn.msg_chan ≡ []
    → AllFit max_packet_size (run (new_link c) es).accepted
    → read_rounds max_packet_size
        (length (run (new_link c) es).accepted + n)
        (run (new_link c) es).wire
      ≡ (map classify (run (new_link c) es).accepted ++ ends_of_input n, [])
send-read_rounds max_packet_size n c es writing drained fit =
    let l = run (new_link c) es in
    let s = new_link-Sends c es in
    let sent_all =
      sym (append-nil l.wire)
      ∙ ap (◌++◌ l.wire) (sym (s.writing writing ∙ ap concat drained))
      ∙ s.whole in
    subst
      (λ bytes.
        read_rounds max_packet_size (length l.accepted + n) bytes
        ≡ (map classify l.accepted ++ ends_of_input n, []))
      (sym sent_all) (read_rounds-frames max_packet_size n l.accepted fit)

write_next-accepted :
    (failure : Option ℕ) (chan : List (List ℕ)) (l : Link)
    → ((write_next failure chan l).accepted ≡ l.accepted)
      × ((write_next failure chan l).conn.is_closed ≡ l.conn.is_closed)
unfolding write_next
write_next-accepted failure [] l = (refl, refl)
write_next-accepted none (chunk ∷ rest) l = (refl, refl)
write_next-accepted (some k) (chunk ∷ rest) l = (refl, refl)

step_closed :
    (l : Link) (e : Event)
    → l.conn.is_closed ≡ true
    → ((step l e).accepted ≡ l.accepted) × ((step l e).conn.is_closed ≡ true)
unfolding step send sending
step_closed l (send_msg msg_id bytes) h = simp h (refl, refl)
step_closed l (write failure) h = ground (arith, write_next-accepted failure l.conn.msg_chan l)
step_closed l see_done h = ground arith
step_closed l close h = (refl, refl)

-- Once a connection is closed, no call of `Send` is accepted any more, whatever else happens.
pub closed-accepted :
    (l : Link) (es : List Event) → l.conn.is_closed ≡ true → (run l es).accepted ≡ l.accepted
unfolding run
closed-accepted l [] h = refl
closed-accepted l (e ∷ es) h =
    let (same, still) = step_closed l e h in closed-accepted (step l e) es still ∙ same
