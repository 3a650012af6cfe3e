-- ===== src/Transport/Ws/Laws.antt =====
-- The connection of server/conn_ws.go between two messages and while it waits for one.
use mathlib.Core.Path.{fun_ext}
use gts.Base.{
  ℕ, ◌≡◌, refl, sym, ap, ◌∙◌, subst, Bool, true, false, not, Option, none, some, List, [], ◌∷◌,
  if◌then◌else◌, take,
}
use gts.World.{
  Connection, World, blocks, M, ◌>>=◌, ◌>>◌, pure, when, load, modify, at, at_laws, at-heap,
}
use gts.Conn
use gts.Transport.{Select, written, cancelled, IsConnection}
use gts.Transport.Tcp
use gts.Transport.Ws.{
  start, lock, stop_open, stop, send, write_chunk, writer_round, set_property, get_property,
  remove_property, is_alive, ops,
}

stop_at :
    (a : ℕ) (w : World) (b : Bool)
    → (w.heap a).is_closed ≡ b
    → stop false a w ≡ when (not b) (stop_open a) w
unfolding stop lock
stop_at a w true e = rw e refl
stop_at a w false e = rw e (rw e refl)

tcp_stop_at :
    (a : ℕ) (w : World) (b : Bool)
    → (w.heap a).is_closed ≡ b
    → Conn.stop a w ≡ when (not b) (stop_open a) w
unfolding Conn.stop Conn.stop_open stop_open
tcp_stop_at a w true e = rw e refl
tcp_stop_at a w false e = rw e refl

stop-tcp : (a : ℕ) → stop false a ≡ Conn.stop a
stop-tcp a =
    fun_ext
      λ w. stop_at a w (w.heap a).is_closed refl ∙ sym (tcp_stop_at a w (w.heap a).is_closed refl)

write_chunk-tcp :
    (failure : Option ℕ) (chan : List (List ℕ)) (a : ℕ)
    → write_chunk false failure chan a ≡ Tcp.write_chunk failure chan a
unfolding write_chunk Tcp.write_chunk
write_chunk-tcp failure [] a = refl
write_chunk-tcp none (chunk ∷ rest) a = refl
write_chunk-tcp (some k) (chunk ∷ rest) a =
    ap
      (λ (s : M (Unit {0})).
        modify a (λ c. record c { msg_chan = rest }) >> (s >> pure (take k chunk, false)))
      (stop-tcp a)

writer_round-tcp : (s : Select) (a : ℕ) → writer_round false s a ≡ Tcp.writer_round s a
unfolding writer_round Tcp.writer_round
writer_round-tcp (written failure) a =
    ap (λ (k : List (List ℕ) → M (List ℕ × Bool)). load a >>= λ c. k c.msg_chan)
      (fun_ext λ chan. write_chunk-tcp failure chan a)
writer_round-tcp cancelled a =
    ap
      (λ (s : M (Unit {0})).
        load a >>= λ c. if c.ctx_done then (s >> pure ([], false)) else pure ([], true))
      (stop-tcp a)

ops-tcp : ops false ≡ Tcp.ops
unfolding start send set_property get_property remove_property is_alive gts.Heartbeat.start_conn
    gts.Conn.Send.send gts.Conn.Property.set_property gts.Conn.Property.get_property
    gts.Conn.Property.remove_property gts.Conn.Property.is_alive
ops-tcp =
    ap (λ (s : ℕ → M (Unit {0})). record (ops false) { stop = s }) (fun_ext stop-tcp)
    ∙ ap
        (λ (r : Select → ℕ → M (List ℕ × Bool)). record (ops false) {
          stop = Conn.stop;
          writer_round = r;
        })
        (fun_ext λ s. fun_ext (writer_round-tcp s))

-- The connection of server/conn_ws.go keeps every law of a connection while its reader is not in
-- `ReadMessage`.
pub ops-IsConnection : IsConnection (ops false)
ops-IsConnection = subst IsConnection (sym ops-tcp) Tcp.ops-IsConnection

stop_reading : (a : ℕ) (w : World) → (w.heap a).is_closed ≡ false → stop true a w ≡ blocks w
unfolding stop lock
stop_reading a w o = rw o refl

open_at :
    (w : World) (a : ℕ) (c : Connection)
    → c.is_closed ≡ false
    → ((at w a c).heap a).is_closed ≡ false
open_at w a c o = ap (λ (d : Connection). d.is_closed) (at-heap w a c) ∙ o

-- While the reader of an open connection waits in `ReadMessage` for a peer that stays silent, `Stop`
-- waits and leaves the connection open, in its table and with its socket open, and so does a
-- writer whose write failed.
pub stop-silent :
    (a k : ℕ) (w : World) (c : Connection) (chunk : List ℕ) (rest : List (List ℕ))
    → c.is_closed ≡ false
    → c.msg_chan ≡ chunk ∷ rest
    → (stop true a (at w a c) ≡ blocks (at w a c))
      × (writer_round true (written (some k)) a (at w a c)
          ≡ blocks (at w a (record c { msg_chan = rest })))
unfolding writer_round write_chunk
stop-silent a k w c chunk rest o e =
    let d : Connection = record c { msg_chan = rest } in
    (
      stop_reading a (at w a c) (open_at w a c o),
      rw (at-heap w a c, ◌>>=◌)
          (ap (λ (chan : List (List ℕ)). write_chunk true (some k) chan a (at w a c)) e
            ∙ simp at_laws (rw (stop_reading a (at w a d) (open_at w a d o), ◌>>=◌) refl)),
    )
