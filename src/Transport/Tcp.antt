-- ===== src/Transport/Tcp.antt =====
-- The connection of server/conn.go keeps the laws of a connection.
use gts.Base.{
  ℕ, ◌≡◌, refl, ap, ◌∙◌, Bool, true, false, if◌then◌else◌, Option, none, some, List, [], ◌∷◌, ◌++◌,
  arith, take,
}
use gts.World.{Connection, World, returns, M, ◌>>=◌, ◌>>◌, pure, load, modify, at, at_laws, at-heap}
use gts.Message.{new_msg_package, pack}
use gts.Conn.{stop}
use gts.Conn.Send.{closed, send}
use gts.Conn.Stop.{Stoppable, stopped_world, stop_lem, stop_closed, stop_twice}
use gts.Conn.Property.{set_property, get_property, remove_property, is_alive, property_lem}
use gts.Heartbeat.{start_conn}
use gts.Heartbeat.Lifecycle.{start_stop}
use gts.Transport.{Select, written, cancelled, ConnectionOps, IsConnection}

-- The case of the writer's `select` for a value of `msgChan`.
unfoldable pub write_chunk : Option ℕ → List (List ℕ) → ℕ → M (List ℕ × Bool)
write_chunk failure [] a = pure ([], true)
write_chunk none (chunk ∷ rest) a = do
  modify a λ c. record c { msg_chan = rest }
  pure (chunk, true)
write_chunk (some k) (chunk ∷ rest) a = do
  modify a λ c. record c { msg_chan = rest }
  stop a
  pure (take k chunk, false)

-- A round of `StartWriter`, whose deferred call is `Stop`. A case that is not ready leaves the writer
-- where it is.
unfoldable pub writer_round : Select → ℕ → M (List ℕ × Bool)
unfolding write_chunk
writer_round (written failure) a = do c ← load a; write_chunk failure c.msg_chan a
writer_round cancelled a = do
  c ← load a
  if c.ctx_done then (stop a >> pure ([], false)) else pure ([], true)

abbrev pub ops : ConnectionOps
ops = record {
  start = start_conn;
  stop = stop;
  send = send;
  writer_round = writer_round;
  set_property = set_property;
  get_property = get_property;
  remove_property = remove_property;
  is_alive = is_alive;
}

refuses :
    (c : Connection) (msg_id : ℕ) (bytes : List ℕ)
    → c.is_closed ≡ true
    → send c msg_id bytes ≡ (closed, c)
unfolding send
refuses c msg_id bytes h = ground arith

dies : (now max : ℕ) (c : Connection) → c.is_closed ≡ true → is_alive now max c ≡ false
unfolding is_alive
dies now max c h = ground arith

queues :
    (c : Connection) (msg_id : ℕ) (bytes : List ℕ)
    → c.is_closed ≡ false
    → (send c msg_id bytes).1
      ≡ record c { msg_chan = c.msg_chan ++ pack (new_msg_package msg_id bytes) ∷ [] }
unfolding send
queues c msg_id bytes h = ground arith

writes :
    (a : ℕ) (w : World) (c : Connection) (chunk : List ℕ) (rest : List (List ℕ))
    → c.msg_chan ≡ chunk ∷ rest
    → writer_round (written none) a (at w a c)
      ≡ returns (chunk, true) (at w a (record c { msg_chan = rest }))
unfolding writer_round write_chunk
writes a w c chunk rest e =
    rw (at-heap w a c, ◌>>=◌)
      (ap (λ (chan : List (List ℕ)). write_chunk none chan a (at w a c)) e ∙ simp at_laws)

write_fails :
    (a k : ℕ) (w : World) (c : Connection) (chunk : List ℕ) (rest : List (List ℕ))
    → c.msg_chan ≡ chunk ∷ rest
    → c.is_closed ≡ false
    → Stoppable w c
    → writer_round (written (some k)) a (at w a c)
      ≡ returns (take k chunk, false) (stopped_world w a (record c { msg_chan = rest }))
unfolding writer_round write_chunk
write_fails a k w c chunk rest e o s =
    let d : Connection = record c { msg_chan = rest } in
    rw (at-heap w a c, ◌>>=◌)
      (ap (λ (chan : List (List ℕ)). write_chunk (some k) chan a (at w a c)) e
        ∙ simp at_laws (
            rw
              (
                stop_lem w a d o
                    (record { heard = s.heard; unlocked = s.unlocked; started = s.started }),
                ◌>>=◌,
              )
              refl))

writer_ends :
    (a : ℕ) (w : World) (c : Connection)
    → c.ctx_done ≡ true
    → c.is_closed ≡ true
    → writer_round cancelled a (at w a c) ≡ returns ([], false) (at w a c)
unfolding writer_round write_chunk
writer_ends a w c d o =
    let closed_at = ap (λ (k : Connection). k.is_closed) (at-heap w a c) ∙ o in
    rw (at-heap w a c, ◌>>=◌)
      (ap (λ (b : Bool). (if b then stop a >> pure ([], false) else pure ([], true)) (at w a c)) d
        ∙ rw (stop_closed a (at w a c) closed_at, ◌>>=◌) refl)

-- The connection of server/conn.go keeps every law of a connection.
pub ops-IsConnection : IsConnection ops
ops-IsConnection = record {
  starts_and_stops = start_stop;
  stops_once = λ a w c. stop_twice w a c;
  refuses = refuses;
  dies = dies;
  queues = queues;
  writes = writes;
  write_fails = write_fails;
  writer_ends = writer_ends;
  keeps_properties = λ c key other value m.
      let (found, removed, after, kept) = property_lem c key other value m in (found, removed);
}
