-- ===== src/Conn/Tests.antt =====
-- Connections of server/conn.go at concrete values.
use gts.World.Sample.{open_conn}
use gts.Base.{
  ◌+◌, ◌≡◌, refl, inl, inr, ◌==◌, if◌then◌else◌, true, false, none, List, [], ◌∷◌, ◌++◌, map,
  length, arith,
}
use gts.World.{Connection, World, returns, blocks, at}
use gts.Message.{Message, too_large, is_too_large, pack}
use gts.Message.Frame.{IsFramed}
use gts.Registry.{clear_conn}
use gts.Conn.{stop}
use gts.Conn.Stop.{Stoppable, stopped_world, stop_lem}
use gts.Conn.Clear.{clear_conn-blocks}
use gts.Conn.Reader.{classify, read_rounds}
use gts.Conn.Reader.Frames.{ends_of_input, AllFit}
use gts.Conn.Send.{Event, send_msg, write, close, new_link, run}
use gts.Conn.Send.Wire.{Sends, new_link-Sends, send-read_rounds}
use gts.Conn.Race
use gts.Conn.Stream
use gts.Conn.Stream.{Chunk, returned, kcp_round, quic_round, ws_round}
use gts.Conn.Stream.Reads.{quic_round-empty}

abbrev own_conn : Connection
own_conn = record open_conn {
  has_on_start = true;
  has_on_stop = true;
  property = (1, 10) ∷ (2, 20) ∷ [];
  last_activity_time = 100;
}

abbrev closed_conn : Connection
closed_conn = record own_conn { is_closed = true }

-- Every address holds the connection; the table has it at the address 4.
abbrev world : World
world = record { heap = λ _. own_conn; connections = (7, 4) ∷ []; locked = false }

own_conn-Stoppable : Stoppable world own_conn
own_conn-Stoppable = record { heard = inl refl; unlocked = λ _. refl; started = refl }

stop_lem_example : stop 4 (at world 4 own_conn) ≡ returns tt (stopped_world world 4 own_conn)
stop_lem_example = stop_lem world 4 own_conn refl own_conn-Stoppable

-- A table with a closed connection in front of an open one.
abbrev two_conns : World
two_conns = record {
  heap = λ a. if a == 3 then closed_conn else own_conn;
  connections = (6, 3) ∷ (7, 4) ∷ [];
  locked = false;
}

clear_conn-blocks_example : (v : World) × (clear_conn stop two_conns ≡ blocks v) × (v.locked ≡ true)
clear_conn-blocks_example = clear_conn-blocks two_conns refl (refl, (refl, tt)) (inr (inl refl))

abbrev ping : Message
ping = record { id = 5; data_len = 2; body = 1 ∷ 2 ∷ [] }

abbrev beat : Message
beat = record { id = 99999; data_len = 0; body = [] }

ping-IsFramed : IsFramed ping
ping-IsFramed = record { sized = refl; short = omega arith; small_id = omega arith }

beat-IsFramed : IsFramed beat
beat-IsFramed = record { sized = refl; short = omega arith; small_id = omega arith }

abbrev messages : List Message
messages = ping ∷ beat ∷ ping ∷ []

messages-AllFit : AllFit 4096 messages
unfolding is_too_large
messages-AllFit = (ping-IsFramed, refl, (beat-IsFramed, refl, (ping-IsFramed, refl, tt)))

-- Two calls, of which the writer has written both.
abbrev events : List Event
events = send_msg 5 (1 ∷ 2 ∷ []) ∷ write none ∷ send_msg 6 [] ∷ write none ∷ []

new_link-Sends_example : Sends (run (new_link own_conn) events)
new_link-Sends_example = new_link-Sends own_conn events

events-AllFit : AllFit 4096 (run (new_link own_conn) events).accepted
unfolding is_too_large run new_link gts.Conn.Send.step gts.Conn.Send.send gts.Conn.Send.sending
    gts.Conn.Send.write_next gts.Message.new_msg_package
events-AllFit = (
  record { sized = refl; short = omega arith; small_id = omega arith },
  refl,
  (record { sized = refl; short = omega arith; small_id = omega arith }, refl, tt),
)

send-read_rounds_example :
    read_rounds 4096
      (length (run (new_link own_conn) events).accepted + 1)
      (run (new_link own_conn) events).wire
    ≡ (map classify (run (new_link own_conn) events).accepted ++ ends_of_input 1, [])
unfolding run new_link gts.Conn.Send.step gts.Conn.Send.send gts.Conn.Send.sending
    gts.Conn.Send.write_next
send-read_rounds_example = send-read_rounds 4096 1 own_conn events refl refl events-AllFit

abbrev empty_message : Message
empty_message = record { id = 5; data_len = 0; body = [] }

quic_round_of_head :
    quic_round 0 (record { bytes = 0 ∷ 0 ∷ 0 ∷ 0 ∷ 5 ∷ 0 ∷ 0 ∷ 0 ∷ []; fails = false } ∷ [])
    ≡ (Stream.request empty_message, [])
unfolding quic_round gts.Message.unpack gts.Message.read_head gts.Message.read_u32
    gts.Message.read_full gts.Message.from_le
quic_round_of_head = refl

quic_round-empty_example : (empty_message.data_len ≡ 0) × (empty_message.body ≡ [])
quic_round-empty_example =
    quic_round-empty 0 (record { bytes = 0 ∷ 0 ∷ 0 ∷ 0 ∷ 5 ∷ 0 ∷ 0 ∷ 0 ∷ []; fails = false } ∷ [])
      [] empty_message quic_round_of_head

-- Three calls of `Stop` that overlap, and a fourth one.
abbrev before : Race.Racing
before = record {
  is_closed = false;
  has_checker = true;
  listening = true;
  has_on_stop = true;
  tested = 0;
  past_quit = 0;
  hook_calls = 0;
}

abbrev fourth : List Race.Event
fourth = Race.tests ∷ Race.quits ∷ Race.sets ∷ []
