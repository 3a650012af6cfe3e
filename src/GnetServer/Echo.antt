-- ===== src/GnetServer/Echo.antt =====
-- What a peer reads back from the server of server/server_gnet.go.
use gts.Base.{ℕ, ◌^◌, ◌<◌, ◌≡◌, refl, subst, false, List, ◌++◌, arith, length}
use gts.Message.{Message, pack, new_msg_package, is_too_large}
use gts.Conn.Reader.{request, classify, read_round}
use gts.Conn.Reader.Frames.{read_round-pack}
use gts.GnetServer.{react}

-- Whatever bytes come in, of a length that fits the peer's limit, the peer reads them back as the
-- data of one message with the identifier 1: no handler of the server is called.
pub react-read_round :
    (max_packet_size : ℕ) (frame rest : List ℕ)
    → length frame < 2 ^ 32
    → is_too_large max_packet_size (length frame) ≡ false
    → read_round max_packet_size (react frame ++ rest)
      ≡ (request (record { id = 1; data_len = length frame; body = frame }), rest)
unfolding react new_msg_package classify
react-read_round max_packet_size frame rest h fits =
    let m : Message = record { id = 1; data_len = length frame; body = frame } in
    subst
      (λ (n : ℕ).
        read_round max_packet_size (pack (record m { data_len = n }) ++ rest) ≡ (request m, rest))
      (omega arith)
      (read_round-pack max_packet_size m rest
        (record { sized = refl; short = h; small_id = omega arith }) fits)
