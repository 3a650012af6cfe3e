-- ===== src/Message/Tests.antt =====
-- Frames of message/datapack.go at concrete values.
use gts.Base.{ℕ, ◌≡◌, refl, List, [], ◌∷◌, ◌++◌, arith}
use gts.Base.Result.{ok}
use gts.Message.{Message, eof, unexpected_eof, too_large, write_u32, pack, is_too_large, unpack}
use gts.Message.Frame.{IsFramed}
use gts.Message.RoundTrip.{unpack-pack, unpack_sound}

abbrev hello : Message
hello = record { id = 300; data_len = 3; body = 72 ∷ 105 ∷ 33 ∷ [] }

abbrev hello_frame : List ℕ
hello_frame = 3 ∷ 0 ∷ 0 ∷ 0 ∷ 44 ∷ 1 ∷ 0 ∷ 0 ∷ 72 ∷ 105 ∷ 33 ∷ []

hello-IsFramed : IsFramed hello
hello-IsFramed = record { sized = refl; short = omega arith; small_id = omega arith }

hello_bytes : pack hello ≡ hello_frame
unfolding pack write_u32
hello_bytes = refl

unpack-pack_example : unpack 4096 (pack hello ++ 7 ∷ []) ≡ ok hello
unfolding is_too_large
unpack-pack_example = unpack-pack 4096 hello hello-IsFramed (7 ∷ []) refl

unpack_sound_example : (rest : List ℕ) × (hello_frame ≡ pack hello ++ rest)
unfolding unpack gts.Message.read_head gts.Message.read_u32 gts.Message.read_full
    gts.Message.from_le gts.Message.set_data
unpack_sound_example = unpack_sound 0 hello_frame hello (ground arith) refl
