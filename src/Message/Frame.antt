-- ===== src/Message/Frame.antt =====
-- The bytes of one frame (message/datapack.go): their number, and reading them back.
use gts.Base.{
  ℕ, ◌^◌, ◌<◌, ◌≡◌, refl, ap, List, [], ◌∷◌, ◌++◌, arith, length, length-append, take, drop,
}
use gts.Base.Result.{ok}
use gts.Message.{Message, write_u32, read_full, from_le, read_u32}

-- A message that its own frame describes: `DataLen` is the length of the data, and both numbers
-- are `uint32` values.
pub record IsFramed (m : Message) : Type 0 where
  pub sized : m.data_len ≡ length m.body
  pub short : m.data_len < 2 ^ 32
  pub small_id : m.id < 2 ^ 32

pub from_le-write_u32 : (n : ℕ) → n < 2 ^ 32 → from_le (write_u32 n) ≡ n
unfolding from_le write_u32
from_le-write_u32 n h = omega arith

pub read_u32-write_u32 :
    (n : ℕ) (rest : List ℕ) → n < 2 ^ 32 → read_u32 (write_u32 n ++ rest) ≡ ok (n, rest)
unfolding read_u32 read_full write_u32 from_le
read_u32-write_u32 n rest h = ground arith

pub take-length : (xs ys : List ℕ) → take (length xs) (xs ++ ys) ≡ xs
take-length [] ys = refl
take-length (x ∷ xs) ys = ap (◌∷◌ x) (take-length xs ys)

pub drop-length : (xs ys : List ℕ) → drop (length xs) (xs ++ ys) ≡ ys
drop-length [] ys = refl
drop-length (x ∷ xs) ys = drop-length xs ys

pub read_full-append :
    (n : ℕ) (xs ys : List ℕ) → n ≡ length xs → read_full n (xs ++ ys) ≡ ok (xs, ys)
unfolding read_full
read_full-append n xs ys e =
    rw e (ground (arith, length-append xs ys, take-length xs ys, drop-length xs ys))
