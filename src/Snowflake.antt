-- ===== src/Snowflake.antt =====
-- utils/snowflake.go: identifiers from a clock, a datacenter, a worker and a sequence number. The
-- clock is the list of the milliseconds that `time.Now` will give, in the order of its calls; an
-- `int64` is its bit pattern.
pub mod Layout
pub mod Increase
pub mod Repeat
mod Tests
use Prim.Native.Nat.{bit_or}
use gts.Base.{
  ℕ, zero, suc, ◌+◌, ◌%◌, ◌^◌, Option, none, some, List, [], ◌∷◌, leb, ◌==◌, if◌then◌else◌,
}
use gts.Base.Word.{sub64, shl64, slt64}
use gts.Base.Result.{Result, ok, err}

abbrev pub epoch : ℕ
epoch = 1577808000000

-- `-1 ^ (-1 << timestampBits)`
abbrev pub timestamp_max : ℕ
timestamp_max = 2199023255551

pub record Generator : Type 0 where
  pub timestamp : ℕ
  pub worker_id : ℕ
  pub datacenter_id : ℕ
  pub sequence : ℕ

unfoldable pub new_generator : ℕ → ℕ → Generator
new_generator worker_id datacenter_id = record {
  timestamp = 0;
  worker_id = worker_id;
  datacenter_id = datacenter_id;
  sequence = 0;
}

pub data IdError : Type 0 where
  out_of_epoch : IdError

-- The loop that waits for a millisecond after `timestamp`; `none` while the clock gives none.
unfoldable pub wait_next : ℕ → ℕ → List ℕ → Option (ℕ × List ℕ)
wait_next timestamp now [] = if leb now timestamp then none else some (now, [])
wait_next timestamp now (r ∷ rs) =
    let later = wait_next timestamp r rs in if leb now timestamp then later else some (now, r ∷ rs)

-- `t<<22 | datacenterId<<17 | workerId<<12 | sequence`
unfoldable pub join_fields : ℕ → ℕ → ℕ → ℕ → ℕ
join_fields t datacenter_id worker_id sequence =
    bit_or (bit_or (bit_or (shl64 t 22) (shl64 datacenter_id 17)) (shl64 worker_id 12)) sequence

-- `NextVal` from the test of the epoch on.
unfoldable pub finish : Generator → ℕ → ℕ → Result IdError ℕ × Generator
finish g sequence now =
    let t = sub64 now epoch in
    if slt64 timestamp_max t then (err out_of_epoch, record g { sequence = sequence }) else (
      ok (join_fields t g.datacenter_id g.worker_id sequence),
      record g { timestamp = now; sequence = sequence },
    )

-- `NextVal`, with the readings that are left of the clock.
unfoldable pub next_val : Generator → List ℕ → Option (Result IdError ℕ × Generator × List ℕ)
next_val g [] = none
next_val g (now ∷ readings) =
    if g.timestamp == now
    then (let sequence = (g.sequence + 1) % 2 ^ 12 in
        if sequence == 0
        then elim (wait_next g.timestamp now readings) [
          | none ↦ none
          | some (later, rest) ↦ let (r, h) = finish g sequence later in some (r, h, rest)
        ]
        else let (r, h) = finish g sequence now in some (r, h, readings))
    else let (r, h) = finish g 0 now in some (r, h, readings)

-- Successive calls, up to the first that fails or still waits, and the identifiers they gave.
unfoldable pub issue : ℕ → Generator → List ℕ → List ℕ
issue zero g readings = []
issue (suc n) g readings = elim (next_val g readings) [
  | none ↦ []
  | some (r, h, rest) ↦ elim r [ err e ↦ [] | ok id ↦ id ∷ issue n h rest ]
]
