-- ===== src/Snowflake/Layout.antt =====
-- The fields of an identifier of utils/snowflake.go.
use Prim.Native.Nat.{bit_or}
use mathlib.Core.Path.{ap₂}
use gts.Base.{ℕ, ◌+◌, ◌*◌, ◌^◌, ◌≤◌, ◌<◌, ◌≡◌, sym, ap, ◌∙◌, arith}
use gts.Base.Word.{shl64}
use gts.Base.Bits.{bit_or-shift}
use gts.Snowflake.{join_fields, timestamp_max}

-- Each field is within the bits that the layout gives it.
pub record Fits (t datacenter_id worker_id sequence : ℕ) : Type 0 where
  pub time : t ≤ timestamp_max
  pub datacenter : datacenter_id < 2 ^ 5
  pub worker : worker_id < 2 ^ 5
  pub number : sequence < 2 ^ 12

abbrev pub layout : ℕ → ℕ → ℕ → ℕ → ℕ
layout t d w s = t * 2 ^ 22 + d * 2 ^ 17 + w * 2 ^ 12 + s

or_high :
    (t d : ℕ)
    → t ≤ timestamp_max
    → d < 2 ^ 5
    → bit_or (shl64 t 22) (shl64 d 17) ≡ (t * 32 + d) * 2 ^ 17
or_high t d ht hd =
    let e : shl64 t 22 ≡ t * 2 ^ 22 = omega arith in
    let f : shl64 d 17 ≡ d * 2 ^ 17 = omega arith in
    ap₂ bit_or e f ∙ bit_or-shift 22 t (d * 2 ^ 17) (omega arith) ∙ omega arith

or_middle : (h w : ℕ) → w < 2 ^ 5 → bit_or (h * 2 ^ 17) (shl64 w 12) ≡ (h * 32 + w) * 2 ^ 12
or_middle h w hw =
    let f : shl64 w 12 ≡ w * 2 ^ 12 = omega arith in
    ap (bit_or (h * 2 ^ 17)) f ∙ bit_or-shift 17 h (w * 2 ^ 12) (omega arith) ∙ omega arith

-- With every field within its bits the shifts and `|` add the fields up.
pub join_fields-layout : (t d w s : ℕ) → Fits t d w s → join_fields t d w s ≡ layout t d w s
unfolding join_fields
join_fields-layout t d w s f =
    rw (or_high t d f.time f.datacenter, or_middle (t * 32 + d) w f.worker)
      (bit_or-shift 12 ((t * 32 + d) * 32 + w) s f.number ∙ omega arith)

-- Equal identifiers have equal fields, when all fields are within their bits: generators with
-- another datacenter or worker never give the same identifier, whatever their clocks say.
pub join_fields-injective :
    (t d w s t' d' w' s' : ℕ)
    → Fits t d w s
    → Fits t' d' w' s'
    → join_fields t d w s ≡ join_fields t' d' w' s'
    → (t ≡ t') × (d ≡ d') × (w ≡ w') × (s ≡ s')
join_fields-injective t d w s t' d' w' s' f f' e =
    let same : layout t d w s ≡ layout t' d' w' s' =
      sym (join_fields-layout t d w s f) ∙ e ∙ join_fields-layout t' d' w' s' f' in
    omega arith

or_overflow :
    (t w : ℕ)
    → t ≤ timestamp_max
    → w < 2 ^ 5
    → bit_or (bit_or (shl64 t 22) (shl64 0 17)) (shl64 (w + 32) 12)
      ≡ ((t * 32 + 1) * 32 + w) * 2 ^ 12
or_overflow t w ht hw =
    let e : bit_or (shl64 t 22) (shl64 0 17) ≡ t * 2 ^ 22 =
      or_high t 0 ht (omega arith) ∙ omega arith in
    let f : shl64 (w + 32) 12 ≡ (w + 32) * 2 ^ 12 = omega arith in
    ap₂ bit_or e f ∙ bit_or-shift 22 t ((w + 32) * 2 ^ 12) (omega arith) ∙ omega arith

-- `NewSnowflakeGenerator` does not test its arguments against `workerIdMax`: a worker that is 32
-- too large collides with a worker of the next datacenter, at every time and sequence number.
pub worker_out_of_range :
    (t w s : ℕ) → Fits t 0 w s → join_fields t 0 (w + 32) s ≡ join_fields t 1 w s
unfolding join_fields
worker_out_of_range t w s f =
    ap (λ (h : ℕ). bit_or h s) (or_overflow t w f.time f.worker)
    ∙ bit_or-shift 12 ((t * 32 + 1) * 32 + w) s f.number
    ∙ omega arith
    ∙ sym (
        join_fields-layout t 1 w s (record {
          time = f.time;
          datacenter = omega arith;
          worker = f.worker;
          number = f.number;
        }))
