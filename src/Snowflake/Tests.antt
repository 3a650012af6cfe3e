-- ===== src/Snowflake/Tests.antt =====
-- Identifiers of utils/snowflake.go at concrete times.
use gts.Base.{ℕ, ◌≡◌, refl, some, List, [], ◌∷◌, arith}
use gts.Base.Result.{ok}
use gts.Snowflake.{Generator, next_val, issue}
use gts.Snowflake.Layout.{Fits, join_fields-injective}
use gts.Snowflake.Increase.{IsValid, Increasing, issue-Increasing}
use gts.Snowflake.Repeat.{next_val-ok}

abbrev used : Generator
used = record { timestamp = 1577808000005; worker_id = 3; datacenter_id = 1; sequence = 4095 }

used-IsValid : IsValid used
used-IsValid = record { datacenter = omega arith; worker = omega arith; number = omega arith }

-- The sequence numbers of the millisecond are used up, and the clock stands still twice.
abbrev readings : List ℕ
readings = 1577808000005 ∷ 1577808000005 ∷ 1577808000006 ∷ 1577808000006 ∷ []

issue-Increasing_example : Increasing (issue 2 used readings)
issue-Increasing_example =
    issue-Increasing 2 used readings used-IsValid (ground arith) (ground arith)

abbrev time : ℕ
time = 5

abbrev datacenter : ℕ
datacenter = 1

abbrev worker : ℕ
worker = 3

abbrev number : ℕ
number = 4095

field-Fits : Fits time datacenter worker number
field-Fits = record {
  time = omega arith;
  datacenter = omega arith;
  worker = omega arith;
  number = omega arith;
}

join_fields-injective_example :
    (time ≡ time) × (datacenter ≡ datacenter) × (worker ≡ worker) × (number ≡ number)
join_fields-injective_example =
    join_fields-injective time datacenter worker number time datacenter worker number field-Fits
      field-Fits refl

next_val-ok_example :
    (id : ℕ) × (h : Generator) × (rest : List ℕ) × (next_val used readings ≡ some (ok id, h, rest))
next_val-ok_example = next_val-ok used readings (ground arith) (ground arith)
