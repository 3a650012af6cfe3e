-- ===== src/Snowflake/Repeat.antt =====
-- When `NextVal` of utils/snowflake.go returns, and what it makes of a clock that goes back.
use gts.Base.{
  ℕ, ◌+◌, ◌%◌, ◌^◌, ◌-◌, ◌≤◌, ◌<◌, ◌≡◌, refl, sym, ◌≢◌, ◌⊎◌, inl, inr, arith, ltb, Bool-cases,
  false, some, List, [], ◌∷◌, ◌==◌,
}
use gts.Base.Word.{sub64, slt64}
use gts.Base.Result.{ok}
use gts.Snowflake.{Generator, join_fields, timestamp_max, epoch, wait_next, finish, next_val, issue}

-- The clock gives a reading after `timestamp`.
abbrev pub Passes : ℕ → List ℕ → Type 0
Passes timestamp [] = ⊥
Passes timestamp (r ∷ rs) = (timestamp < r) ⊎ Passes timestamp rs

-- The time is one for which the layout has a timestamp.
abbrev pub InEpoch : ℕ → Type 0
InEpoch now = (epoch ≤ now) × (now ≤ epoch + timestamp_max)

abbrev pub AllInEpoch : List ℕ → Type 0
AllInEpoch [] = Unit
AllInEpoch (r ∷ rs) = InEpoch r × AllInEpoch rs

wait_next-some :
    (timestamp now : ℕ) (readings : List ℕ)
    → AllInEpoch (now ∷ readings)
    → Passes timestamp (now ∷ readings)
    → (later : ℕ) × (rest : List ℕ) × (wait_next timestamp now readings ≡ some (later, rest))
      × InEpoch later
unfolding wait_next
wait_next-some timestamp now [] a (inl p) = (now, [], ground arith, a.0)
wait_next-some timestamp now [] a (inr p) = elim p [ ]
wait_next-some timestamp now (r ∷ rs) a (inl p) = (now, r ∷ rs, ground arith, a.0)
wait_next-some timestamp now (r ∷ rs) a (inr p) = elim (Bool-cases (ltb timestamp now)) [
  | inl past ↦ (now, r ∷ rs, ground arith, a.0)
  | inr before ↦
      let (later, rest, e, within) = wait_next-some timestamp r rs a.1 p in
      (later, rest, ground (arith, e), within)
]

abbrev id_at : Generator → ℕ → ℕ → ℕ
id_at g now sequence = join_fields (now - epoch) g.datacenter_id g.worker_id sequence

abbrev moved_to : Generator → ℕ → ℕ → Generator
moved_to g now sequence = record g { timestamp = now; sequence = sequence }

finish_ok :
    (g : Generator) (sequence now : ℕ)
    → InEpoch now
    → finish g sequence now ≡ (ok (id_at g now sequence), moved_to g now sequence)
unfolding finish
finish_ok g sequence now within =
    let e : sub64 now epoch ≡ now - epoch = omega (arith, within) in
    let f : slt64 timestamp_max (now - epoch) ≡ false = ground (arith, within) in rw (e, f) refl

-- `NextVal` gives an identifier as soon as the clock passes the time of the last one, also when
-- the sequence numbers of a millisecond are used up, while the readings are within the epoch.
pub next_val-ok :
    (g : Generator) (readings : List ℕ)
    → AllInEpoch readings
    → Passes g.timestamp readings
    → (id : ℕ) × (h : Generator) × (rest : List ℕ) × (next_val g readings ≡ some (ok id, h, rest))
unfolding next_val
next_val-ok g [] a p = elim p [ ]
next_val-ok g (now ∷ rs) a p = elim (Bool-cases (g.timestamp == now)) [
  | inr other ↦ (id_at g now 0, moved_to g now 0, rs, rw (other, finish_ok g 0 now a.0) refl)
  | inl same ↦
      let sequence : ℕ = (g.sequence + 1) % 2 ^ 12 in
      elim (Bool-cases (sequence == 0)) [
        | inr number ↦ (
          id_at g now sequence,
          moved_to g now sequence,
          rs,
          rw (same, number, finish_ok g sequence now a.0) refl,
        )
        | inl wrapped ↦
            let (later, rest, e, within) = wait_next-some g.timestamp now rs a p in
            (
              id_at g later sequence,
              moved_to g later sequence,
              rest,
              rw (same, wrapped, e, finish_ok g sequence later within) refl,
            )
      ]
]

next_val_fresh :
    (g : Generator) (now : ℕ) (rs : List ℕ)
    → g.timestamp ≢ now
    → InEpoch now
    → next_val g (now ∷ rs) ≡ some (ok (id_at g now 0), moved_to g now 0, rs)
unfolding next_val
next_val_fresh g now rs ne within =
    let d : (g.timestamp == now) ≡ false = ground arith in rw (d, finish_ok g 0 now within) refl

-- A clock that goes from one time to another and back gives the first identifier a second time,
-- for every generator and every two times within the epoch.
pub clock_back_repeats :
    (g : Generator) (a b : ℕ)
    → g.timestamp ≢ a
    → a ≢ b
    → InEpoch a
    → InEpoch b
    → (x y : ℕ) × (issue 3 g (a ∷ b ∷ a ∷ []) ≡ x ∷ y ∷ x ∷ [])
unfolding issue
clock_back_repeats g a b first ne wa wb =
    let g' = moved_to g a 0 in
    let g'' = moved_to g b 0 in
    (
      id_at g a 0,
      id_at g b 0,
      rw
          (
            next_val_fresh g a (b ∷ a ∷ []) first wa,
            issue,
            next_val_fresh g' b (a ∷ []) ne wb,
            issue,
            next_val_fresh g'' a [] (λ e. ne (sym e)) wa,
            issue,
          )
          refl,
    )
