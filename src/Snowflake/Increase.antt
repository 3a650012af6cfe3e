-- ===== src/Snowflake/Increase.antt =====
-- Successive identifiers of one generator of utils/snowflake.go, under a clock that does not go
-- back.
use mathlib.Core.Path.{subst₂}
use gts.Base.{
  ℕ, zero, suc, ◌+◌, ◌%◌, ◌^◌, ◌-◌, ◌≤◌, ◌<◌, ◌≡◌, refl, sym, ◌⊎◌, inl, inr, arith, ltb,
  if◌then◌else◌, Bool-cases, Option-cases, ◌==◌, some, List, [], ◌∷◌,
}
use gts.Base.Word.{sub64, slt64}
use gts.Base.Result.{ok, err}
use gts.Snowflake.{
  Generator, out_of_epoch, timestamp_max, epoch, wait_next, finish, next_val, issue,
}
use gts.Snowflake.Layout.{layout, join_fields-layout}

-- The readings are `int64` values that do not fall and are not below `low`.
abbrev pub Ascending : ℕ → List ℕ → Type 0
Ascending low [] = Unit
Ascending low (r ∷ rs) = (low ≤ r) × (r < 2 ^ 63) × Ascending r rs

pub record IsValid (g : Generator) : Type 0 where
  pub datacenter : g.datacenter_id < 2 ^ 5
  pub worker : g.worker_id < 2 ^ 5
  pub number : g.sequence < 2 ^ 12

-- The fields of the identifier that was given last.
abbrev pub last_id : Generator → ℕ
last_id g = layout (g.timestamp - epoch) g.datacenter_id g.worker_id g.sequence

-- The generator after a call that gave `id`.
pub record Issued (g : Generator) (id : ℕ) (h : Generator) (rest : List ℕ) : Type 0 where
  pub valid : IsValid h
  pub same_datacenter : h.datacenter_id ≡ g.datacenter_id
  pub same_worker : h.worker_id ≡ g.worker_id
  pub since : epoch ≤ h.timestamp
  pub ascending : Ascending h.timestamp rest
  pub exact : id ≡ last_id h
  pub later :
      (g.timestamp < h.timestamp) ⊎ ((g.timestamp ≡ h.timestamp) × (h.sequence ≡ g.sequence + 1))

pub wait_next-Ascending :
    (timestamp now : ℕ) (readings rest : List ℕ) (later : ℕ)
    → now < 2 ^ 63
    → Ascending now readings
    → wait_next timestamp now readings ≡ some (later, rest)
    → (now ≤ later) × (later < 2 ^ 63) × (timestamp < later) × Ascending later rest
unfolding wait_next
wait_next-Ascending timestamp now [] rest later b a e = ground arith
wait_next-Ascending timestamp now (r ∷ rs) rest later b a e =
    ground (arith, wait_next-Ascending timestamp r rs rest later a.1 a.2)

epoch_test :
    (now : ℕ)
    → epoch ≤ now
    → now < 2 ^ 63
    → (sub64 now epoch ≡ now - epoch)
      × (slt64 timestamp_max (now - epoch) ≡ ltb timestamp_max (now - epoch))
epoch_test now since fits = (omega arith, ground arith)

-- `NextVal` from the test of the epoch on, for a clock that is past the epoch.
pub finish-eq :
    (g : Generator) (sequence now : ℕ)
    → IsValid g
    → sequence < 2 ^ 12
    → epoch ≤ now
    → now < 2 ^ 63
    → finish g sequence now ≡ (
        if ltb timestamp_max (now - epoch)
        then (err out_of_epoch, record g { sequence = sequence })
        else (
          ok (layout (now - epoch) g.datacenter_id g.worker_id sequence),
          record g { timestamp = now; sequence = sequence },
        ))
unfolding finish
finish-eq g sequence now v small since fits =
    let (e, f) = epoch_test now since fits in
    rw (e, f)
      (elim (Bool-cases (ltb timestamp_max (now - epoch))) [
        | inl late ↦ rw late refl
        | inr early ↦
            rw
              (
                early,
                join_fields-layout (now - epoch) g.datacenter_id g.worker_id sequence (record {
                  time = ground arith;
                  datacenter = v.datacenter;
                  worker = v.worker;
                  number = small;
                }),
              )
              refl
      ])

finish-Issued :
    (g : Generator) (sequence now id : ℕ) (h : Generator) (rest : List ℕ)
    → IsValid g
    → sequence < 2 ^ 12
    → epoch ≤ now
    → now < 2 ^ 63
    → Ascending now rest
    → (g.timestamp < now) ⊎ ((g.timestamp ≡ now) × (sequence ≡ g.sequence + 1))
    → finish g sequence now ≡ (ok id, h)
    → Issued g id h rest
finish-Issued g sequence now id h rest v small since fits a l e =
    let f = finish-eq g sequence now v small since fits in
    let both : (h ≡ record g { timestamp = now; sequence = sequence })
        × (id ≡ layout (now - epoch) g.datacenter_id g.worker_id sequence) =
      ground (arith, f) in
    subst₂ (λ (i : ℕ) (k : Generator). Issued g i k rest) (sym both.1) (sym both.0)
      (record {
        valid = record { datacenter = v.datacenter; worker = v.worker; number = small };
        same_datacenter = refl;
        same_worker = refl;
        since = since;
        ascending = a;
        exact = refl;
        later = l;
      })

module _ (g h : Generator) (now id : ℕ) (readings rest : List ℕ) (v : IsValid g) where
  next_val_other :
      Ascending epoch (now ∷ readings)
      → g.timestamp < now
      → next_val g (now ∷ readings) ≡ some (ok id, h, rest)
      → Issued g id h rest
  unfolding next_val
  next_val_other a lt e =
      let (r, f) : (readings ≡ rest) × (finish g 0 now ≡ (ok id, h)) = ground arith in
      rw (← r) (finish-Issued g 0 now id h readings v (omega arith) a.0 a.1 a.2 (inl lt) f)

  next_val_same :
      Ascending epoch (now ∷ readings)
      → g.timestamp ≡ now
      → next_val g (now ∷ readings) ≡ some (ok id, h, rest)
      → Issued g id h rest
  unfolding next_val
  next_val_same a same e = elim (Bool-cases ((g.sequence + 1) % 2 ^ 12 == 0)) [
    | inr number ↦
        let (r, f) : (readings ≡ rest) × (finish g ((g.sequence + 1) % 2 ^ 12) now ≡ (ok id, h)) =
          ground arith in
        rw (← r) (
          finish-Issued g ((g.sequence + 1) % 2 ^ 12) now id h readings v (omega arith) a.0 a.1 a.2
            (inr (same, ground arith)) f)
    | inl wrapped ↦ elim (Option-cases (wait_next g.timestamp now readings)) [
      | inl stuck ↦ absurd (ground arith)
      | inr ((later, left), found) ↦
          let (r, f) : (left ≡ rest) × (finish g ((g.sequence + 1) % 2 ^ 12) later ≡ (ok id, h)) =
            ground arith in
          let w = wait_next-Ascending g.timestamp now readings left later a.1 a.2 found in
          rw (← r) (
            finish-Issued g ((g.sequence + 1) % 2 ^ 12) later id h left v (omega arith)
              (omega arith) w.1 w.3 (inl w.2) f)
    ]
  ]

-- A call that gives an identifier, under a clock that is past the epoch and not behind the last
-- call: the identifier is the one of the new state, whose time is later, or whose sequence number
-- is the next one at the same time.
pub next_val-Issued :
    (g h : Generator) (readings rest : List ℕ) (id : ℕ)
    → IsValid g
    → Ascending epoch readings
    → Ascending g.timestamp readings
    → next_val g readings ≡ some (ok id, h, rest)
    → Issued g id h rest
unfolding next_val
next_val-Issued g h [] rest id v a b e = absurd (ground arith)
next_val-Issued g h (now ∷ readings) rest id v a b e = elim (Bool-cases (g.timestamp == now)) [
  | inl same ↦ next_val_same g h now id readings rest v a (ground arith) e
  | inr other ↦ next_val_other g h now id readings rest v a (ground arith) e
]

-- The identifier is larger than that of the state before the call.
last_id-lt :
    (g h : Generator) (id : ℕ) (rest : List ℕ)
    → IsValid g
    → epoch ≤ g.timestamp
    → Issued g id h rest
    → last_id g < id
last_id-lt g h id rest v since i = elim i.later [
  | inl later ↦ omega (arith, i.exact, i.valid, i.same_worker, i.same_datacenter)
  | inr next ↦ omega (arith, i.exact, i.same_worker, i.same_datacenter)
]

Ascending-mono : (low high : ℕ) (rs : List ℕ) → low ≤ high → Ascending high rs → Ascending low rs
Ascending-mono low high [] h a = tt
Ascending-mono low high (r ∷ rs) h a = (omega (arith, a.0), a.1, a.2)

-- Each number is larger than the one before it, and the first is larger than `low`.
abbrev pub Rising : ℕ → List ℕ → Type 0
Rising low [] = Unit
Rising low (id ∷ ids) = (low < id) × Rising id ids

abbrev pub Increasing : List ℕ → Type 0
Increasing [] = Unit
Increasing (id ∷ ids) = Rising id ids

issue-Rising :
    (n : ℕ) (g : Generator) (readings : List ℕ)
    → IsValid g
    → epoch ≤ g.timestamp
    → Ascending g.timestamp readings
    → Rising (last_id g) (issue n g readings)
unfolding issue
issue-Rising zero g readings v since a = tt
issue-Rising (suc n) g readings v since a = elim (Option-cases (next_val g readings)) [
  | inl stuck ↦ rw (stuck, issue) tt
  | inr ((err e, h, rest), found) ↦ rw (found, issue) tt
  | inr ((ok id, h, rest), found) ↦
      let i =
        next_val-Issued g h readings rest id v (Ascending-mono epoch g.timestamp readings since a) a
          found in
      let later = issue-Rising n h rest i.valid i.since i.ascending in
      rw (found, issue) (last_id-lt g h id rest v since i, rw i.exact later)
]

-- The identifiers that successive calls give are strictly increasing, so no two are equal, when
-- the clock does not go back, has passed the epoch, and the datacenter, the worker and the
-- sequence number are within their bits.
pub issue-Increasing :
    (n : ℕ) (g : Generator) (readings : List ℕ)
    → IsValid g
    → Ascending epoch readings
    → Ascending g.timestamp readings
    → Increasing (issue n g readings)
unfolding issue
issue-Increasing zero g readings v a b = tt
issue-Increasing (suc n) g readings v a b = elim (Option-cases (next_val g readings)) [
  | inl stuck ↦ rw (stuck, issue) tt
  | inr ((err e, h, rest), found) ↦ rw (found, issue) tt
  | inr ((ok id, h, rest), found) ↦
      let i = next_val-Issued g h readings rest id v a b found in
      rw (found, issue) (rw i.exact (issue-Rising n h rest i.valid i.since i.ascending))
]
