-- ===== src/Settings/Durations.antt =====
-- The durations of utils/init_settings.go: where the product with a second wraps around.
use gts.Base.{
  ℕ, ◌+◌, ◌-◌, ◌*◌, ◌^◌, ◌<◌, ◌≤◌, ◌≡◌, refl, ap, inl, inr, Bool-cases, some, none, arith, ltb, leb,
  if◌then◌else◌, ◌&&◌,
}
use gts.Base.Int.{pos, negsuc, ltb_ℤ}
use gts.Settings.{AppConfig, second, int64, pattern_of, seconds, get_heartbeat_interval, new_ticker}

-- The most seconds whose nanoseconds are an `int64`.
abbrev pub most_seconds : ℕ
most_seconds = 9223372036

pub seconds_exact : (n : ℕ) → n ≤ most_seconds → seconds (pos n) ≡ pos (n * second)
unfolding seconds int64 pattern_of
seconds_exact n h = ground arith

pub seconds_wrapped :
    (n : ℕ)
    → most_seconds < n
    → n ≤ 18446744073
    → seconds (pos n) ≡ negsuc (2 ^ 64 - n * second - 1)
unfolding seconds int64 pattern_of
seconds_wrapped n lo hi = ground arith

pub seconds_negative :
    (n : ℕ) → n < most_seconds → seconds (negsuc n) ≡ negsuc ((n + 1) * second - 1)
unfolding seconds int64 pattern_of
seconds_negative n h = ground arith

seconds_positive :
    (n : ℕ) → n ≤ 18446744073 → ltb_ℤ (pos 0) (seconds (pos n)) ≡ (ltb 0 n && leb n most_seconds)
unfolding seconds int64 pattern_of
seconds_positive n h = ground arith

-- The ticker of a checker starts for 1 to 9223372036 seconds. For 0 it panics, and so it does for up to
-- twice as many seconds, whose nanoseconds are negative as an `int64`.
pub new_ticker_lem :
    (g : AppConfig) (n : ℕ)
    → g.heartbeat_interval ≡ pos n
    → n ≤ 18446744073
    → new_ticker (get_heartbeat_interval g)
      ≡ (if ltb 0 n && leb n most_seconds then some (pos (n * second)) else none)
unfolding new_ticker get_heartbeat_interval
new_ticker_lem g n e h = elim (Bool-cases (ltb 0 n && leb n most_seconds)) [
  | inl b ↦ rw (e, seconds_positive n h, b) (ap some (seconds_exact n (ground arith)))
  | inr b ↦ rw (e, seconds_positive n h, b) refl
]
