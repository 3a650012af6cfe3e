-- ===== src/Settings.antt =====
-- utils/init_settings.go: the settings of the process. What viper reads and how it decodes are
-- arguments; a duration is an `int64` number of nanoseconds.
pub mod Durations
pub mod Sample
use gts.Base.{
  ℕ, ◌+◌, ◌-◌, ◌*◌, ◌%◌, ◌^◌, Bool, true, false, Option, none, some, List, ltb, if◌then◌else◌,
}
use gts.Base.Int.{ℤ, pos, negsuc, ltb_ℤ}

pub record AppConfig : Type 0 where
  pub mode : List ℕ
  pub name : List ℕ
  pub version : List ℕ
  pub start_time : List ℕ
  pub tcp_mode : Bool
  pub ws_mode : Bool
  pub quic_mode : Bool
  pub kcp_mode : Bool
  pub ip : List ℕ
  pub port : ℤ
  pub ws_port : ℤ
  pub ip_version : List ℕ
  pub max_conn : ℤ
  pub max_packet_size : ℕ
  pub worker_pool_size : ℤ
  pub max_worker_task_len : ℕ
  pub heartbeat_max_time : ℤ
  pub heartbeat_interval : ℤ
  pub worker_id : ℤ
  pub datacenter_id : ℤ
  pub log_level : List ℕ
  pub log_path : List ℕ

-- `time.Second`
abbrev pub second : ℕ
second = 1000000000

-- The `int64` whose pattern is that of a number.
unfoldable pub int64 : ℕ → ℤ
int64 n = let w = n % 2 ^ 64 in if ltb w (2 ^ 63) then pos w else negsuc (2 ^ 64 - w - 1)

-- The pattern of an `int` in 64 bits.
unfoldable pub pattern_of : ℤ → ℕ
pattern_of (pos n) = n % 2 ^ 64
pattern_of (negsuc n) = 2 ^ 64 - (n % 2 ^ 64) - 1

-- `time.Duration(n) * time.Second`
unfoldable pub seconds : ℤ → ℤ
unfolding int64 pattern_of
seconds n = int64 (pattern_of n * second)

unfoldable pub get_heartbeat_interval : AppConfig → ℤ
unfolding seconds
get_heartbeat_interval g = seconds g.heartbeat_interval

unfoldable pub get_heartbeat_max_time : AppConfig → ℤ
unfolding seconds
get_heartbeat_max_time g = seconds g.heartbeat_max_time

-- `time.NewTicker`, which panics for a duration that is not positive.
unfoldable pub new_ticker : ℤ → Option ℤ
new_ticker d = if ltb_ℤ (pos 0) d then some d else none

module _ {ℓ} {Raw : Type ℓ} (unmarshal : Raw → AppConfig → Bool × AppConfig) where
  -- `InitSettings` from `ReadInConfig`, where `none` is its error: `Unmarshal` writes into `Conf`, and
  -- says whether it succeeded. `none` is a panic.
  unfoldable pub init_settings : Option Raw → AppConfig → Option AppConfig
  init_settings none conf = none
  init_settings (some raw) conf =
      let (success, after) = unmarshal raw conf in if success then some after else none

  -- The function that is called when the file has changed; an error is dropped.
  unfoldable pub on_config_change : Raw → AppConfig → AppConfig
  on_config_change raw conf = (unmarshal raw conf).1
