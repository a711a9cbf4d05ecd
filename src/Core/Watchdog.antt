-- ===== src/Core/Watchdog.antt =====
-- core/watchdog.go: the watchdog that probes the proxy in use and restarts the core after failures in a
-- row. Times are nanoseconds.
pub mod Threshold
pub mod Node
use cff_core.Base.{
  ℕ, zero, suc, ◌+◌, ◌*◌, ◌%◌, ◌^◌, ◌-◌, ℤ, pos, negsuc, is_positive, Bool, true, false, not, ◌||◌,
  String, List, [], ◌∷◌, Option, none, some, is_some, if◌then◌else◌, leb, ltb, ◌==◌, ◌++◌,
}
use cff_core.Base.StringSet.{StringSet, has, insert}

-- `HealthCheckConfig` (core/types.go), in milliseconds.
pub record HealthCheckConfig : Type 0 where
  pub enabled : Bool
  pub interval : ℤ
  pub timeout : ℤ
  pub fail_threshold : ℤ
  pub cooldown : ℤ

-- `healthConfig`
pub record HealthConfig : Type 0 where
  pub interval : ℤ
  pub timeout : ℤ
  pub fail_threshold : ℤ
  pub cooldown : ℤ

abbrev pub default_interval : ℤ
default_interval = pos 60000000000

abbrev pub default_timeout : ℤ
default_timeout = pos 10000000000

abbrev pub default_fail_count : ℤ
default_fail_count = pos 3

abbrev pub default_cooldown : ℤ
default_cooldown = pos 300000000000

-- The `int64` with the low 64 bits of a number.
unfoldable pub wrap64 : ℕ → ℤ
wrap64 n = let w = n % 2 ^ 64 in if ltb w (2 ^ 63) then pos w else negsuc (2 ^ 64 - (w + 1))

-- `time.Duration(ms) * time.Millisecond`, for `ms > 0`, and the default otherwise.
unfoldable pub milliseconds_or : ℤ → ℤ → ℤ
unfolding wrap64
milliseconds_or (pos (suc n)) default = wrap64 (suc n * 1000000)
milliseconds_or _ default = default

abbrev pub positive_or : ℤ → ℤ → ℤ
positive_or n default = if is_positive n then n else default

-- `normalizeHealthConfig`
unfoldable pub normalize_health_config : Option HealthCheckConfig → HealthConfig
normalize_health_config none = record {
  interval = default_interval;
  timeout = default_timeout;
  fail_threshold = default_fail_count;
  cooldown = default_cooldown;
}
normalize_health_config (some cfg) = record {
  interval = milliseconds_or cfg.interval default_interval;
  timeout = milliseconds_or cfg.timeout default_timeout;
  fail_threshold = positive_or cfg.fail_threshold default_fail_count;
  cooldown = milliseconds_or cfg.cooldown default_cooldown;
}

-- A tick of the timer: its time, what the probe says then, and the time when a restart is over.
pub record Tick : Type 0 where
  pub now : ℕ
  pub healthy : Bool
  pub restarted_at : ℕ

-- What the loop keeps: `fails` and `cooldownUntil`.
pub record Counters : Type 0 where
  pub fails : ℕ
  pub cooldown_until : ℕ

-- What the loop does: it probes at a time, with a result, or restarts until a time.
pub data Action : Type 0 where
  probed : ℕ → Bool → Action
  restarted : ℕ → Action

-- `t.Add(d)`, where it is not before the zero time.
abbrev pub add_duration : ℕ → ℤ → ℕ
add_duration t (pos d) = t + d
add_duration t (negsuc d) = t - suc d

-- `fails >= threshold`
abbrev pub reaches : ℕ → ℤ → Bool
reaches fails (pos threshold) = leb threshold fails
reaches fails (negsuc n) = true

module _ (w : HealthConfig) where
  -- The counters after a failed probe.
  abbrev pub after_failure : Tick → ℕ → Counters → Counters × List Action
  after_failure tick fails c =
      if reaches fails w.fail_threshold
      then (
        record { fails = 0; cooldown_until = add_duration tick.restarted_at w.cooldown },
        probed tick.now false ∷ restarted tick.restarted_at ∷ [],
      )
      else (record c { fails = fails }, probed tick.now false ∷ [])

  -- The body of the loop of `run`.
  unfoldable pub run_tick : Tick → Counters → Counters × List Action
  run_tick tick c =
      if ltb tick.now c.cooldown_until
      then (c, [])
      else if tick.healthy
      then (record c { fails = 0 }, probed tick.now true ∷ [])
      else after_failure tick (suc c.fails) c

  -- `run` over the ticks until the context ends.
  unfoldable pub run_ticks : List Tick → Counters → List Action
  unfolding run_tick
  run_ticks [] c = []
  run_ticks (tick ∷ ticks) c = let (c', actions) = run_tick tick c in actions ++ run_ticks ticks c'
