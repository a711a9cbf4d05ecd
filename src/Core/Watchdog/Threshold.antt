-- ===== src/Core/Watchdog/Threshold.antt =====
-- When the watchdog of core/watchdog.go probes and restarts.
use cff_core.Base.{
  ℕ, zero, suc, ◌*◌, ◌≤◌, ◌<◌, ◌%◌, ℤ, pos, negsuc, is_positive, nat_part, true, false, List, [],
  ◌∷◌, Option, none, some, ◌≡◌, refl, subst, arith, Bool-cases, inl, inr, ltb,
}
use cff_core.Core.Watchdog.{
  HealthCheckConfig, HealthConfig, normalize_health_config, milliseconds_or, positive_or, wrap64,
  Tick, Counters, Action, probed, restarted, run_tick, run_ticks, add_duration, reaches,
}

-- The ticks that a watchdog saw and its log, read with the number of failed probes since the last good one or the
-- last restart, and the end of the last rest. A tick before that end leaves no trace; at each other tick there is a
-- probe with the result of the tick, and a restart follows when the failures in a row are as many as the threshold,
-- and only then.
pub data IsEarned (w : HealthConfig) : ℕ → ℕ → List Tick → List Action → Type 0 where
  ended : (streak until : ℕ) → IsEarned w streak until [] []
  rests :
      (streak until : ℕ) (tick : Tick) (ticks : List Tick) (log : List Action)
      → tick.now < until
      → IsEarned w streak until ticks log
      → IsEarned w streak until (tick ∷ ticks) log
  succeeds :
      (streak until : ℕ) (tick : Tick) (ticks : List Tick) (log : List Action)
      → until ≤ tick.now
      → tick.healthy ≡ true
      → IsEarned w 0 until ticks log
      → IsEarned w streak until (tick ∷ ticks) (probed tick.now true ∷ log)
  fails_once :
      (streak until : ℕ) (tick : Tick) (ticks : List Tick) (log : List Action)
      → until ≤ tick.now
      → tick.healthy ≡ false
      → suc streak < nat_part w.fail_threshold
      → IsEarned w (suc streak) until ticks log
      → IsEarned w streak until (tick ∷ ticks) (probed tick.now false ∷ log)
  restarts :
      (streak until : ℕ) (tick : Tick) (ticks : List Tick) (log : List Action)
      → until ≤ tick.now
      → tick.healthy ≡ false
      → suc streak ≡ nat_part w.fail_threshold
      → IsEarned w 0 (add_duration tick.restarted_at w.cooldown) ticks log
      → IsEarned w streak until
          (tick ∷ ticks)
          (probed tick.now false ∷ restarted tick.restarted_at ∷ log)

module _ (w : HealthConfig) (threshold : ℕ) (e : w.fail_threshold ≡ pos threshold)
    (positive : 0 < threshold) where
  run_ticks-counted :
      (ticks : List Tick) (c : Counters)
      → c.fails < threshold
      → IsEarned w c.fails c.cooldown_until ticks (run_ticks w ticks c)
  unfolding run_ticks run_tick
  run_ticks-counted [] c h = ended c.fails c.cooldown_until
  run_ticks-counted (tick ∷ ticks) c h =
      let logged = IsEarned w c.fails c.cooldown_until (tick ∷ ticks) in
      elim (Bool-cases (ltb tick.now c.cooldown_until)) [
        | inl z ↦ rw z (rests _ _ tick ticks _ (ground arith) (run_ticks-counted ticks c h))
        | inr z ↦
            let rested : c.cooldown_until ≤ tick.now = ground arith in
            elim (Bool-cases tick.healthy) [
              | inl g ↦
                  let log = run_ticks-counted ticks (record c { fails = 0 }) positive in
                  subst logged (rw (z, g) refl) (succeeds _ _ tick ticks _ rested g log)
              | inr g ↦ elim (Bool-cases (reaches (suc c.fails) w.fail_threshold)) [
                | inl r ↦
                    let due : suc c.fails ≡ nat_part w.fail_threshold =
                      rw e (ground (arith, rw e at r)) in
                    subst logged (rw (z, g, r) refl)
                      (restarts _ _ tick ticks _ rested g due (run_ticks-counted ticks _ positive))
                | inr r ↦
                    let below : suc c.fails < nat_part w.fail_threshold =
                      rw e (ground (arith, rw e at r)) in
                    let log =
                      run_ticks-counted ticks (record c { fails = suc c.fails })
                        (ground (arith, rw e at r)) in
                    subst logged (rw (z, g, r) refl)
                      (fails_once _ _ tick ticks _ rested g below log)
              ]
            ]
      ]

positive_or-suc : (n : ℤ) (m : ℕ) → (k : ℕ) × (positive_or n (pos (suc m)) ≡ pos (suc k))
positive_or-suc (pos zero) m = (m, refl)
positive_or-suc (pos (suc n)) m = (n, refl)
positive_or-suc (negsuc n) m = (m, refl)

normalize-suc :
    (cfg : Option HealthCheckConfig)
    → (k : ℕ) × ((normalize_health_config cfg).fail_threshold ≡ pos (suc k))
unfolding normalize_health_config
normalize-suc none = (2, refl)
normalize-suc (some cfg) = positive_or-suc cfg.fail_threshold 2

-- Whatever the configuration, a new watchdog probes at every tick, except at those before the end of the cooldown
-- after its last restart, and it restarts exactly when as many probes in a row have failed as the normalized
-- threshold says.
pub run_ticks-IsEarned :
    (cfg : Option HealthCheckConfig) (ticks : List Tick)
    → let w = normalize_health_config cfg in
      IsEarned w 0 0 ticks (run_ticks w ticks (record { fails = 0; cooldown_until = 0 }))
run_ticks-IsEarned cfg ticks =
    let (k, e) = normalize-suc cfg in
    run_ticks-counted (normalize_health_config cfg) (suc k) e (omega arith) ticks
      (record { fails = 0; cooldown_until = 0 }) (omega arith)

-- A number of milliseconds that is a positive number of nanoseconds in 63 bits, or no positive number.
abbrev pub IsInRange : ℤ → Type 0
IsInRange n = nat_part n ≤ 9223372036854

wrap64-pos : (n : ℕ) → n < 9223372036854775808 → wrap64 n ≡ pos n
unfolding wrap64
wrap64-pos n h =
    let same : n % 18446744073709551616 ≡ n = omega (arith, h) in
    let small : ltb n 9223372036854775808 ≡ true = ground (arith, h) in rw (same, small) refl

pos-is_positive : (n : ℕ) → 0 < n → is_positive (pos n) ≡ true
pos-is_positive zero h = absurd (omega (arith, h))
pos-is_positive (suc n) h = refl

milliseconds_or-is_positive :
    (n d : ℤ) → IsInRange n → is_positive d ≡ true → is_positive (milliseconds_or n d) ≡ true
unfolding milliseconds_or wrap64
milliseconds_or-is_positive (pos zero) d h p = p
milliseconds_or-is_positive (pos (suc n)) d h p =
    rw (wrap64-pos (suc n * 1000000) (omega (arith, h)))
      (pos-is_positive (suc n * 1000000) (omega arith))
milliseconds_or-is_positive (negsuc n) d h p = p

-- Where the configured milliseconds fit in 63 bits of nanoseconds, the interval, the timeout and the cooldown
-- of the normalized configuration are positive, and the threshold always is.
pub normalize-is_positive :
    (cfg : HealthCheckConfig)
    → IsInRange cfg.interval
    → IsInRange cfg.timeout
    → IsInRange cfg.cooldown
    → let w = normalize_health_config (some cfg) in
      (is_positive w.interval ≡ true)
      × (is_positive w.timeout ≡ true)
      × (is_positive w.cooldown ≡ true)
      × (is_positive w.fail_threshold ≡ true)
unfolding normalize_health_config
normalize-is_positive cfg i t c = (
  milliseconds_or-is_positive cfg.interval _ i refl,
  milliseconds_or-is_positive cfg.timeout _ t refl,
  milliseconds_or-is_positive cfg.cooldown _ c refl,
  rw (positive_or-suc cfg.fail_threshold 2).1 refl,
)
