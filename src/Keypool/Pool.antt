-- ===== src/Keypool/Pool.antt =====
-- internal/keypool/pool.go: the pool of keys, and the key that it hands out.
pub mod Distinct
pub mod Serves
pub mod Stats
pub mod Resets
pub mod Marks
use cc_relay.Base.{
  ◌*◌, ◌^◌, ◌-◌, ltb, ◌==◌, ℕ, zero, suc, Bool, true, false, not, Option, none, some, List, [], ◌∷◌,
  String, all_keys_exhausted, key_not_found, Err, Result, ok, err, panic, ℤ, pos, ◌+ℤ◌, Lo, length,
  lookup, insert, str_eq, set, get_elem?, if◌then◌else◌, ◌+◌,
}
use cc_relay.Keypool.Key.{
  KeyMetadata, Floats, is_available, add_duration, set_cooldown, mark_unhealthy, mark_healthy,
}
use cc_relay.Keypool.Selector.{KeySelector, Reading, select_priority_tier}

-- What the pool calls of a `ratelimit.RateLimiter`, as an interface: `allow` at an instant.
pub record RateLimiter : Type 1 where
  pub Limiter : Type 0
  pub allow : ℕ → Limiter → Bool × Limiter

-- `keyMap` and `keys` share their `*KeyMetadata`: the map gives the index in `keys`.
pub record KeyPool (rate : RateLimiter) : Type 0 where
  pub selector : KeySelector
  pub key_map : List (String × ℕ)
  pub limiters : List (String × rate.Limiter)
  pub provider : String
  pub keys : List KeyMetadata

module _ (lo : Lo) (floats : Floats) (rate : RateLimiter) (readings : ℕ → Reading) where
  -- The loop of `GetKey`, with the keys that are left and the attempts that are left. The reading of
  -- an attempt gives the instant of its `Select` and its `Allow`.
  unfoldable pub get_key_loop :
      ℕ → ℕ → List KeyMetadata → KeyPool rate → Result (String × String) × KeyPool rate
  get_key_loop attempt zero available pool = (err all_keys_exhausted, pool)
  get_key_loop attempt (suc attempts) available pool =
      let (chosen, selector') =
        select_priority_tier lo floats (readings attempt) pool.selector available in
      elim chosen [
        | err e ↦ (err e, record pool { selector = selector' })
        | panic ↦ (panic, record pool { selector = selector' })
        | ok key ↦ elim (lookup key.id pool.limiters) [
          | none ↦ (panic, record pool { selector = selector' })
          | some limiter ↦
              let (allowed, limiter') = rate.allow (readings attempt).now limiter in
              let pool' = record pool {
                selector = selector';
                limiters = insert key.id limiter' pool.limiters;
              } in
              let rest =
                get_key_loop (suc attempt) attempts
                  (lo.filter (λ (k : KeyMetadata). not (str_eq k.id key.id)) available) pool' in
              if allowed then (ok (key.id, key.api_key), pool') else rest
        ]
      ]

  unfoldable pub get_key : KeyPool rate → Result (String × String) × KeyPool rate
  get_key pool = get_key_loop 0 (length pool.keys) pool.keys pool

module _ (rate : RateLimiter) where
  -- A change of the key with an ID; nothing for an unknown ID.
  unfoldable pub change_key : String → (KeyMetadata → KeyMetadata) → KeyPool rate → KeyPool rate
  change_key id change pool = elim (lookup id pool.key_map) [
    | none ↦ pool
    | some i ↦ elim (get_elem? pool.keys i) [
      | none ↦ pool
      | some key ↦ record pool { keys = set pool.keys i (change key) }
    ]
  ]

  unfoldable pub mark_key_exhausted : ℕ → String → ℤ → KeyPool rate → KeyPool rate
  mark_key_exhausted now id retry_after =
      change_key id (set_cooldown (add_duration now retry_after))

  unfoldable pub mark_key_unhealthy : ℕ → String → Option Err → KeyPool rate → KeyPool rate
  mark_key_unhealthy now id e = change_key id (mark_unhealthy now e)

  unfoldable pub mark_key_healthy : String → KeyPool rate → KeyPool rate
  mark_key_healthy id = change_key id mark_healthy

pub record PoolStats : Type 0 where
  pub total_keys : ℤ
  pub available_keys : ℤ
  pub exhausted_keys : ℤ
  pub total_rpm : ℤ
  pub remaining_rpm : ℤ

-- The function that `GetStats` folds with, at an instant.
unfoldable pub add_key : ℕ → PoolStats → KeyMetadata → PoolStats
add_key now stats key =
    let available = is_available now key in
    record {
      total_keys = stats.total_keys;
      available_keys = if available then stats.available_keys +ℤ pos 1 else stats.available_keys;
      exhausted_keys = if available then stats.exhausted_keys else stats.exhausted_keys +ℤ pos 1;
      total_rpm = stats.total_rpm +ℤ key.rpm_limit;
      remaining_rpm = stats.remaining_rpm +ℤ key.rpm_remaining;
    }

-- An instant that is set.
unfoldable pub reset_time : KeyMetadata → Option ℕ
reset_time key = if key.rpm_reset_at == 0 then none else some key.rpm_reset_at

-- `time.Until` of an instant that has not passed: the largest duration where the difference is
-- longer. The difference to an instant that has passed is negative, however long it is.
unfoldable pub until : ℕ → ℕ → ℕ
until now t = if ltb (2 ^ 63 - 1) (t - now) then 2 ^ 63 - 1 else t - now

-- The duration until the earliest of the reset times.
unfoldable pub until_earliest : Lo → ℕ → List ℕ → ℕ
until_earliest lo now [] = 60 * 10 ^ 9
until_earliest lo now (t ∷ ts) =
    let earliest = lo.min_by (λ a b. ltb a b) t ts in
    if ltb earliest now then 0 else until now earliest

module _ (lo : Lo) (rate : RateLimiter) where
  unfoldable pub get_stats : ℕ → KeyPool rate → PoolStats
  get_stats now pool =
      lo.reduce (add_key now)
        (record {
          total_keys = pos (length pool.keys);
          available_keys = pos 0;
          exhausted_keys = pos 0;
          total_rpm = pos 0;
          remaining_rpm = pos 0;
        })
        pool.keys

  -- In nanoseconds.
  unfoldable pub get_earliest_reset_time : ℕ → KeyPool rate → ℕ
  get_earliest_reset_time now pool = until_earliest lo now (lo.filter_map reset_time pool.keys)
