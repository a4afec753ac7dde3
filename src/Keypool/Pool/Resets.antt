-- ===== src/Keypool/Pool/Resets.antt =====
-- `GetEarliestResetTime` looks at every reset time that is set.
use cc_relay.Base.{ℕ, ◌-◌, ◌*◌, ◌^◌, ◌<◌, ◌≤◌, ◌≡◌, List, All, At, ◌⊎◌}
use cc_relay.Keypool.Key.{KeyMetadata}

-- The duration that is owed to the caller: a minute when no reset time is set, and otherwise what is
-- left until the earliest one, in so far as a `time.Duration` holds it.
pub data Waits (now : ℕ) (keys : List KeyMetadata) (duration : ℕ) : Type 0 where
  nothing_set :
      All (λ (k : KeyMetadata). k.rpm_reset_at ≡ 0) keys
      → duration ≡ 60 * 10 ^ 9
      → Waits now keys duration
  until_reset :
      (key : KeyMetadata)
      → At key keys
      → 0 < key.rpm_reset_at
      → All (λ (k : KeyMetadata). (k.rpm_reset_at ≡ 0) ⊎ (key.rpm_reset_at ≤ k.rpm_reset_at)) keys
      → ((key.rpm_reset_at - now < 2 ^ 63) × (duration ≡ key.rpm_reset_at - now))
        ⊎ ((2 ^ 63 ≤ key.rpm_reset_at - now) × (duration ≡ 2 ^ 63 - 1))
      → Waits now keys duration

-- Where a reset time comes from.
abbrev Sets : List KeyMetadata → ℕ → Type 0
Sets keys t = (key : KeyMetadata) × At key keys × (key.rpm_reset_at ≡ t) × (0 < t)
