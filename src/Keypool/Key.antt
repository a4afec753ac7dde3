-- ===== src/Keypool/Key.antt =====
-- internal/keypool/key.go: what is known of one API key. An instant (`time.Time`) is a number of
-- nanoseconds, 0 for the zero time.
use cc_relay.Base.{
  ℕ, ◌+◌, ◌-◌, pos_part, neg_part, Bool, true, false, ◌&&◌, not, Option, none, String, Err, ℤ, pos,
  ◌+ℤ◌, ltb, ltb_ℤ, if◌then◌else◌,
}

pub record KeyMetadata : Type 0 where
  pub rpm_reset_at : ℕ
  pub itpm_reset_at : ℕ
  pub otpm_reset_at : ℕ
  pub last_error_at : ℕ
  pub cooldown_until : ℕ
  pub last_error : Option Err
  pub api_key : String
  pub id : String
  pub rpm_limit : ℤ
  pub itpm_limit : ℤ
  pub otpm_limit : ℤ
  pub rpm_remaining : ℤ
  pub itpm_remaining : ℤ
  pub otpm_remaining : ℤ
  pub priority : ℤ
  pub weight : ℤ
  pub healthy : Bool

-- `float64`, as far as the scores need it. Its arithmetic is a parameter.
pub record Floats : Type 1 where
  pub Float64 : Type 0
  pub float64 : ℤ → Float64
  pub plus : Float64 → Float64 → Float64
  pub divide : Float64 → Float64 → Float64
  pub greater : Float64 → Float64 → Bool

-- A share of a limit that is left, where 0 is no limit.
unfoldable pub remaining_score : (floats : Floats) → ℤ → ℤ → floats.Float64
remaining_score floats limit remaining =
    if ltb_ℤ (pos 0) limit
    then floats.divide (floats.float64 remaining) (floats.float64 limit)
    else floats.float64 (pos 1)

unfoldable pub get_capacity_score : (floats : Floats) → ℕ → KeyMetadata → floats.Float64
unfolding remaining_score
get_capacity_score floats now k =
    if k.healthy && not (ltb now k.cooldown_until)
    then floats.divide
        (floats.plus (remaining_score floats k.rpm_limit k.rpm_remaining) (
          remaining_score floats (k.itpm_limit +ℤ k.otpm_limit)
            (k.itpm_remaining +ℤ k.otpm_remaining)))
        (floats.float64 (pos 2))
    else floats.float64 (pos 0)

unfoldable pub is_available : ℕ → KeyMetadata → Bool
is_available now k = k.healthy && ltb k.cooldown_until now

-- `t.Add(d)` for an instant and a time.Duration, which can be negative; a sum before the zero time,
-- further back than a clock of today and 292 years reach, is the zero time here.
unfoldable pub add_duration : ℕ → ℤ → ℕ
add_duration t d = t + pos_part d - neg_part d

unfoldable pub set_cooldown : ℕ → KeyMetadata → KeyMetadata
set_cooldown until k = record k { cooldown_until = until }

unfoldable pub mark_unhealthy : ℕ → Option Err → KeyMetadata → KeyMetadata
mark_unhealthy now e k = record k { healthy = false; last_error = e; last_error_at = now }

unfoldable pub mark_healthy : KeyMetadata → KeyMetadata
mark_healthy k = record k { healthy = true; last_error = none }
