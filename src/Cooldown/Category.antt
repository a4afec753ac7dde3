-- ===== src/Cooldown/Category.antt =====
-- The decision on a 429 response with a ZAI error code, by the list that the code is on.
use cc_relay.Base.{Bool, true, false, String, List, [], ◌∷◌, if◌then◌else◌, ℤ, pos}
use cc_relay.Cooldown.{
  CooldownDecision, capped, ZaiErrorCategory, transient, quota_exhausted, permanent,
  is_permanent_category, is_transient_category,
}

-- The codes of errors that need somebody's action, and those of quotas that come back.
abbrev pub manual_codes : List String
manual_codes = "1309" ∷ "1311" ∷ "1313" ∷ "1112" ∷ "1113" ∷ "1121" ∷ []

abbrev pub reset_codes : List String
reset_codes = "1304" ∷ "1308" ∷ "1310" ∷ []

abbrev is_quota_category : ZaiErrorCategory → Bool
is_quota_category transient = false
is_quota_category quota_exhausted = true
is_quota_category permanent = false

decision : ZaiErrorCategory → ℤ → CooldownDecision
decision category cd =
    if is_permanent_category category
    then record { cooldown = pos 0; is_permanent = true; skip_cb = true }
    else record {
      cooldown = capped cd;
      is_permanent = false;
      skip_cb = is_transient_category category;
    }
