-- ===== src/Cooldown.antt =====
-- How long a key rests after an error of its provider: providers/cooldown.go and the classification of
-- providers/zai_errors.go. A time.Duration is an `int` of nanoseconds.
pub mod Capped
pub mod Category
use cc_relay.Base.{
  ℕ, suc, ◌+◌, ◌*◌, ◌≡◌, refl, Bool, true, false, not, ◌||◌, String, str_eq, List, [], ◌∷◌, ◌==◌,
  if◌then◌else◌, Option, none, some, ℤ, pos, negsuc, wrap64, ltb_ℤ,
}
use cc_relay.Config.Validator.{member}

-- What the resolvers read of a response's body: it fails, it is no ZAI error, or its error has a code
-- and a message.
pub data ErrorBody : Type 0 where
  unreadable no_zai_error : ErrorBody
  zai_error : String → String → ErrorBody

pub record Response : Type 0 where
  pub status_code : ℕ
  pub header : String → String
  pub body : ErrorBody

-- `strconv.Atoi`, and `time.Until` of the time that a text stands for: an HTTP date, a date by RFC 3339,
-- and the first date in a ZAI message (a regular expression and four layouts).
pub record Clock : Type 0 where
  pub atoi : String → Option ℤ
  pub until_http_time : String → Option ℤ
  pub until_rfc3339 : String → Option ℤ
  pub until_reset : String → Option ℤ

pub record CooldownDecision : Type 0 where
  pub cooldown : ℤ
  pub is_permanent : Bool
  pub skip_cb : Bool

-- `time.Duration(n) * time.Second`
unfoldable pub seconds : ℤ → ℤ
seconds (pos n) = wrap64 (pos (n * 1000000000))
seconds (negsuc n) = wrap64 (negsuc (n * 1000000000 + 999999999))

abbrev pub max_cooldown_cap : ℤ
max_cooldown_cap = pos 21600000000000

abbrev pub default_cooldown : ℤ
default_cooldown = pos 20000000000

abbrev pub no_decision : CooldownDecision
no_decision = record { cooldown = pos 0; is_permanent = false; skip_cb = false }

abbrev pub rest_for : ℤ → CooldownDecision
rest_for cd = record { cooldown = cd; is_permanent = false; skip_cb = false }

-- `if cd > MaxCooldownCap { cd = MaxCooldownCap }`
abbrev pub capped : ℤ → ℤ
capped cd = if ltb_ℤ max_cooldown_cap cd then max_cooldown_cap else cd

-- `if d > 0 { return d }`, and what follows it.
abbrev pub if_positive : Option ℤ → ℤ → ℤ
if_positive d other = elim d [ none ↦ other | some d ↦ if ltb_ℤ (pos 0) d then d else other ]

unfoldable pub parse_retry_after_header : Clock → (String → String) → ℤ
parse_retry_after_header clock header =
    let val = header "Retry-After" in
    if str_eq val "" then default_cooldown else elim (clock.atoi val) [
      | some n ↦ seconds n
      | none ↦ if_positive (clock.until_http_time val) default_cooldown
    ]

unfoldable pub resolve_generic : Clock → Response → CooldownDecision
resolve_generic clock resp =
    if not (resp.status_code == 429)
    then no_decision
    else rest_for (capped (parse_retry_after_header clock (resp.header)))

-- The loop over the two headers.
unfoldable pub parse_reset_headers : Clock → (String → String) → List String → ℤ
parse_reset_headers clock header [] = pos 0
parse_reset_headers clock header (key ∷ keys) =
    let later = parse_reset_headers clock header keys in
    if str_eq (header key) "" then later else if_positive (clock.until_rfc3339 (header key)) later

abbrev pub reset_headers : List String
reset_headers = "X-RateLimit-Reset-Requests" ∷ "X-RateLimit-Reset-Tokens" ∷ []

unfoldable pub resolve_openai : Clock → Response → CooldownDecision
resolve_openai clock resp =
    let cd = parse_reset_headers clock (resp.header) reset_headers in
    if not (resp.status_code == 429)
    then no_decision
    else if ltb_ℤ (pos 0) cd
    then rest_for (capped cd)
    else rest_for (capped (parse_retry_after_header clock (resp.header)))

pub data ZaiErrorCategory : Type 0 where
  transient quota_exhausted permanent : ZaiErrorCategory

abbrev pub transient_codes : List String
transient_codes = "1302" ∷ "1303" ∷ "1305" ∷ "1312" ∷ "1234" ∷ []

abbrev pub quota_codes : List String
quota_codes = "1304" ∷ "1308" ∷ "1310" ∷ []

abbrev pub permanent_codes : List String
permanent_codes = "1309" ∷ "1311" ∷ "1313" ∷ "1112" ∷ "1113" ∷ "1121" ∷ []

unfoldable pub classify_zai_error : String → ZaiErrorCategory
classify_zai_error code =
    if member code transient_codes
    then transient
    else if member code quota_codes
    then quota_exhausted
    else if member code permanent_codes
    then permanent
    else transient

unfoldable pub suggested_cooldown : String → ℤ
suggested_cooldown code =
    if str_eq code "1302" || (str_eq code "1303" || (str_eq code "1305" || str_eq code "1312"))
    then pos 20000000000
    else if str_eq code "1304"
    then pos 3600000000000
    else if str_eq code "1234"
    then pos 30000000000
    else if str_eq code "1308"
    then pos 18000000000000
    else if str_eq code "1310"
    then pos 3600000000000
    else if member code permanent_codes
    then pos 0
    else pos 20000000000

pub record ZaiErrorInfo : Type 0 where
  pub code : String
  pub message : String
  pub category : ZaiErrorCategory
  pub cooldown : ℤ

abbrev pub is_permanent_category : ZaiErrorCategory → Bool
is_permanent_category transient = false
is_permanent_category quota_exhausted = false
is_permanent_category permanent = true

abbrev pub is_transient_category : ZaiErrorCategory → Bool
is_transient_category transient = true
is_transient_category quota_exhausted = false
is_transient_category permanent = false

-- The info for a code that is not empty.
unfoldable pub zai_info : Clock → String → String → ZaiErrorInfo
zai_info clock code message = record {
  code = code;
  message = message;
  category = classify_zai_error code;
  cooldown =
      if str_eq code "1308"
      then if_positive (clock.until_reset message) (suggested_cooldown code)
      else suggested_cooldown code;
}

-- Nothing for a body that cannot be read, and for one without a code.
unfoldable pub parse_zai_429_error : Clock → ErrorBody → Option ZaiErrorInfo
parse_zai_429_error clock unreadable = none
parse_zai_429_error clock no_zai_error = none
parse_zai_429_error clock (zai_error code message) =
    if str_eq code "" then none else some (zai_info clock code message)

unfoldable pub resolve_429 : Clock → Response → CooldownDecision
resolve_429 clock resp = elim (parse_zai_429_error clock (resp.body)) [
  | none ↦ rest_for (parse_retry_after_header clock (resp.header))
  | some info ↦
      if is_permanent_category (info.category)
      then record { cooldown = pos 0; is_permanent = true; skip_cb = true }
      else record {
        cooldown = capped (info.cooldown);
        is_permanent = false;
        skip_cb = is_transient_category (info.category);
      }
]

unfoldable pub is_zai_retryable_400_code : String → Bool
is_zai_retryable_400_code code = str_eq code "1234"

unfoldable pub resolve_400 : Clock → Response → CooldownDecision
resolve_400 clock resp = elim (parse_zai_429_error clock (resp.body)) [
  | none ↦ no_decision
  | some info ↦
      if not (is_zai_retryable_400_code (info.code))
      then no_decision
      else record { cooldown = pos 30000000000; is_permanent = false; skip_cb = true }
]

unfoldable pub resolve_zai : Clock → Response → CooldownDecision
resolve_zai clock resp =
    if resp.status_code == 429
    then resolve_429 clock resp
    else if resp.status_code == 400
    then resolve_400 clock resp
    else no_decision

-- `NewCooldownResolver`: the resolver of a strategy is its method `Resolve`.
unfoldable pub new_cooldown_resolver : String → Clock → Response → CooldownDecision
new_cooldown_resolver strategy =
    if str_eq strategy "zai"
    then resolve_zai
    else if str_eq strategy "openai"
    then resolve_openai
    else resolve_generic
