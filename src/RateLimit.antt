-- ===== src/RateLimit.antt =====
-- internal/ratelimit: the token bucket limiter of token_bucket.go.
pub mod Usage
use cc_relay.Base.{
  ℕ, Bool, true, false, Option, none, some, List, [], ◌∷◌, Err, msg, ℤ, pos, leb_ℤ, ltb_ℤ, ◌-ℤ◌,
  if◌then◌else◌,
}

-- golang.org/x/time/rate, as an interface. `new_limiter` takes the rate per minute and the burst,
-- and `tokens` is what `int` keeps of `Tokens()`. The numbers ℕ are instants.
pub record Rate : Type 1 where
  pub Limiter : Type 0
  pub Reservation : Type 0
  pub new_limiter : ℤ → ℤ → Limiter
  pub allow : ℕ → Limiter → Bool × Limiter
  pub wait_n : ℕ → ℤ → Limiter → Option Err × Limiter
  pub tokens : ℕ → Limiter → ℤ
  pub reserve_n : ℕ → ℤ → Limiter → Reservation × Limiter
  pub is_ok : Reservation → Bool
  pub cancel : ℕ → Reservation → Limiter → Limiter

abbrev context_cancelled : Err
context_cancelled = msg "ratelimit: context canceled"

abbrev unlimited_rate : ℤ
unlimited_rate = pos 1000000

unfoldable pub or_unlimited : ℤ → ℤ
or_unlimited limit = if leb_ℤ limit (pos 0) then unlimited_rate else limit

unfoldable pub clamp_usage : ℤ → ℤ → ℤ
clamp_usage remaining limit =
    if ltb_ℤ remaining (pos 0) then pos 0 else if ltb_ℤ limit remaining then limit else remaining

pub record UsageReport : Type 0 where
  pub requests_used : ℤ
  pub requests_limit : ℤ
  pub tokens_used : ℤ
  pub tokens_limit : ℤ
  pub requests_remaining : ℤ
  pub tokens_remaining : ℤ

pub record TokenBucketLimiter (rate : Rate) : Type 0 where
  pub request_limiter : rate.Limiter
  pub token_limiter : rate.Limiter
  pub rpm_limit : ℤ
  pub tpm_limit : ℤ

module _ (rate : Rate) where
  unfoldable pub new_token_bucket_limiter : ℤ → ℤ → TokenBucketLimiter rate
  new_token_bucket_limiter rpm tpm =
      let rpm' = or_unlimited rpm in
      let tpm' = or_unlimited tpm in
      record {
        request_limiter = rate.new_limiter rpm' rpm';
        token_limiter = rate.new_limiter tpm' tpm';
        rpm_limit = rpm';
        tpm_limit = tpm';
      }

  unfoldable pub allow_request : ℕ → TokenBucketLimiter rate → Bool × TokenBucketLimiter rate
  allow_request now l =
      let (allowed, limiter) = rate.allow now l.request_limiter in
      (allowed, record l { request_limiter = limiter })

  -- The error of a wait: `ErrContextCancelled` when the context is done.
  unfoldable pub wait_error : Bool → Option Err → Option Err
  wait_error context_done none = none
  wait_error context_done (some e) = if context_done then some context_cancelled else some e

  unfoldable pub wait_request :
      Bool → ℕ → TokenBucketLimiter rate → Option Err × TokenBucketLimiter rate
  wait_request context_done now l =
      let (e, limiter) = rate.wait_n now (pos 1) l.request_limiter in
      (wait_error context_done e, record l { request_limiter = limiter })

  unfoldable pub set_limit : ℤ → ℤ → TokenBucketLimiter rate → TokenBucketLimiter rate
  set_limit rpm tpm l = new_token_bucket_limiter rpm tpm

  unfoldable pub get_usage : ℕ → TokenBucketLimiter rate → UsageReport
  get_usage now l =
      let requests = clamp_usage (rate.tokens now l.request_limiter) l.rpm_limit in
      let tokens = clamp_usage (rate.tokens now l.token_limiter) l.tpm_limit in
      record {
        requests_used = l.rpm_limit -ℤ requests;
        requests_limit = l.rpm_limit;
        tokens_used = l.tpm_limit -ℤ tokens;
        tokens_limit = l.tpm_limit;
        requests_remaining = requests;
        tokens_remaining = tokens;
      }

  unfoldable pub reserve : ℕ → ℤ → TokenBucketLimiter rate → Bool × TokenBucketLimiter rate
  reserve now tokens l =
      let (reservation, limiter) = rate.reserve_n now tokens l.token_limiter in
      if rate.is_ok reservation
      then (true, record l { token_limiter = rate.cancel now reservation limiter })
      else (false, record l { token_limiter = limiter })

  unfoldable pub consume_tokens :
      Bool → ℕ → ℤ → TokenBucketLimiter rate → Option Err × TokenBucketLimiter rate
  consume_tokens context_done now tokens l =
      let (e, limiter) = rate.wait_n now tokens l.token_limiter in
      (wait_error context_done e, record l { token_limiter = limiter })
