-- ===== src/RateLimit/Usage.antt =====
-- The usage that the token bucket limiter reports adds up after any sequence of calls.
use cc_relay.Base.{
  subst, ℕ, ◌+◌, ◌-◌, ◌^◌, ◌<◌, ◌≤◌, ◌≡◌, ap, ◌∙◌, Bool, List, [], ◌∷◌, arith, ℤ, pos, pos_part,
  ◌-ℤ◌, -ℤ_parts, eq_of_parts, All, Bool-cases, inl, inr,
}
use cc_relay.RateLimit.{
  Rate, or_unlimited, clamp_usage, TokenBucketLimiter, new_token_bucket_limiter, allow_request,
  wait_request, set_limit, get_usage, reserve, consume_tokens,
}

-- A limit that an `int` holds and that is not 0.
abbrev pub IsLimit : ℤ → Type 0
IsLimit limit = (n : ℕ) × (limit ≡ pos n) × (0 < n) × (n < 2 ^ 63)

-- A positive limit is the sum of what is used and what remains.
abbrev pub AddsUp : ℤ → ℤ → ℤ → Type 0
AddsUp used remaining limit =
    (u : ℕ) × (r : ℕ) × (used ≡ pos u) × (remaining ≡ pos r) × (limit ≡ pos (u + r)) × (0 < u + r)

-- A call with what it is given.
pub data Operation : Type 0 where
  allowing : ℕ → Operation
  waiting : Bool → ℕ → Operation
  setting : ℤ → ℤ → Operation
  reserving : ℕ → ℤ → Operation
  consuming : Bool → ℕ → ℤ → Operation

-- The limits of a call are values of an `int`.
abbrev pub FitsInt : Operation → Type 0
FitsInt (setting rpm tpm) = (pos_part rpm < 2 ^ 63) × (pos_part tpm < 2 ^ 63)
FitsInt (allowing now) = Unit
FitsInt (waiting context_done now) = Unit
FitsInt (reserving now tokens) = Unit
FitsInt (consuming context_done now tokens) = Unit

or_unlimited-IsLimit : (limit : ℤ) → pos_part limit < 2 ^ 63 → IsLimit (or_unlimited limit)
unfolding or_unlimited
or_unlimited-IsLimit limit fits =
    (pos_part (or_unlimited limit), ground arith, ground arith, ground arith)

difference : (n r : ℕ) → r ≤ n → n < 2 ^ 63 → pos n -ℤ pos r ≡ pos (n - r)
difference n r le fits =
    let exact = -ℤ_parts (pos n) (pos r) (omega arith) in eq_of_parts _ _ (omega (arith, exact))

clamp_usage-le : (tokens : ℤ) (n : ℕ) → (r : ℕ) × (clamp_usage tokens (pos n) ≡ pos r) × (r ≤ n)
unfolding clamp_usage
clamp_usage-le tokens n = (pos_part (clamp_usage tokens (pos n)), ground arith, ground arith)

clamp_usage-AddsUp :
    (tokens limit : ℤ)
    → IsLimit limit
    → AddsUp (limit -ℤ clamp_usage tokens limit) (clamp_usage tokens limit) limit
clamp_usage-AddsUp tokens limit (n, e, up, fits) =
    let (r, kept, le) = clamp_usage-le tokens n in
    rw e (
      n - r,
      r,
      ap (◌-ℤ◌ (pos n)) kept ∙ difference n r le fits,
      kept,
      ap pos (omega (arith, le)),
      omega (arith, le, up),
    )

module _ (rate : Rate) where
  unfoldable pub run_operation : TokenBucketLimiter rate → Operation → TokenBucketLimiter rate
  run_operation l (allowing now) = (allow_request rate now l).1
  run_operation l (waiting context_done now) = (wait_request rate context_done now l).1
  run_operation l (setting rpm tpm) = set_limit rate rpm tpm l
  run_operation l (reserving now tokens) = (reserve rate now tokens l).1
  run_operation l (consuming context_done now tokens) =
      (consume_tokens rate context_done now tokens l).1

  unfoldable pub run_operations : TokenBucketLimiter rate → List Operation → TokenBucketLimiter rate
  run_operations l [] = l
  run_operations l (o ∷ os) = run_operations (run_operation l o) os

  abbrev HasLimits : TokenBucketLimiter rate → Type 0
  HasLimits l = IsLimit l.rpm_limit × IsLimit l.tpm_limit

  new-HasLimits :
      (rpm tpm : ℤ)
      → pos_part rpm < 2 ^ 63
      → pos_part tpm < 2 ^ 63
      → HasLimits (new_token_bucket_limiter rate rpm tpm)
  unfolding new_token_bucket_limiter
  new-HasLimits rpm tpm a b = (or_unlimited-IsLimit rpm a, or_unlimited-IsLimit tpm b)

  reserve-HasLimits :
      (now : ℕ) (tokens : ℤ) (l : TokenBucketLimiter rate)
      → HasLimits l
      → HasLimits (reserve rate now tokens l).1
  unfolding reserve
  reserve-HasLimits now tokens l limits =
      elim (Bool-cases (rate.is_ok (rate.reserve_n now tokens l.token_limiter).0)) [
        | inl fine ↦ rw (fine, reserve) limits
        | inr refused ↦ rw (refused, reserve) limits
      ]

  run_operation-HasLimits :
      (l : TokenBucketLimiter rate) (o : Operation)
      → FitsInt o
      → HasLimits l
      → HasLimits (run_operation l o)
  unfolding run_operation allow_request wait_request set_limit consume_tokens
  run_operation-HasLimits l (allowing now) fits limits = limits
  run_operation-HasLimits l (waiting context_done now) fits limits = limits
  run_operation-HasLimits l (setting rpm tpm) fits limits = new-HasLimits rpm tpm fits.0 fits.1
  run_operation-HasLimits l (reserving now tokens) fits limits =
      reserve-HasLimits now tokens l limits
  run_operation-HasLimits l (consuming context_done now tokens) fits limits = limits

  run_operations-HasLimits :
      (os : List Operation) (l : TokenBucketLimiter rate)
      → All FitsInt os
      → HasLimits l
      → HasLimits (run_operations l os)
  unfolding run_operations
  run_operations-HasLimits [] l fits limits = limits
  run_operations-HasLimits (o ∷ os) l fits limits =
      run_operations-HasLimits os (run_operation l o) fits.1
        (run_operation-HasLimits l o fits.0 limits)

  -- After any sequence of calls on a new token bucket limiter whose limits are below 2^63,
  -- `GetUsage` reports for requests and for tokens numbers that are not negative: what is used
  -- and what remains add up to the limit, which is positive, whatever the underlying limiters
  -- answer.
  pub get_usage-AddsUp :
      (rpm tpm : ℤ) (os : List Operation) (now : ℕ) (l : TokenBucketLimiter rate)
      → pos_part rpm < 2 ^ 63
      → pos_part tpm < 2 ^ 63
      → All FitsInt os
      → run_operations (new_token_bucket_limiter rate rpm tpm) os ≡ l
      → AddsUp
          (get_usage rate now l).requests_used
          (get_usage rate now l).requests_remaining
          (get_usage rate now l).requests_limit
        × AddsUp
            (get_usage rate now l).tokens_used
            (get_usage rate now l).tokens_remaining
            (get_usage rate now l).tokens_limit
  unfolding get_usage
  get_usage-AddsUp rpm tpm os now l a b fits e =
      let start = new_token_bucket_limiter rate rpm tpm in
      let limits : HasLimits l =
        subst HasLimits e (run_operations-HasLimits os start fits (new-HasLimits rpm tpm a b)) in
      (
        clamp_usage-AddsUp (rate.tokens now l.request_limiter) l.rpm_limit limits.0,
        clamp_usage-AddsUp (rate.tokens now l.token_limiter) l.tpm_limit limits.1,
      )
