-- ===== src/Base/Outcome.antt =====
-- Go's errors, and results with a panic (an index out of range, a nil dereference) as an outcome.
use Prim.Native.Nat.{ℕ}
use Prim.Native.String.{String}
use mathlib.Core.Path.{◌≡◌, ap}
use mathlib.Core.Bool.{Bool, true, false}
use mathlib.Core.List.{List}
use mathlib.Core.Option.{none, some}
use cc_relay.Base.Lists.{get_elem?}

-- The errors that the program tells apart, and `fmt.Errorf("...: %w", err)` as `wrap`.
pub data Err : Type 0 where
  no_providers all_providers_unhealthy : Err
  all_keys_exhausted no_keys key_not_found : Err
  circuit_open : Err
  deadline_exceeded canceled : Err
  net_error : ℕ → Err
  wrap : String → Err → Err
  msg : String → Err

pub data Result {ℓ} (A : Type ℓ) : Type ℓ where
  ok : A → Result A
  err : Err → Result A
  panic : Result A

-- `xs[i]`.
abbrev pub at {ℓ} : {A : Type ℓ} → List A → ℕ → Result A
at xs i = elim (get_elem? xs i) [ none ↦ panic | some a ↦ ok a ]

pub at-eq-ok {ℓ} :
    {A : Type ℓ} (xs : List A) (i : ℕ) {a : A} → get_elem? xs i ≡ some a → at xs i ≡ ok a
at-eq-ok xs i e = ap (λ o. elim o [ none ↦ panic | some a ↦ ok a ]) e

-- `errors.Is(err, context.DeadlineExceeded)` and `errors.Is(err, context.Canceled)`.
unfoldable pub is_deadline_exceeded : Err → Bool
is_deadline_exceeded deadline_exceeded = true
is_deadline_exceeded (wrap text e) = is_deadline_exceeded e
is_deadline_exceeded _ = false

unfoldable pub is_canceled : Err → Bool
is_canceled canceled = true
is_canceled (wrap text e) = is_canceled e
is_canceled _ = false

-- `errors.As(err, &netErr)`: the package net's errors, and `context.DeadlineExceeded`, which has the
-- methods `Timeout` and `Temporary` too.
unfoldable pub is_net_error : Err → Bool
is_net_error (net_error n) = true
is_net_error deadline_exceeded = true
is_net_error (wrap text e) = is_net_error e
is_net_error _ = false
