-- ===== src/Router/Retry.antt =====
-- `SelectWithRetry` of internal/router/failover.go, with its parallel race, and of
-- internal/router/weighted_failover.go.
pub mod Race
pub mod Sequence
use cc_relay.Base.{
  ℕ, zero, suc, ◌≡◌, Bool, true, false, Option, none, some, List, [], ◌∷◌, Err, no_providers,
  all_providers_unhealthy, deadline_exceeded, Result, ok, err, panic, ℤ, Lo, Draw, is_empty,
  if◌then◌else◌,
}
use cc_relay.Router.Info.{ProviderInfo, filter_healthy}
use cc_relay.Router.Triggers.{FailoverTrigger, should_failover}
use cc_relay.Router.Failover.{sort_by_priority}
use cc_relay.Router.WeightedOrder.{weighted_order}

-- What `tryProvider` returns.
pub record Attempt : Type 0 where
  pub status_code : ℤ
  pub error : Option Err

pub record RoutingResult : Type 0 where
  pub error : Option Err
  pub provider : ProviderInfo

-- The two results of `SelectWithRetry`; `none` for the zero `ProviderInfo` and for a nil error.
pub record Chosen : Type 0 where
  pub provider : Option ProviderInfo
  pub error : Option Err

abbrev pub chosen : ProviderInfo → Option Err → Chosen
chosen p e = record { provider = some p; error = e }

abbrev pub failed : Err → Chosen
failed e = record { provider = none; error = some e }

-- The receiving loop of `parallelRace`, over the results in the order in which they arrive.
unfoldable pub race_loop : Option Err → List RoutingResult → Chosen
race_loop none [] = failed deadline_exceeded
race_loop (some last_err) [] = failed last_err
race_loop last_err (r ∷ rs) = elim r.error [
  | none ↦ chosen r.provider none
  | some e ↦ race_loop (some e) rs
]

-- Lines 109 to 129, for the sorted healthy providers. `race` is what the goroutines send for a list
-- of providers, in the order of arrival.
unfoldable pub try_sorted :
    List FailoverTrigger
    → (ProviderInfo → Attempt)
    → (List ProviderInfo → List RoutingResult)
    → List ProviderInfo
    → Result Chosen
try_sorted triggers try_provider race [] = panic
try_sorted triggers try_provider race (p ∷ []) = ok (chosen p (try_provider p).error)
try_sorted triggers try_provider race (p ∷ q ∷ qs) = elim (try_provider p).error [
  | none ↦ ok (chosen p none)
  | some e ↦
      if should_failover triggers (some e) (try_provider p).status_code
      then ok (race_loop none (race (p ∷ q ∷ qs)))
      else ok (chosen p (some e))
]

unfoldable pub select_with_retry :
    Lo
    → List FailoverTrigger
    → (ProviderInfo → Attempt)
    → (List ProviderInfo → List RoutingResult)
    → List ProviderInfo
    → Result Chosen
select_with_retry lo triggers try_provider race providers =
    if is_empty providers
    then ok (failed no_providers)
    else let healthy = filter_healthy lo providers in
      if is_empty healthy
      then ok (failed all_providers_unhealthy)
      else try_sorted triggers try_provider race (sort_by_priority healthy)

-- The loop over the weighted order, with the last error so far.
unfoldable pub try_in_order :
    List FailoverTrigger → (ProviderInfo → Attempt) → Option Err → List ProviderInfo → Chosen
try_in_order triggers try_provider none [] = failed deadline_exceeded
try_in_order triggers try_provider (some last_err) [] = failed last_err
try_in_order triggers try_provider last_err (p ∷ ps) = elim (try_provider p).error [
  | none ↦ chosen p none
  | some e ↦
      let rest = try_in_order triggers try_provider (some e) ps in
      if should_failover triggers (some e) (try_provider p).status_code
      then rest
      else chosen p (some e)
]

unfoldable pub select_weighted_with_retry :
    Lo
    → (ℕ → Draw)
    → List FailoverTrigger
    → (ProviderInfo → Attempt)
    → List ProviderInfo
    → Result Chosen
select_weighted_with_retry lo draws triggers try_provider providers =
    if is_empty providers
    then ok (failed no_providers)
    else let healthy = filter_healthy lo providers in
      if is_empty healthy
      then ok (failed all_providers_unhealthy)
      else elim (weighted_order draws healthy) [
        | ok order ↦ ok (try_in_order triggers try_provider none order)
        | err e ↦ err e
        | panic ↦ panic
      ]
