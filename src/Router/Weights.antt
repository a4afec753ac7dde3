-- ===== src/Router/Weights.antt =====
-- The weight of a provider and the weighted roll: `getEffectiveWeight` of
-- internal/router/weighted_round_robin.go, `effectiveWeight` and `weightedIndex` of
-- internal/router/weighted_failover.go, and the sums over them.
use cc_relay.Base.{
  ℕ, ◌<◌, ◌≡◌, List, arith, ℤ, pos, pos_part, leb_ℤ, if◌then◌else◌, map, sum, effective_weight,
}
use cc_relay.Router.Info.{ProviderInfo}

unfoldable pub get_effective_weight : ProviderInfo → ℤ
get_effective_weight p = if leb_ℤ p.weight (pos 0) then pos 1 else p.weight

-- The effective weight as a number.
unfoldable pub weight_of : ProviderInfo → ℕ
unfolding effective_weight
weight_of p = pos_part (effective_weight p.weight)

pub weight_of-pos : (p : ProviderInfo) → 0 < weight_of p
unfolding weight_of
weight_of-pos p = ground arith

pub effective_weight-eq : (p : ProviderInfo) → effective_weight p.weight ≡ pos (weight_of p)
unfolding weight_of
effective_weight-eq p = ground arith

pub get_effective_weight-eq : (p : ProviderInfo) → get_effective_weight p ≡ pos (weight_of p)
unfolding weight_of get_effective_weight
get_effective_weight-eq p = ground arith

abbrev pub weights : List ProviderInfo → List ℕ
weights = map weight_of

-- The providers' total weight, with no bound on it.
abbrev pub total_weight : List ProviderInfo → ℕ
total_weight ps = sum (weights ps)
