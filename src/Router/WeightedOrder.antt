-- ===== src/Router/WeightedOrder.antt =====
-- internal/router/weighted_failover.go and internal/router/priority_weighted_failover.go: the random
-- choices by weight.
pub mod Laws
pub mod TopTier
use cc_relay.Base.{
  ℕ, zero, suc, ◌+◌, ◌-◌, ◌≡◌, Bool, true, false, Option, none, some, List, [], ◌∷◌, ◌++◌, map,
  foldl, Result, ok, err, panic, at, all_providers_unhealthy, ℤ, pos, ◌+ℤ◌, leb_ℤ, Lo, is_empty,
  length, Draw, rand_intn, effective_weight, weighted_walk, group_by_priority_desc, if◌then◌else◌,
}
use cc_relay.Router.Info.{ProviderInfo, with_healthy}

-- The loop that adds up the effective weights.
unfoldable pub sum_weights : List ProviderInfo → ℤ
sum_weights providers = foldl (λ total p. total +ℤ effective_weight p.weight) (pos 0) providers

unfoldable pub weighted_index : Draw → List ProviderInfo → ℕ
unfolding sum_weights
weighted_index draw providers =
    if leb_ℤ (sum_weights providers) (pos 0)
    then 0
    else let roll = rand_intn draw (sum_weights providers) in
      elim (weighted_walk (λ (p : ProviderInfo). effective_weight p.weight) 0 (pos roll)
        providers) [ some (i, p) ↦ i | none ↦ length providers - 1 ]

-- `remaining[idx]`, and `append(remaining[:idx], remaining[idx+1:]...)`.
unfoldable pub take_out : {A : Type 0} → ℕ → List A → Option (A × List A)
take_out i [] = none
take_out zero (x ∷ xs) = some (x, xs)
take_out (suc i) (x ∷ xs) = elim (take_out i xs) [ none ↦ none | some (y, ys) ↦ some (y, x ∷ ys) ]

-- The loop of `weightedOrder`: one draw a round, and as many rounds as there are providers left.
unfoldable pub weighted_order_loop :
    (ℕ → Draw) → ℕ → ℕ → List ProviderInfo → Result (List ProviderInfo)
weighted_order_loop draws k zero remaining = ok []
weighted_order_loop draws k (suc fuel) remaining =
    elim (take_out (weighted_index (draws k) remaining) remaining) [
      | none ↦ panic
      | some (p, rest) ↦ elim (weighted_order_loop draws (suc k) fuel rest) [
        | ok order ↦ ok (p ∷ order)
        | err e ↦ err e
        | panic ↦ panic
      ]
    ]

unfoldable pub weighted_order : (ℕ → Draw) → List ProviderInfo → Result (List ProviderInfo)
unfolding weighted_order_loop
weighted_order draws providers = weighted_order_loop draws 0 (length providers) providers

unfoldable pub first_of_order : Result (List ProviderInfo) → Result ProviderInfo
first_of_order (ok order) = at order 0
first_of_order (err e) = err e
first_of_order panic = panic

unfoldable pub select_weighted_failover :
    {S : Type 0} → Lo → (ℕ → Draw) → S → List ProviderInfo → Result ProviderInfo × S
select_weighted_failover lo draws r providers =
    with_healthy lo r providers (λ healthy. (first_of_order (weighted_order draws healthy), r))

unfoldable pub weighted_random_select : Draw → List ProviderInfo → Result ProviderInfo
unfolding sum_weights
weighted_random_select draw [] = err all_providers_unhealthy
weighted_random_select draw (p ∷ []) = ok p
weighted_random_select draw (p ∷ q ∷ qs) =
    let providers = p ∷ q ∷ qs in
    if leb_ℤ (sum_weights providers) (pos 0)
    then ok p
    else let roll = rand_intn draw (sum_weights providers) in
      elim (weighted_walk (λ (x : ProviderInfo). effective_weight x.weight) 0 (pos roll)
        providers) [ some (i, x) ↦ ok x | none ↦ at providers (length providers - 1) ]

-- The loop over the groups: the first selection that succeeds.
unfoldable pub first_group : (ℕ → Draw) → ℕ → List (ℤ × List ProviderInfo) → Result ProviderInfo
first_group draws k [] = err all_providers_unhealthy
first_group draws k ((level, group) ∷ groups) = elim (weighted_random_select (draws k) group) [
  | ok p ↦ ok p
  | err e ↦ first_group draws (suc k) groups
  | panic ↦ panic
]

unfoldable pub select_priority_weighted :
    {S : Type 0} → Lo → (ℕ → Draw) → S → List ProviderInfo → Result ProviderInfo × S
select_priority_weighted lo draws r providers = with_healthy lo r providers (λ healthy.
    (first_group draws 0 (group_by_priority_desc (λ (p : ProviderInfo). p.priority) healthy), r))
