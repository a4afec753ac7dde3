-- ===== src/Router/WeightedRoundRobin.antt =====
-- internal/router/weighted_round_robin.go: nginx's smooth weighted round-robin.
pub mod Track
pub mod Fair
use text.Mathlib.Text.{◌==◌ as str_eq}
use cc_relay.Base.{
  ℕ, zero, suc, ◌+◌, ◌<◌, ◌≡◌, Bool, true, false, Option, none, some, List, [], ◌∷◌, map, String,
  Result, ok, err, panic, at, ℤ, pos, ◌+ℤ◌, ◌-ℤ◌, ltb_ℤ, Lo, set, replicate, length, if◌then◌else◌,
  not, ◌&&◌,
}
use cc_relay.Router.Info.{Provider, ProviderInfo, with_healthy}
use cc_relay.Router.Weights.{get_effective_weight}

pub record WeightedRoundRobinRouter : Type 0 where
  pub current_weights : List ℤ
  pub last_provider_ids : List String

unfoldable pub new_weighted_round_robin_router : WeightedRoundRobinRouter
new_weighted_round_robin_router = record { current_weights = []; last_provider_ids = [] }

provider_id : Option Provider → String
provider_id none = ""
provider_id (some p) = p.name

unfoldable pub get_provider_ids : List ProviderInfo → List String
unfolding provider_id
get_provider_ids = map (λ p. provider_id p.provider)

-- The length test and the loop of `stringSliceEqual` in one walk.
unfoldable pub string_slice_equal : List String → List String → Bool
string_slice_equal [] [] = true
string_slice_equal [] (y ∷ ys) = false
string_slice_equal (x ∷ xs) [] = false
string_slice_equal (x ∷ xs) (y ∷ ys) = str_eq x y && string_slice_equal xs ys

-- Step 1: `r.currentWeights[i] += getEffectiveWeight(p)`, which panics on a missing index.
pub add_weights : List ProviderInfo → List ℤ → Result (List ℤ)
add_weights [] cs = ok cs
add_weights (p ∷ ps) [] = panic
add_weights (p ∷ ps) (c ∷ cs) = elim (add_weights ps cs) [
  | ok rest ↦ ok ((c +ℤ get_effective_weight p) ∷ rest)
  | err e ↦ err e
  | panic ↦ panic
]

-- Step 2: the loop from index `i` on, with the best index and weight so far.
pub scan_max : ℕ → ℕ → ℤ → List ℤ → ℕ × ℤ
scan_max i max_idx max_weight [] = (max_idx, max_weight)
scan_max i max_idx max_weight (c ∷ cs) =
    let better = ltb_ℤ max_weight c in
    scan_max (suc i) (if better then i else max_idx) (if better then c else max_weight) cs

-- Steps 2 and 3 on the raised weights: the winner, and the weights with the total taken off it.
-- `max_weight` is the weight at `max_idx`.
pub pick_max : List ℤ → ℤ → Result (ℕ × List ℤ)
unfolding scan_max
pick_max [] total = panic
pick_max (c ∷ cs) total =
    let (max_idx, max_weight) = scan_max 1 0 c cs in
    ok (max_idx, set (c ∷ cs) max_idx (max_weight -ℤ total))

-- Steps 1 to 3. (No caller looks at the weights after a panic, so they are not part of that case.)
pub smooth_step : ℤ → List ProviderInfo → List ℤ → Result (ℕ × List ℤ)
unfolding add_weights pick_max
smooth_step total healthy cs = elim (add_weights healthy cs) [
  | ok raised ↦ pick_max raised total
  | err e ↦ err e
  | panic ↦ panic
]

-- The state for the list of healthy providers at hand: kept, or set up anew.
unfoldable pub sync_weights :
    WeightedRoundRobinRouter → List ProviderInfo → WeightedRoundRobinRouter
unfolding string_slice_equal get_provider_ids
sync_weights r healthy =
    if not (string_slice_equal r.last_provider_ids (get_provider_ids healthy))
    then record {
      current_weights = replicate (length healthy) (pos 0);
      last_provider_ids = get_provider_ids healthy;
    }
    else r

-- The part of `Select` under the lock, for the healthy providers.
unfoldable pub select_locked :
    Lo
    → WeightedRoundRobinRouter
    → List ProviderInfo
    → Result ProviderInfo × WeightedRoundRobinRouter
select_locked lo r healthy =
    let r' = sync_weights r healthy in
    let total = lo.sum_by get_effective_weight healthy in
    elim (smooth_step total healthy r'.current_weights) [
      | ok (max_idx, cs) ↦ (at healthy max_idx, record r' { current_weights = cs })
      | err e ↦ (err e, r')
      | panic ↦ (panic, r')
    ]

unfoldable pub select_weighted_round_robin :
    Lo
    → WeightedRoundRobinRouter
    → List ProviderInfo
    → Result ProviderInfo × WeightedRoundRobinRouter
select_weighted_round_robin lo r providers = with_healthy lo r providers (select_locked lo r)

-- `n` calls of `Select` on one list of providers: the results, and the state at the end.
unfoldable pub select_times :
    Lo
    → ℕ
    → WeightedRoundRobinRouter
    → List ProviderInfo
    → List (Result ProviderInfo) × WeightedRoundRobinRouter
select_times lo zero r providers = ([], r)
select_times lo (suc n) r providers =
    let (chosen, r') = select_weighted_round_robin lo r providers in
    let (later, r'') = select_times lo n r' providers in (chosen ∷ later, r'')
