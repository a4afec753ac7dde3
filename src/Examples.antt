-- ===== src/Examples.antt =====
-- Concrete runs: the interfaces filled with functions, and the theorems applied to small pools.
mod EventStreams
mod Configs
mod Cooldowns
use mathlib.Core.List.Permᴰ
use cc_relay.Base.{
  ◌-ℤ◌, negsuc, ltb_ℤ, true, none, str_eq, ◌≢◌, get_elem?, ltb, keep_map, ℕ, zero, suc, ◌+◌, ◌*◌,
  ◌≡◌, refl, Bool, true, false, none, some, List, [], ◌∷◌, ◌++◌, map, foldl, String, arith,
  net_error, Result, ok, at, ℤ, pos, ◌+ℤ◌, sub_ℕ, Lo, keep, length, replicate, take, drop, All,
  Draw, rand_intn, lookup, Permᴰ, sum, effective_weight, ltb_ℤ, if◌then◌else◌,
}
use cc_relay.Router.Info.{ProviderInfo, healthy, repeat_select}
use cc_relay.Router.Weights.{weight_of, weights, total_weight}
use cc_relay.Router.WeightedRoundRobin.{
  WeightedRoundRobinRouter, new_weighted_round_robin_router, select_times, sync_weights,
}
use cc_relay.Router.WeightedRoundRobin.Fair.{IsAtRest, tally, select_times-fair}
use cc_relay.Router.RoundRobin.{select_round_robin}
use cc_relay.Router.RoundRobin.Rotation.{select_round_robin-rotation}
use cc_relay.Router.Shuffle.{ShuffleRouter, new_shuffle_router, needs_reshuffle}
use cc_relay.Router.Shuffle.Deck.{deal_all, select_shuffle-deck}
use cc_relay.Router.Failover.{select_failover}
use cc_relay.Router.Failover.Best.{HasSmallPriority, IsFirstBest, select_failover-IsFirstBest}
use cc_relay.Router.WeightedOrder.{weighted_order, weighted_index, select_priority_weighted}
use cc_relay.Router.WeightedOrder.Laws.{Owns, weighted_index-Owns, weighted_order-perm}
use cc_relay.Router.WeightedOrder.TopTier.{IsTopTier, select_priority_weighted-top}
use cc_relay.Router.Triggers.{Search, default_triggers, should_failover-Search}
use cc_relay.Router.Retry.{
  Attempt, RoutingResult, Chosen, select_with_retry, select_weighted_with_retry,
}
use cc_relay.Router.Retry.Race.{Retried, select_with_retry-Retried}
use cc_relay.Router.Retry.Sequence.{Tried, select_weighted_with_retry-Tried}
use cc_relay.Router.LeastLoaded.{
  LeastLoadedRouter, new_least_loaded_router, load_of, select_least_loaded,
}
use cc_relay.Router.LeastLoaded.Tracking.{
  Call, acquiring, releasing, selecting, run_calls, acquired, released, run_calls-balance,
}
use cc_relay.Router.LeastLoaded.Lightest.{IsLightest, select_least_loaded-IsLightest}
use cc_relay.Auth.{AuthResult, Hash, new_api_key_authenticator, validate_api_key, validate_chain}
use cc_relay.Auth.Chain.{Decides, validate_chain-Decides}
use cc_relay.RateLimit.{Rate, TokenBucketLimiter, new_token_bucket_limiter, get_usage}
use cc_relay.RateLimit.Usage.{
  Operation, allowing, setting, reserving, run_operations, AddsUp, get_usage-AddsUp,
}
use cc_relay.Keypool.Key.{is_available, KeyMetadata, Floats}
use cc_relay.Keypool.Selector.{least_loaded, round_robin, Reading, select_priority_tier}
use cc_relay.Keypool.Selector.Tiers.{PicksTop, select_priority_tier-PicksTop}
use cc_relay.Keypool.Pool.Stats.{AreStatsOf, get_stats-AreStatsOf}
use cc_relay.Keypool.Pool.Marks.{KeyAt, mark_key_healthy-cooldown}
use cc_relay.Keypool.Pool.{
  get_stats, mark_key_exhausted, mark_key_unhealthy, mark_key_healthy, RateLimiter, KeyPool,
  get_key,
}
use cc_relay.Keypool.Pool.Serves.{Serves, get_key-Serves}

-- `lo` by its documented behaviour, with a shuffle that leaves the order.
abbrev lo_model : Lo
lo_model = record {
  filter = λ p xs. keep p xs;
  filter_lem = λ p xs. refl;
  sum_by = λ f xs. foldl (λ s x. s +ℤ f x) (pos 0) xs;
  sum_by_lem = λ f xs. refl;
  reduce = λ f b xs. foldl f b xs;
  reduce_lem = λ f b xs. refl;
  max_by = λ gt x xs. foldl (λ m y. if gt y m then y else m) x xs;
  max_by_lem = λ gt x xs. refl;
  filter_map = λ f xs. keep_map f xs;
  filter_map_lem = λ f xs. refl;
  min_by = λ lt x xs. foldl (λ m y. if lt y m then y else m) x xs;
  min_by_lem = λ lt x xs. refl;
  shuffle = λ seed xs. xs;
  shuffle-perm = λ seed xs. Permᴰ.refl xs;
}

abbrev draws : ℕ → Draw
draws k = record { entropy = some (k * 7 + 3); unix_nano = 0 }

abbrev info : String → ℤ → ℤ → ProviderInfo
info name weight priority = record {
  provider = some (record { name = name; owner = "owner" });
  is_healthy = some true;
  weight = weight;
  priority = priority;
}

abbrev alpha : ProviderInfo
alpha = info "alpha" (pos 2) (pos 1)

abbrev beta : ProviderInfo
beta = info "beta" (pos 1) (pos 5)

abbrev gamma : ProviderInfo
gamma = record (info "gamma" (pos 3) (pos 9)) { is_healthy = some false }

-- `gamma` is down.
abbrev all_three : List ProviderInfo
all_three = alpha ∷ gamma ∷ beta ∷ []

abbrev up_two : List ProviderInfo
up_two = alpha ∷ beta ∷ []

select_times-fair_example :
    (picks : List ℕ) × (r' : WeightedRoundRobinRouter) × (select_times lo_model
        (total_weight up_two)
        new_weighted_round_robin_router
        all_three
      ≡ (map (at up_two) picks, r'))
    × (tally picks (replicate (length up_two) 0) ≡ weights up_two)
    × IsAtRest r' up_two
unfolding healthy sum weight_of effective_weight new_weighted_round_robin_router sync_weights
select_times-fair_example =
    select_times-fair lo_model all_three up_two new_weighted_round_robin_router refl refl
      (omega arith) refl

select_round_robin-rotation_example :
    repeat_select (λ s. select_round_robin lo_model s all_three) 2 (record { index = 5 })
    ≡ (map ok (drop 1 up_two ++ take 1 up_two), record { index = 7 })
unfolding healthy
select_round_robin-rotation_example =
    select_round_robin-rotation lo_model all_three up_two refl refl (omega arith)
      (record { index = 5 }) (omega arith)

select_shuffle-deck_example :
    (results : List (Result ProviderInfo)) × (r' : ShuffleRouter) × (deal_all lo_model all_three
        (λ k. k)
        0
        2
        new_shuffle_router
      ≡ (results, r'))
    × Permᴰ results (map ok up_two)
    × (needs_reshuffle r' 2 ≡ true)
unfolding healthy needs_reshuffle new_shuffle_router
select_shuffle-deck_example =
    select_shuffle-deck lo_model all_three up_two refl refl (λ k. k) new_shuffle_router refl

abbrev small_two : All HasSmallPriority up_two
small_two = ((omega arith, omega arith), ((omega arith, omega arith), tt))

select_failover-IsFirstBest_example :
    (p : ProviderInfo) × ((select_failover lo_model tt all_three).0 ≡ ok p) × IsFirstBest p up_two
unfolding healthy
select_failover-IsFirstBest_example =
    select_failover-IsFirstBest lo_model all_three up_two refl refl small_two

weighted_index-Owns_example :
    (before : List ProviderInfo) × (p : ProviderInfo) × (weighted_index (draws 0) up_two
      ≡ length before)
    × Owns (rand_intn (draws 0) (pos (total_weight up_two))) p before up_two
unfolding sum weight_of effective_weight
weighted_index-Owns_example = weighted_index-Owns (draws 0) up_two refl (omega arith)

weighted_order-perm_example :
    (order : List ProviderInfo) × (weighted_order draws up_two ≡ ok order) × Permᴰ order up_two
weighted_order-perm_example = weighted_order-perm draws up_two

select_priority_weighted-top_example :
    (tier : List ProviderInfo) × (others : List ProviderInfo) × (before : List ProviderInfo)
    × (p : ProviderInfo) × ((select_priority_weighted lo_model draws tt all_three).0 ≡ ok p)
    × IsTopTier p.priority tier others up_two
    × Owns (rand_intn (draws 0) (pos (total_weight tier))) p before tier
unfolding healthy sum weight_of effective_weight
select_priority_weighted-top_example =
    select_priority_weighted-top lo_model draws all_three up_two refl refl (omega arith)

should_failover-Search_example : Search default_triggers (some (net_error 1)) (pos 200)
should_failover-Search_example =
    should_failover-Search default_triggers (some (net_error 1)) (pos 200)

-- `beta` fails with a 503, and `alpha` succeeds.
abbrev try_provider : ProviderInfo → Attempt
try_provider p =
    if ltb_ℤ (pos 1) p.priority
    then record { status_code = pos 503; error = some (net_error 1) }
    else record { status_code = pos 200; error = none }

abbrev race : List ProviderInfo → List RoutingResult
race [] = []
race (p ∷ ps) = record { error = (try_provider p).error; provider = p } ∷ race ps

length-race : (ps : List ProviderInfo) → length (race ps) ≡ length ps
length-race [] = refl
length-race (p ∷ ps) = omega (arith, length-race ps)

select_with_retry-Retried_example :
    Retried default_triggers try_provider race up_two
      (select_with_retry lo_model default_triggers try_provider race all_three)
unfolding healthy
select_with_retry-Retried_example =
    select_with_retry-Retried lo_model default_triggers try_provider race all_three up_two
      length-race refl refl small_two

select_weighted_with_retry-Tried_example :
    (order : List ProviderInfo) × (c : Chosen) × (weighted_order draws up_two ≡ ok order)
    × Permᴰ order up_two
    × Tried default_triggers try_provider order c
    × (select_weighted_with_retry lo_model draws default_triggers try_provider all_three ≡ ok c)
unfolding healthy
select_weighted_with_retry-Tried_example =
    select_weighted_with_retry-Tried default_triggers try_provider lo_model draws all_three up_two
      refl refl

abbrev busy_router : LeastLoadedRouter
busy_router = record { in_flight = ("alpha", pos 2) ∷ ("beta", pos 1) ∷ [] }

select_least_loaded-IsLightest_example :
    (p : ProviderInfo) × ((select_least_loaded lo_model (draws 0) busy_router all_three).0 ≡ ok p)
    × IsLightest busy_router p up_two
unfolding healthy load_of lookup
select_least_loaded-IsLightest_example =
    select_least_loaded-IsLightest lo_model (draws 0) busy_router all_three up_two refl refl
      ((_, refl, refl), ((_, refl, refl), tt)) small_two

abbrev some_calls : List Call
some_calls =
    acquiring (record { name = "alpha"; owner = "owner" })
    ∷ selecting (draws 0) all_three
    ∷ acquiring (record { name = "alpha"; owner = "owner" })
    ∷ releasing (record { name = "alpha"; owner = "owner" })
    ∷ []

run_calls-balance_example :
    load_of (run_calls lo_model new_least_loaded_router some_calls) "alpha"
    ≡ sub_ℕ (acquired "alpha" some_calls) (released "alpha" some_calls)
run_calls-balance_example = run_calls-balance lo_model some_calls "alpha" (omega arith)

abbrev floats_model : Floats
floats_model = record {
  Float64 = ℤ;
  float64 = λ x. x;
  plus = λ x y. x +ℤ y;
  divide = λ x y. x;
  greater = λ x y. ltb_ℤ y x;
}

abbrev reading : Reading
reading = record { now = 100; draw = draws }

abbrev key : String → ℤ → ℕ → KeyMetadata
key id priority cooldown = record {
  rpm_reset_at = 0;
  itpm_reset_at = 0;
  otpm_reset_at = 0;
  last_error_at = 0;
  cooldown_until = cooldown;
  last_error = none;
  api_key = "secret";
  id = id;
  rpm_limit = pos 50;
  itpm_limit = pos 0;
  otpm_limit = pos 0;
  rpm_remaining = pos 20;
  itpm_remaining = pos 0;
  otpm_remaining = pos 0;
  priority = priority;
  weight = pos 1;
  healthy = true;
}

-- The second key cools down until 150, and the third has no token left.
abbrev three_keys : List KeyMetadata
three_keys = key "k0" (pos 1) 0 ∷ key "k1" (pos 2) 150 ∷ key "k2" (pos 2) 0 ∷ []

select_priority_tier-PicksTop_example :
    PicksTop 100 three_keys
      (select_priority_tier lo_model floats_model reading (round_robin 4) three_keys).0
select_priority_tier-PicksTop_example =
    select_priority_tier-PicksTop lo_model floats_model reading (round_robin 4) three_keys
      (omega arith)

-- A limiter that counts tokens.
abbrev take_token : ℕ → Bool × ℕ
take_token zero = (false, zero)
take_token (suc tokens) = (true, tokens)

abbrev rate_model : RateLimiter
rate_model = record { Limiter = ℕ; allow = λ now tokens. take_token tokens }

abbrev pool : KeyPool rate_model
pool = record {
  selector = least_loaded;
  key_map = ("k0", 0) ∷ ("k1", 1) ∷ ("k2", 2) ∷ [];
  limiters = ("k0", 3) ∷ ("k1", 3) ∷ ("k2", 0) ∷ [];
  provider = "anthropic";
  keys = three_keys;
}

get_key-Serves_example :
    Serves rate_model
      (λ k. reading)
      0
      three_keys
      pool.limiters
      (get_key lo_model floats_model rate_model (λ k. reading) pool).0
unfolding lookup
get_key-Serves_example =
    get_key-Serves rate_model (λ k. reading) lo_model floats_model pool (omega arith)
      ((refl, (refl, tt)), ((refl, tt), (tt, tt))) ((3, refl), ((3, refl), ((0, refl), tt)))

get_stats-AreStatsOf_example : AreStatsOf 100 three_keys (get_stats lo_model rate_model 100 pool)
get_stats-AreStatsOf_example = get_stats-AreStatsOf lo_model rate_model 100 pool (omega arith)

zero-ne-two : ◌≢◌ {A = ℕ} 0 2
zero-ne-two e = omega (arith, e)

mark_key_healthy-cooldown_example :
    (marked : KeyPool rate_model) × (unhealthy : KeyMetadata) × (healthy_again : KeyMetadata)
    × (mark_key_exhausted rate_model 100 "k0"
          (pos 60)
          (mark_key_unhealthy rate_model 100 "k0" none pool)
        ≡ marked)
    × KeyAt marked "k0" 0 unhealthy
    × (is_available 200 unhealthy ≡ false)
    × KeyAt (mark_key_healthy rate_model "k0" marked) "k0" 0 healthy_again
    × (is_available 200 healthy_again ≡ ltb (100 + 60) (200 + 0))
    × (get_elem? (mark_key_healthy rate_model "k0" marked).keys 2 ≡ get_elem? pool.keys 2)
unfolding lookup
mark_key_healthy-cooldown_example =
    mark_key_healthy-cooldown rate_model pool "k0" 0 2 (key "k0" (pos 1) 0) 100 200 (pos 60) none
      (refl, refl) zero-ne-two (omega arith)

-- A digest that is the text itself.
abbrev hash_model : Hash
hash_model = record { Digest = String; sum256 = λ text. text; same_digest = λ a b. str_eq a b }

-- Two keys, and a request that is its header `x-api-key`.
abbrev two_keys : List (String → AuthResult)
two_keys =
    (λ header. validate_api_key hash_model (new_api_key_authenticator hash_model "first") header)
    ∷ (λ header. validate_api_key hash_model (new_api_key_authenticator hash_model "second") header)
    ∷ []

validate_chain-Decides_example :
    Decides "second" two_keys (validate_chain lo_model two_keys "second")
validate_chain-Decides_example = validate_chain-Decides "second" lo_model two_keys

-- A bucket that never fills up again.
abbrev bucket_model : Rate
bucket_model = record {
  Limiter = ℤ;
  Reservation = Unit;
  new_limiter = λ per_minute burst. burst;
  allow = λ now left. (ltb_ℤ (pos 0) left, left -ℤ pos 1);
  wait_n = λ now n left. (none, left -ℤ n);
  tokens = λ now left. left;
  reserve_n = λ now n left. (tt, left -ℤ n);
  is_ok = λ r. true;
  cancel = λ now r left. left;
}

abbrev operations : List Operation
operations = allowing 1 ∷ setting (pos 50) (negsuc 3) ∷ allowing 2 ∷ reserving 3 (pos 70) ∷ []

abbrev used_bucket : TokenBucketLimiter bucket_model
used_bucket =
    run_operations bucket_model (new_token_bucket_limiter bucket_model (pos 10) (pos 0)) operations

get_usage-AddsUp_example :
    AddsUp
      (get_usage bucket_model 4 used_bucket).requests_used
      (get_usage bucket_model 4 used_bucket).requests_remaining
      (get_usage bucket_model 4 used_bucket).requests_limit
    × AddsUp
        (get_usage bucket_model 4 used_bucket).tokens_used
        (get_usage bucket_model 4 used_bucket).tokens_remaining
        (get_usage bucket_model 4 used_bucket).tokens_limit
get_usage-AddsUp_example =
    get_usage-AddsUp bucket_model (pos 10) (pos 0) operations 4 used_bucket (omega arith)
      (omega arith) (tt, ((omega arith, omega arith), (tt, (tt, tt)))) refl
