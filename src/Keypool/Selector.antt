-- ===== src/Keypool/Selector.antt =====
-- The key selectors of internal/keypool: least_loaded.go, round_robin.go, random.go, weighted.go, and
-- priority_tier.go, which wraps one of them.
pub mod Available
pub mod Tiers
use cc_relay.Base.{
  ℕ, zero, suc, ◌+◌, ◌-◌, ◌%◌, ◌^◌, ◌≡◌, Bool, true, false, Option, none, some, List, [], ◌∷◌, Err,
  no_keys, all_keys_exhausted, wrap, Result, ok, err, panic, at, ℤ, pos, ◌+ℤ◌, leb_ℤ, Lo, is_empty,
  length, foldl, ltb, Draw, rand_intn, effective_weight, weighted_walk, group_by_priority_desc,
  if◌then◌else◌,
}
use cc_relay.Keypool.Key.{KeyMetadata, Floats, is_available, get_capacity_score}

-- The selectors, with their state. `index` is a uint64.
pub data KeySelector : Type 0 where
  least_loaded random weighted : KeySelector
  round_robin : (index : ℕ) → KeySelector

-- What one call of `Select` reads from outside: the clock, which is taken to stand still during the
-- call, and the random source.
pub record Reading : Type 0 where
  pub now : ℕ
  pub draw : ℕ → Draw

-- The loop of the round robin: `n` keys from index `i` on, around the end.
unfoldable pub next_available : ℕ → List KeyMetadata → ℕ → ℕ → Result KeyMetadata
next_available now keys i zero = err all_keys_exhausted
next_available now keys i (suc n) = elim (at keys (i % length keys)) [
  | ok key ↦
      let rest = next_available now keys (suc i) n in if is_available now key then ok key else rest
  | err e ↦ err e
  | panic ↦ panic
]

abbrev max_int : ℕ
max_int = 2 ^ 63 - 1

unfoldable pub select_round_robin_key : ℕ → ℕ → List KeyMetadata → Result KeyMetadata × KeySelector
select_round_robin_key now index keys =
    let index' = (index + 1) % 2 ^ 64 in
    let next_index = (index' + 2 ^ 64 - 1) % 2 ^ 64 in
    let start_idx = next_index % length keys in
    (
      if ltb max_int start_idx
          then err no_keys
          else next_available now keys start_idx (length keys),
      round_robin index',
    )

unfoldable pub best_capacity : Lo → Floats → ℕ → List KeyMetadata → Result KeyMetadata
best_capacity lo floats now [] = err all_keys_exhausted
best_capacity lo floats now (k ∷ ks) = ok (
    lo.max_by
      (λ a b. floats.greater (get_capacity_score floats now a) (get_capacity_score floats now b)) k
      ks)

unfoldable pub random_key : Draw → List KeyMetadata → Result KeyMetadata
random_key draw available = at available (rand_intn draw (pos (length available)))

unfoldable pub weighted_key : Draw → List KeyMetadata → Result KeyMetadata
weighted_key draw available =
    let total_weight =
      foldl (λ total (k : KeyMetadata). total +ℤ effective_weight k.weight) (pos 0) available in
    if leb_ℤ total_weight (pos 0)
    then at available 0
    else elim (weighted_walk (λ (k : KeyMetadata). effective_weight k.weight) 0
        (pos (rand_intn draw total_weight)) available) [
          | some (i, key) ↦ ok key
          | none ↦ at available (length available - 1)
        ]

-- The filter and the guard that three of the selectors share.
unfoldable pub of_available :
    Lo → ℕ → List KeyMetadata → (List KeyMetadata → Result KeyMetadata) → Result KeyMetadata
of_available lo now keys choose =
    let available = lo.filter (is_available now) keys in
    if is_empty available then err all_keys_exhausted else choose available

-- `Select` of each selector; `k` counts the calls within one reading.
unfoldable pub select_key :
    Lo → Floats → Reading → ℕ → KeySelector → List KeyMetadata → Result KeyMetadata × KeySelector
select_key lo floats reading k s [] = (err no_keys, s)
select_key lo floats reading k least_loaded (key ∷ keys) =
    (of_available lo reading.now (key ∷ keys) (best_capacity lo floats reading.now), least_loaded)
select_key lo floats reading k random (key ∷ keys) =
    (of_available lo reading.now (key ∷ keys) (random_key (reading.draw k)), random)
select_key lo floats reading k weighted (key ∷ keys) =
    (of_available lo reading.now (key ∷ keys) (weighted_key (reading.draw k)), weighted)
select_key lo floats reading k (round_robin index) (key ∷ keys) =
    select_round_robin_key reading.now index (key ∷ keys)

-- `errors.Is(err, ErrAllKeysExhausted)`.
unfoldable pub is_all_keys_exhausted : Err → Bool
is_all_keys_exhausted all_keys_exhausted = true
is_all_keys_exhausted (wrap text e) = is_all_keys_exhausted e
is_all_keys_exhausted e = false

-- The loop over the tiers, highest first.
unfoldable pub try_tiers :
    Lo
    → Floats
    → Reading
    → ℕ
    → KeySelector
    → List (ℤ × List KeyMetadata)
    → Result KeyMetadata × KeySelector
try_tiers lo floats reading k s [] = (err all_keys_exhausted, s)
try_tiers lo floats reading k s ((level, tier) ∷ tiers) =
    let (chosen, s') = select_key lo floats reading k s tier in
    let rest = try_tiers lo floats reading (suc k) s' tiers in
    elim chosen [
      | ok key ↦ (ok key, s')
      | err e ↦ if is_all_keys_exhausted e then rest else (err e, s')
      | panic ↦ (panic, s')
    ]

-- `PriorityTierSelector.Select`.
unfoldable pub select_priority_tier :
    Lo → Floats → Reading → KeySelector → List KeyMetadata → Result KeyMetadata × KeySelector
select_priority_tier lo floats reading s [] = (err no_keys, s)
select_priority_tier lo floats reading s (key ∷ keys) =
    try_tiers lo floats reading 0 s
      (group_by_priority_desc (λ (k : KeyMetadata). k.priority) (key ∷ keys))
