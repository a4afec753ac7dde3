-- ===== src/Keypool/Selector/Tiers.antt =====
-- The priority tiers: the key that is picked is of the highest priority among the available ones.
use mathlib.Core.List.Permᴰ
use cc_relay.Base.{
  ℕ, suc, ◌^◌, ◌<◌, ◌≡◌, refl, ap, sym, subst, true, false, List, [], ◌∷◌, ◌++◌, no_keys,
  all_keys_exhausted, Result, ok, err, ℤ, pos_part, neg_part, ◌≤ℤ◌, ◌<ℤ◌, Lo, is_empty, length,
  length-append, arith, All, All-append, All-perm, All-get_elem?, ◌⊎◌, At, All-At, length-perm,
  flat, Falls, IsTier, group_by_priority_desc, group_by_priority_desc-IsTiered, inl, inr,
}
use cc_relay.Keypool.Key.{KeyMetadata, Floats, is_available}
use cc_relay.Keypool.Selector.{
  KeySelector, Reading, select_key, is_all_keys_exhausted, try_tiers, select_priority_tier,
}
use cc_relay.Keypool.Selector.Available.{exhausted, picked, select_key-Picks}

-- A key that does not beat `key`: it is not available, or not of a higher priority.
abbrev pub Tops : ℕ → KeyMetadata → KeyMetadata → Type 0
Tops now key k = (is_available now k ≡ false) ⊎ (k.priority ≤ℤ key.priority)

-- What the tiered selector owes its caller.
pub data PicksTop (now : ℕ) (keys : List KeyMetadata) (r : Result KeyMetadata) : Type 0 where
  nothing_configured : keys ≡ [] → r ≡ err no_keys → PicksTop now keys r
  nothing_available :
      is_empty keys ≡ false
      → All (λ (k : KeyMetadata). is_available now k ≡ false) keys
      → r ≡ err all_keys_exhausted
      → PicksTop now keys r
  picked_top :
      (key : KeyMetadata)
      → At key keys
      → is_available now key ≡ true
      → All (Tops now key) keys
      → r ≡ ok key
      → PicksTop now keys r

All-split {κ} :
    (P : KeyMetadata → Type κ) (xs ys : List KeyMetadata) → All P (xs ++ ys) → All P xs × All P ys
All-split P [] ys all = (tt, all)
All-split P (x ∷ xs) ys all = let (h, t) = All-split P xs ys all.1 in ((all.0, h), t)

All-down :
    (now : ℕ) (key : KeyMetadata) (xs : List KeyMetadata)
    → All (λ (k : KeyMetadata). is_available now k ≡ false) xs
    → All (Tops now key) xs
All-down now key [] all = tt
All-down now key (x ∷ xs) all = (inl all.0, All-down now key xs all.1)

All-level :
    (now : ℕ) (key : KeyMetadata) (level : ℤ) (xs : List KeyMetadata)
    → key.priority ≡ level
    → All (λ (k : KeyMetadata). k.priority ≡ level) xs
    → All (Tops now key) xs
All-level now key level [] here all = tt
All-level now key level (x ∷ xs) here all = (
  inr (omega (arith, ap pos_part here, ap neg_part here, ap pos_part all.0, ap neg_part all.0)),
  All-level now key level xs here all.1,
)

All-lower :
    (now : ℕ) (key : KeyMetadata) (level l : ℤ) (xs : List KeyMetadata)
    → key.priority ≡ level
    → l <ℤ level
    → All (λ (k : KeyMetadata). k.priority ≡ l) xs
    → All (Tops now key) xs
All-lower now key level l [] here low all = tt
All-lower now key level l (x ∷ xs) here low all = (
  inr (
      omega (arith, low, ap pos_part here, ap neg_part here, ap pos_part all.0, ap neg_part all.0)),
  All-lower now key level l xs here low all.1,
)

-- No key of a lower tier beats a key of the level.
flat-Tops :
    (now : ℕ) (key : KeyMetadata) (level : ℤ) (ts : List (ℤ × List KeyMetadata))
    → key.priority ≡ level
    → All (λ t. t.0 <ℤ level) ts
    → All (IsTier (λ (k : KeyMetadata). k.priority)) ts
    → All (Tops now key) (flat ts)
flat-Tops now key level [] here low all = tt
flat-Tops now key level ((l, ks) ∷ ts) here low all =
    All-append (Tops now key) ks (flat ts) (All-lower now key level l ks here low.0 all.0.1)
      (flat-Tops now key level ts here low.1 all.1)

module _ (lo : Lo) (floats : Floats) (reading : Reading) where
  -- One round of the loop over the tiers.
  try_tiers-exhausted :
      (k : ℕ) (s : KeySelector) (level : ℤ) (tier : List KeyMetadata)
      (ts : List (ℤ × List KeyMetadata))
      → (select_key lo floats reading k s tier).0 ≡ err all_keys_exhausted
      → try_tiers lo floats reading k s ((level, tier) ∷ ts)
        ≡ try_tiers lo floats reading (suc k) (select_key lo floats reading k s tier).1 ts
  unfolding try_tiers is_all_keys_exhausted
  try_tiers-exhausted k s level tier ts e = rw (e, try_tiers) refl

  try_tiers-picked :
      (k : ℕ) (s : KeySelector) (level : ℤ) (tier : List KeyMetadata)
      (ts : List (ℤ × List KeyMetadata)) (key : KeyMetadata)
      → (select_key lo floats reading k s tier).0 ≡ ok key
      → (try_tiers lo floats reading k s ((level, tier) ∷ ts)).0 ≡ ok key
  unfolding try_tiers
  try_tiers-picked k s level tier ts key e = rw (e, try_tiers) refl

  -- The loop over the tiers, on keys of which `P` holds.
  data TierResult (P : KeyMetadata → Type 0) (ks : List KeyMetadata) (r : Result KeyMetadata)
      : Type 0 where
    none_up :
        All (λ (k : KeyMetadata). is_available reading.now k ≡ false) ks
        → r ≡ err all_keys_exhausted
        → TierResult P ks r
    top_up :
        (key : KeyMetadata)
        → P key
        → is_available reading.now key ≡ true
        → All (Tops reading.now key) ks
        → r ≡ ok key
        → TierResult P ks r

  TierResult-append :
      (P : KeyMetadata → Type 0) (xs ys : List KeyMetadata) (r : Result KeyMetadata)
      → All (λ (k : KeyMetadata). is_available reading.now k ≡ false) xs
      → TierResult P ys r
      → TierResult P (xs ++ ys) r
  TierResult-append P xs ys r down (none_up all e) = none_up (All-append _ xs ys down all) e
  TierResult-append P xs ys r down (top_up key holds up tops e) =
      top_up key holds up
        (All-append (Tops reading.now key) xs ys (All-down reading.now key xs down) tops) e

  try_tiers-TierResult :
      (P : KeyMetadata → Type 0) (ts : List (ℤ × List KeyMetadata)) (k : ℕ) (s : KeySelector)
      → Falls ts
      → All (IsTier (λ (x : KeyMetadata). x.priority)) ts
      → All P (flat ts)
      → length (flat ts) < 2 ^ 63
      → TierResult P (flat ts) (try_tiers lo floats reading k s ts).0
  unfolding try_tiers
  try_tiers-TierResult P [] k s falls tiers all fits = none_up tt refl
  try_tiers-TierResult P ((level, tier) ∷ ts) k s falls tiers all fits =
      let (here, later) = All-split P tier (flat ts) all in
      let sizes = length-append tier (flat ts) in
      elim (select_key-Picks lo floats reading k s tier tiers.0.0 (omega (arith, fits, sizes))) [
        | exhausted down e ↦
            subst (TierResult P (tier ++ flat ts))
              (sym (ap (λ x. x.0) (try_tiers-exhausted k s level tier ts e)))
              (TierResult-append P tier (flat ts) _ down (
                try_tiers-TierResult P ts (suc k) (select_key lo floats reading k s tier).1 falls.1
                  tiers.1 later (omega (arith, fits, sizes))))
        | picked key (i, at_i) up e ↦
            let level_of_key : key.priority ≡ level =
              All-get_elem? (λ (x : KeyMetadata). x.priority ≡ level) tier i tiers.0.1 at_i in
            top_up key (All-get_elem? P tier i here at_i) up
              (All-append (Tops reading.now key) tier (flat ts)
                (All-level reading.now key level tier level_of_key tiers.0.1)
                (flat-Tops reading.now key level ts level_of_key falls.0 tiers.1))
              (try_tiers-picked k s level tier ts key e)
      ]

  -- On fewer than 2^63 keys and with any of the four selectors inside, the tiered selector
  -- reports no keys for an empty list, reports that all keys are exhausted when none is
  -- available, and otherwise picks an available key of the list that no available key beats in
  -- priority.
  pub select_priority_tier-PicksTop :
      (s : KeySelector) (keys : List KeyMetadata)
      → length keys < 2 ^ 63
      → PicksTop reading.now keys (select_priority_tier lo floats reading s keys).0
  unfolding select_priority_tier
  select_priority_tier-PicksTop s [] fits = nothing_configured refl refl
  select_priority_tier-PicksTop s (x ∷ xs) fits =
      let keys = x ∷ xs in
      let priority = λ (k : KeyMetadata). k.priority in
      let tiered = group_by_priority_desc-IsTiered priority keys in
      elim (try_tiers-TierResult (λ k. At k keys) (group_by_priority_desc priority keys) 0 s
        tiered.falls tiered.tiers
        (All-perm (λ k. At k keys) (Permᴰ.symm tiered.complete) (All-At keys))
        (omega (arith, length-perm tiered.complete, fits))) [
          | none_up down e ↦ nothing_available refl (All-perm _ tiered.complete down) e
          | top_up key member up tops e ↦
              picked_top key member up (All-perm (Tops reading.now key) tiered.complete tops) e
        ]
