-- ===== src/Keypool/Pool/Serves.antt =====
-- What `GetKey` tries, attempt by attempt, and what it answers.
use cc_relay.Base.{
  ℕ, zero, suc, ◌^◌, ◌<◌, ◌≡◌, refl, ap, sym, subst, true, false, not, some, List, [], ◌∷◌, String,
  arith, all_keys_exhausted, Result, ok, err, Lo, length, lookup, insert, lookup-insert, str_eq,
  All, At, Bool-cases, inl, inr, All-get_elem?,
}
use cc_relay.Keypool.Key.{KeyMetadata, Floats, is_available}
use cc_relay.Keypool.Selector.{Reading, select_priority_tier}
use cc_relay.Keypool.Selector.Tiers.{
  Tops, nothing_configured, nothing_available, picked_top, select_priority_tier-PicksTop,
}
use cc_relay.Keypool.Pool.{RateLimiter, KeyPool, get_key_loop, get_key}
use cc_relay.Keypool.Pool.Distinct.{
  Distinct, without, All-without, Distinct-without, length-without,
}

-- The best key of an attempt: available, and beaten by none.
pub record IsTopKey (now : ℕ) (available : List KeyMetadata) (key : KeyMetadata) : Type 0 where
  pub member : At key available
  pub up : is_available now key ≡ true
  pub tops : All (Tops now key) available

module _ (rate : RateLimiter) (readings : ℕ → Reading) where
  -- From an attempt on, with the keys that no limiter has refused yet: the best key is handed out if
  -- its limiter allows it, and left out for the rest of the call if not, until no key is available.
  pub data Serves
      : ℕ
        → List KeyMetadata
        → List (String × rate.Limiter)
        → Result (String × String)
        → Type 0 where
    handed_out :
        (attempt : ℕ) (available : List KeyMetadata) (limiters : List (String × rate.Limiter))
        (key : KeyMetadata) (limiter : rate.Limiter)
        → IsTopKey (readings attempt).now available key
        → lookup key.id limiters ≡ some limiter
        → (rate.allow (readings attempt).now limiter).0 ≡ true
        → Serves attempt available limiters (ok (key.id, key.api_key))
    refused :
        (attempt : ℕ) (available : List KeyMetadata) (limiters : List (String × rate.Limiter))
        (key : KeyMetadata) (limiter : rate.Limiter) (r : Result (String × String))
        → IsTopKey (readings attempt).now available key
        → lookup key.id limiters ≡ some limiter
        → (rate.allow (readings attempt).now limiter).0 ≡ false
        → Serves
            (suc attempt)
            (without key available)
            (insert key.id (rate.allow (readings attempt).now limiter).1 limiters)
            r
        → Serves attempt available limiters r
    out_of_keys :
        (attempt : ℕ) (available : List KeyMetadata) (limiters : List (String × rate.Limiter))
        → All (λ (k : KeyMetadata). is_available (readings attempt).now k ≡ false) available
        → Serves attempt available limiters (err all_keys_exhausted)

  abbrev pub HasLimiter : List (String × rate.Limiter) → KeyMetadata → Type 0
  HasLimiter limiters k = (l : rate.Limiter) × (lookup k.id limiters ≡ some l)

  HasLimiter-insert :
      (limiters : List (String × rate.Limiter)) (id : String) (l : rate.Limiter)
      (ks : List KeyMetadata)
      → All (HasLimiter limiters) ks
      → All (HasLimiter (insert id l limiters)) ks
  HasLimiter-insert limiters id l [] all = tt
  HasLimiter-insert limiters id l (k ∷ ks) all = (
    elim (Bool-cases (str_eq id k.id)) [
      | inl same ↦ (l, rw (lookup-insert k.id id l limiters, same) refl)
      | inr other ↦ (all.0.0, rw (lookup-insert k.id id l limiters, other) all.0.1)
    ],
    HasLimiter-insert limiters id l ks all.1,
  )

  module _ (lo : Lo) (floats : Floats) where
    next_pool : ℕ → List KeyMetadata → KeyMetadata → rate.Limiter → KeyPool rate → KeyPool rate
    next_pool attempt available key limiter pool = record pool {
      selector = (select_priority_tier lo floats (readings attempt) pool.selector available).1;
      limiters = insert key.id (rate.allow (readings attempt).now limiter).1 pool.limiters;
    }

    module _ (attempts attempt : ℕ) (available : List KeyMetadata) (pool : KeyPool rate) where
      step_fails :
          (select_priority_tier lo floats (readings attempt) pool.selector available).0
            ≡ err all_keys_exhausted
          → (get_key_loop lo floats rate readings attempt (suc attempts) available pool).0
            ≡ err all_keys_exhausted
      unfolding get_key_loop
      step_fails chosen = rw (chosen, get_key_loop) refl

      step_serves :
          (key : KeyMetadata) (limiter : rate.Limiter)
          → (select_priority_tier lo floats (readings attempt) pool.selector available).0 ≡ ok key
          → lookup key.id pool.limiters ≡ some limiter
          → (rate.allow (readings attempt).now limiter).0 ≡ true
          → (get_key_loop lo floats rate readings attempt (suc attempts) available pool).0
            ≡ ok (key.id, key.api_key)
      unfolding get_key_loop
      step_serves key limiter chosen found allows = rw (chosen, get_key_loop, found, allows) refl

      step_refuses :
          (key : KeyMetadata) (limiter : rate.Limiter)
          → (select_priority_tier lo floats (readings attempt) pool.selector available).0 ≡ ok key
          → lookup key.id pool.limiters ≡ some limiter
          → (rate.allow (readings attempt).now limiter).0 ≡ false
          → get_key_loop lo floats rate readings attempt (suc attempts) available pool
            ≡ get_key_loop lo floats rate readings
                (suc attempt)
                attempts
                (without key available)
                (next_pool attempt available key limiter pool)
      unfolding get_key_loop next_pool
      step_refuses key limiter chosen found refuses =
          rw (chosen, get_key_loop, found, refuses)
            (ap
              (λ ks.
                get_key_loop lo floats rate readings (suc attempt) attempts ks
                  (next_pool attempt available key limiter pool))
              (lo.filter_lem (λ (k : KeyMetadata). not (str_eq k.id key.id)) available))

    get_key_loop-Serves :
        (attempts attempt : ℕ) (available : List KeyMetadata) (pool : KeyPool rate)
        → length available ≡ attempts
        → attempts < 2 ^ 63
        → Distinct available
        → All (HasLimiter pool.limiters) available
        → Serves attempt available pool.limiters
            (get_key_loop lo floats rate readings attempt attempts available pool).0
    unfolding get_key_loop next_pool
    get_key_loop-Serves zero attempt [] pool e fits distinct limited =
        out_of_keys attempt [] pool.limiters tt
    get_key_loop-Serves zero attempt (k ∷ ks) pool e fits distinct limited =
        absurd (omega (arith, e))
    get_key_loop-Serves (suc attempts) attempt available pool e fits distinct limited =
        elim (select_priority_tier-PicksTop lo floats (readings attempt) pool.selector available
          (omega (arith, e, fits))) [
            | nothing_configured nil result ↦ absurd (omega (arith, e, ap length nil))
            | nothing_available some_one down result ↦
                subst (Serves attempt available pool.limiters)
                  (sym (step_fails attempts attempt available pool result))
                  (out_of_keys attempt available pool.limiters down)
            | picked_top key (i, here) up tops result ↦
                let (limiter, found) =
                  All-get_elem? (HasLimiter pool.limiters) available i limited here in
                let best : IsTopKey (readings attempt).now available key = record {
                  member = (i, here);
                  up = up;
                  tops = tops;
                } in
                elim (Bool-cases (rate.allow (readings attempt).now limiter).0) [
                  | inl allows ↦
                      subst (Serves attempt available pool.limiters)
                        (sym (
                          step_serves attempts attempt available pool key limiter result found
                            allows))
                        (handed_out attempt available pool.limiters key limiter best found allows)
                  | inr refuses ↦
                      subst (Serves attempt available pool.limiters)
                        (sym (
                          ap (λ x. x.0)
                            (step_refuses attempts attempt available pool key limiter result found
                              refuses)))
                        (refused attempt available pool.limiters key limiter _ best found refuses (
                          get_key_loop-Serves attempts (suc attempt) (without key available)
                            (next_pool attempt available key limiter pool)
                            (omega (arith, length-without key available i distinct here, e))
                            (omega (arith, fits)) (Distinct-without key available distinct)
                            (HasLimiter-insert pool.limiters key.id _ (without key available)
                              (All-without (HasLimiter pool.limiters) key available limited))))
                ]
          ]

    -- `GetKey` on fewer than 2^63 keys with distinct IDs, each with a limiter, goes through the
    -- attempts of `Serves`: every attempt takes an available key that no available key beats in
    -- priority, hands it out if its limiter allows it and leaves it out for the rest of the call
    -- if not; and the error that all keys are exhausted comes only when every key was refused or
    -- is not available.
    pub get_key-Serves :
        (pool : KeyPool rate)
        → length pool.keys < 2 ^ 63
        → Distinct pool.keys
        → All (HasLimiter pool.limiters) pool.keys
        → Serves 0 pool.keys pool.limiters (get_key lo floats rate readings pool).0
    unfolding get_key
    get_key-Serves pool fits distinct limited =
        get_key_loop-Serves (length pool.keys) 0 pool.keys pool refl fits distinct limited
