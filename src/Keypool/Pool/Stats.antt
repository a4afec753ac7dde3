-- ===== src/Keypool/Pool/Stats.antt =====
-- `GetStats` counts every key once.
use cc_relay.Base.{
  subst, ℕ, ◌+◌, ◌^◌, ◌<◌, ◌≡◌, refl, ap, sym, ◌∙◌, not, List, [], ◌∷◌, foldl, arith, pos, ◌+ℤ◌,
  +ℤ_pos, Lo, length, keep, Bool-cases, inl, inr,
}
use cc_relay.Keypool.Key.{KeyMetadata, is_available}
use cc_relay.Keypool.Pool.{RateLimiter, KeyPool, PoolStats, add_key, get_stats}

-- The keys that are available, and the others.
abbrev pub available_at : ℕ → List KeyMetadata → List KeyMetadata
available_at now = keep (is_available now)

abbrev pub unavailable_at : ℕ → List KeyMetadata → List KeyMetadata
unavailable_at now = keep (λ (k : KeyMetadata). not (is_available now k))

split_length :
    (now : ℕ) (keys : List KeyMetadata)
    → length (available_at now keys) + length (unavailable_at now keys) ≡ length keys
split_length now [] = omega arith
split_length now (k ∷ keys) = elim (Bool-cases (is_available now k)) [
  | inl up ↦ rw up (omega (arith, split_length now keys))
  | inr down ↦ rw down (omega (arith, split_length now keys))
]

-- What a fold adds to the statistics.
pub record Counts (now : ℕ) (keys : List KeyMetadata) (before after : PoolStats) (a x : ℕ)
    : Type 0 where
  pub total : after.total_keys ≡ before.total_keys
  pub available : after.available_keys ≡ pos (a + length (available_at now keys))
  pub exhausted : after.exhausted_keys ≡ pos (x + length (unavailable_at now keys))
  pub rpm : after.total_rpm ≡ foldl (λ s (k : KeyMetadata). s +ℤ k.rpm_limit) before.total_rpm keys
  pub remaining :
      after.remaining_rpm
      ≡ foldl (λ s (k : KeyMetadata). s +ℤ k.rpm_remaining) before.remaining_rpm keys

fold-Counts :
    (now : ℕ) (keys : List KeyMetadata) (before : PoolStats) (a x : ℕ)
    → before.available_keys ≡ pos a
    → before.exhausted_keys ≡ pos x
    → a + x + length keys < 2 ^ 63
    → Counts now keys before (foldl (add_key now) before keys) a x
unfolding add_key
fold-Counts now [] before a x ea ex fits = record {
  total = refl;
  available = ea ∙ ap pos (omega arith);
  exhausted = ex ∙ ap pos (omega arith);
  rpm = refl;
  remaining = refl;
}
fold-Counts now (k ∷ keys) before a x ea ex fits = elim (Bool-cases (is_available now k)) [
  | inl up ↦
      let later =
        fold-Counts now keys (add_key now before k) (a + 1) x
          (rw (up, ea) (+ℤ_pos a 1 (omega arith))) (rw (up, ex) refl) (omega arith) in
      record {
        total = later.total;
        available = later.available ∙ ap pos (rw up (omega arith));
        exhausted = later.exhausted ∙ ap pos (rw up refl);
        rpm = later.rpm;
        remaining = later.remaining;
      }
  | inr down ↦
      let later =
        fold-Counts now keys (add_key now before k) a (x + 1) (rw (down, ea) refl)
          (rw (down, ex) (+ℤ_pos x 1 (omega arith))) (omega arith) in
      record {
        total = later.total;
        available = later.available ∙ ap pos (rw down refl);
        exhausted = later.exhausted ∙ ap pos (rw down (omega arith));
        rpm = later.rpm;
        remaining = later.remaining;
      }
]

-- What the statistics say of the keys at an instant.
pub record AreStatsOf (now : ℕ) (keys : List KeyMetadata) (stats : PoolStats) : Type 0 where
  pub available : stats.available_keys ≡ pos (length (available_at now keys))
  pub exhausted : stats.exhausted_keys ≡ pos (length (unavailable_at now keys))
  pub total :
      stats.total_keys ≡ pos (length (available_at now keys) + length (unavailable_at now keys))
  pub rpm : stats.total_rpm ≡ foldl (λ s (k : KeyMetadata). s +ℤ k.rpm_limit) (pos 0) keys
  pub remaining :
      stats.remaining_rpm ≡ foldl (λ s (k : KeyMetadata). s +ℤ k.rpm_remaining) (pos 0) keys

-- For fewer than 2^63 keys, `GetStats` counts the available keys and the exhausted keys exactly,
-- its total is the sum of the two, and its limits and remainders are the `int` sums over all
-- keys.
pub get_stats-AreStatsOf :
    (lo : Lo) (rate : RateLimiter) (now : ℕ) (pool : KeyPool rate)
    → length pool.keys < 2 ^ 63
    → AreStatsOf now pool.keys (get_stats lo rate now pool)
unfolding get_stats
get_stats-AreStatsOf lo rate now pool fits =
    subst (AreStatsOf now pool.keys) (sym (lo.reduce_lem (add_key now) start pool.keys)) (record {
      available = counts.available ∙ ap pos (omega arith);
      exhausted = counts.exhausted ∙ ap pos (omega arith);
      total = counts.total ∙ ap pos (sym (split_length now pool.keys));
      rpm = counts.rpm;
      remaining = counts.remaining;
    })
  where
    start : PoolStats
    start = record {
      total_keys = pos (length pool.keys);
      available_keys = pos 0;
      exhausted_keys = pos 0;
      total_rpm = pos 0;
      remaining_rpm = pos 0;
    }

    counts : Counts now pool.keys start (foldl (add_key now) start pool.keys) 0 0
    counts = fold-Counts now pool.keys start 0 0 refl refl (omega (arith, fits))
