-- ===== src/Keypool/Pool/Marks.antt =====
-- What the marks of the pool do to a key and to the others.
use cc_relay.Base.{
  ℕ, ◌+◌, ◌≤◌, ◌≡◌, ℤ, pos_part, neg_part, arith, ◌≢◌, refl, ap, ◌∙◌, false, Option, some, String,
  Err, lookup, set, get_elem?, get_elem?-set, get_elem?-set_other, ltb,
}
use cc_relay.Keypool.Key.{
  KeyMetadata, is_available, add_duration, set_cooldown, mark_unhealthy, mark_healthy,
}
use cc_relay.Keypool.Pool.{
  RateLimiter, KeyPool, change_key, mark_key_exhausted, mark_key_unhealthy, mark_key_healthy,
}

-- The key with an ID, at an index of the pool.
abbrev pub KeyAt : {rate : RateLimiter} → KeyPool rate → String → ℕ → KeyMetadata → Type 0
KeyAt pool id i key = (lookup id pool.key_map ≡ some i) × (get_elem? pool.keys i ≡ some key)

module _ (rate : RateLimiter) where
  -- Adding a duration is exact when the sum is no instant before the zero time.
  rested :
      (now later : ℕ) (d : ℤ)
      → neg_part d ≤ now
      → ltb (add_duration now d) later ≡ ltb (now + pos_part d) (later + neg_part d)
  unfolding add_duration
  rested now later d fits = ground arith

  change_key-eq :
      (id : String) (change : KeyMetadata → KeyMetadata) (pool : KeyPool rate) (i : ℕ)
      (key : KeyMetadata)
      → KeyAt pool id i key
      → change_key rate id change pool ≡ record pool { keys = set pool.keys i (change key) }
  unfolding change_key
  change_key-eq id change pool i key (found, here) = rw (found, change_key, here) refl

  -- A change gives the changed key, and leaves the others.
  change_key-KeyAt :
      (id : String) (change : KeyMetadata → KeyMetadata) (pool : KeyPool rate) (i : ℕ)
      (key : KeyMetadata)
      → KeyAt pool id i key
      → KeyAt (change_key rate id change pool) id i (change key)
        × ((j : ℕ)
            → i ≢ j
            → get_elem? (change_key rate id change pool).keys j ≡ get_elem? pool.keys j)
  change_key-KeyAt id change pool i key at_i =
      let e = change_key-eq id change pool i key at_i in
      (
        (
          ap (λ (p : KeyPool rate). lookup id p.key_map) e ∙ at_i.0,
          ap (λ (p : KeyPool rate). get_elem? p.keys i) e
              ∙ get_elem?-set pool.keys i (change key) at_i.1,
        ),
        λ j apart.
            ap (λ (p : KeyPool rate). get_elem? p.keys j) e
            ∙ get_elem?-set_other pool.keys i j (change key) apart,
      )

  -- When an ID belongs to the key at an index of the pool, and the cooldown, which can be
  -- negative, does not end before the zero time, marking the key unhealthy and then exhausted
  -- makes it unavailable, and marking it healthy after that makes it available exactly at the
  -- instants later than the end of the cooldown; the key at any other index stays as it was.
  pub mark_key_healthy-cooldown :
      (pool : KeyPool rate) (id : String) (i j : ℕ) (key : KeyMetadata) (now later : ℕ)
      (retry_after : ℤ) (e : Option Err)
      → KeyAt pool id i key
      → i ≢ j
      → neg_part retry_after ≤ now
      → (marked : KeyPool rate) × (unhealthy : KeyMetadata) × (healthy_again : KeyMetadata)
        × (mark_key_exhausted rate now id retry_after (mark_key_unhealthy rate now id e pool)
            ≡ marked)
        × KeyAt marked id i unhealthy
        × (is_available later unhealthy ≡ false)
        × KeyAt (mark_key_healthy rate id marked) id i healthy_again
        × (is_available later healthy_again
            ≡ ltb (now + pos_part retry_after) (later + neg_part retry_after))
        × (get_elem? (mark_key_healthy rate id marked).keys j ≡ get_elem? pool.keys j)
  unfolding mark_key_exhausted mark_key_unhealthy mark_key_healthy is_available set_cooldown
      mark_unhealthy mark_healthy add_duration
  mark_key_healthy-cooldown pool id i j key now later retry_after e at_i apart fits =
      let (at_1, same_1) = change_key-KeyAt id (mark_unhealthy now e) pool i key at_i in
      let (at_2, same_2) =
        change_key-KeyAt id (set_cooldown (add_duration now retry_after)) _ i _ at_1 in
      let (at_3, same_3) = change_key-KeyAt id mark_healthy _ i _ at_2 in
      (
        _,
        _,
        _,
        refl,
        at_2,
        refl,
        at_3,
        rested now later retry_after fits,
        same_3 j apart ∙ same_2 j apart ∙ same_1 j apart,
      )
