-- ===== src/Keypool/Selector/Available.antt =====
-- The contract of the key selectors: an available key, or the error that says that there is none.
use cc_relay.Base.{
  ℕ, zero, suc, ◌+◌, ◌-◌, ◌%◌, ◌^◌, ◌<◌, ◌≤◌, ◌≡◌, refl, ap, ◌∙◌, Bool, true, false, some, List, [],
  ◌∷◌, all_keys_exhausted, Result, ok, err, at, at-eq-ok, pos, ◌+ℤ◌, leb_ℤ, Lo, is_empty, length,
  length-pos, foldl, ltb, Draw, rand_intn, rand_intn-lt, effective_weight, weighted_walk-At,
  if◌then◌else◌, arith, All, At, All-At, All-keep, keep, keep-eq-nil, All-get_elem?, get_elem?,
  get_elem?_total, ltb→lt, ltb→ge, Bool-cases, inl, inr, ◌⊎◌,
}
use cc_relay.Keypool.Key.{KeyMetadata, Floats, is_available, get_capacity_score}
use cc_relay.Keypool.Selector.{
  KeySelector, least_loaded, random, weighted, round_robin, Reading, next_available,
  select_round_robin_key, best_capacity, random_key, weighted_key, of_available, select_key,
}

-- What a selector owes its caller on keys that are not empty.
pub data Picks (now : ℕ) (keys : List KeyMetadata) (r : Result KeyMetadata) : Type 0 where
  exhausted :
      All (λ (k : KeyMetadata). is_available now k ≡ false) keys
      → r ≡ err all_keys_exhausted
      → Picks now keys r
  picked :
      (key : KeyMetadata)
      → At key keys
      → is_available now key ≡ true
      → r ≡ ok key
      → Picks now keys r

-- A choice among keys: on some keys, it gives one of them.
abbrev Chooses : (List KeyMetadata → Result KeyMetadata) → Type 1
Chooses choose =
    (P : KeyMetadata → Type 0) (ks : List KeyMetadata)
    → is_empty ks ≡ false
    → All P ks
    → (k : KeyMetadata) × (choose ks ≡ ok k) × P k

of_available-Picks :
    (lo : Lo) (now : ℕ) (keys : List KeyMetadata) (choose : List KeyMetadata → Result KeyMetadata)
    → Chooses choose
    → Picks now keys (of_available lo now keys choose)
unfolding of_available
of_available-Picks lo now keys choose chooses =
    rw (lo.filter_lem (is_available now) keys)
      (elim (Bool-cases (is_empty (keep (is_available now) keys))) [
        | inl none_up ↦
            exhausted (keep-eq-nil (is_available now) keys (nil_of_empty _ none_up))
              (rw none_up refl)
        | inr some_up ↦
            let (k, chosen, (member, up)) =
              chooses (λ k. At k keys × (is_available now k ≡ true)) (keep (is_available now) keys)
                some_up (All-keep (λ k. At k keys) (is_available now) keys (All-At keys)) in
            picked k member up (rw some_up chosen)
      ])
  where
    nil_of_empty : (xs : List KeyMetadata) → is_empty xs ≡ true → xs ≡ []
    nil_of_empty [] e = refl
    nil_of_empty (x ∷ xs) e = absurd (cc)

at-Chooses :
    (P : KeyMetadata → Type 0) (ks : List KeyMetadata) (i : ℕ)
    → i < length ks
    → All P ks
    → (k : KeyMetadata) × (at ks i ≡ ok k) × P k
at-Chooses P ks i h all =
    let (k, e) = get_elem?_total ks i h in (k, at-eq-ok ks i e, All-get_elem? P ks i all e)

best_capacity-Chooses :
    (lo : Lo) (floats : Floats) (now : ℕ) → Chooses (best_capacity lo floats now)
unfolding best_capacity
best_capacity-Chooses lo floats now P [] up all = absurd (cc)
best_capacity-Chooses lo floats now P (k ∷ ks) up all =
    let gt = λ (a b : KeyMetadata).
      floats.greater (get_capacity_score floats now a) (get_capacity_score floats now b) in
    (_, refl, rw (lo.max_by_lem gt k ks) (best gt k ks all.0 all.1))
  where
    best :
        (gt : KeyMetadata → KeyMetadata → Bool) (m : KeyMetadata) (xs : List KeyMetadata)
        → P m
        → All P xs
        → P (foldl (λ m y. if gt y m then y else m) m xs)
    best gt m [] here there = here
    best gt m (x ∷ xs) here there = elim (Bool-cases (gt x m)) [
      | inl wins ↦ rw wins (best gt x xs there.0 there.1)
      | inr loses ↦ rw loses (best gt m xs here there.1)
    ]

random_key-Chooses : (draw : Draw) → Chooses (random_key draw)
unfolding random_key
random_key-Chooses draw P ks up all =
    at-Chooses P ks _ (rand_intn-lt draw (length ks) (length-pos ks up)) all

weighted_key-Chooses : (draw : Draw) → Chooses (weighted_key draw)
unfolding weighted_key
weighted_key-Chooses draw P ks up all =
    let low : 0 < length ks = length-pos ks up in
    let total_weight = foldl (λ t (k : KeyMetadata). t +ℤ effective_weight k.weight) (pos 0) ks in
    let roll = pos (rand_intn draw total_weight) in
    let heavy = λ (k : KeyMetadata). effective_weight k.weight in
    elim (Bool-cases (leb_ℤ total_weight (pos 0))) [
      | inl flat ↦ let (k, e, holds) = at-Chooses P ks 0 low all in (k, rw flat e, holds)
      | inr steep ↦ elim (weighted_walk-At heavy 0 roll ks) [
        | inl through ↦
            let (k, e, holds) = at-Chooses P ks (length ks - 1) (omega (arith, low)) all in
            (k, rw (steep, through) e, holds)
        | inr (j, k, found, member) ↦ (k, rw (steep, found) refl, All-get_elem? P ks j all member)
      ]
    ]

-- The round robin's loop: the first available key of its `n` rounds, or none of them is.
abbrev Rounds : ℕ → List KeyMetadata → ℕ → ℕ → Type 0
Rounds now keys i n =
    ((key : KeyMetadata) × At key keys
      × (is_available now key ≡ true)
      × (next_available now keys i n ≡ ok key))
    ⊎ ((next_available now keys i n ≡ err all_keys_exhausted)
        × ((j : ℕ) (key : KeyMetadata)
            → j < n
            → get_elem? keys ((i + j) % length keys) ≡ some key
            → is_available now key ≡ false))

next_available-hit :
    (now : ℕ) (keys : List KeyMetadata) (i n : ℕ) (key : KeyMetadata)
    → get_elem? keys (i % length keys) ≡ some key
    → is_available now key ≡ true
    → next_available now keys i (suc n) ≡ ok key
unfolding next_available
next_available-hit now keys i n key here up = rw (here, next_available, up) refl

next_available-miss :
    (now : ℕ) (keys : List KeyMetadata) (i n : ℕ) (key : KeyMetadata)
    → get_elem? keys (i % length keys) ≡ some key
    → is_available now key ≡ false
    → next_available now keys i (suc n) ≡ next_available now keys (suc i) n
unfolding next_available
next_available-miss now keys i n key here down = rw (here, next_available, down) refl

next_available-Rounds :
    (now : ℕ) (keys : List KeyMetadata) (n i : ℕ) → 0 < length keys → Rounds now keys i n
unfolding next_available
next_available-Rounds now keys zero i some_one = inr (refl, λ j key h e. absurd (omega (arith, h)))
next_available-Rounds now keys (suc n) i some_one =
    let (key, here) = get_elem?_total keys (i % length keys) (omega arith) in
    elim (Bool-cases (is_available now key)) [
      | inl up ↦ inl (key, (i % length keys, here), up, next_available-hit now keys i n key here up)
      | inr down ↦
          let miss = next_available-miss now keys i n key here down in
          elim (next_available-Rounds now keys n (suc i) some_one) [
            | inl (k, member, up, e) ↦ inl (k, member, up, miss ∙ e)
            | inr (e, all) ↦ inr (miss ∙ e, rest key here down all)
          ]
    ]
  where
    rest :
        (key : KeyMetadata)
        → get_elem? keys (i % length keys) ≡ some key
        → is_available now key ≡ false
        → ((j : ℕ) (k : KeyMetadata)
            → j < n
            → get_elem? keys ((suc i + j) % length keys) ≡ some k
            → is_available now k ≡ false)
        → (j : ℕ) (k : KeyMetadata) → j < suc n
        → get_elem? keys ((i + j) % length keys) ≡ some k
        → is_available now k ≡ false
    rest key here down all zero k h e =
        let same : i + 0 ≡ i = omega arith in
        let e' : get_elem? keys (i % length keys) ≡ some k = rw same at e in
        ground (arith, here, down, e')
    rest key here down all (suc j) k h e =
        let same : i + suc j ≡ suc i + j = omega arith in all j k (omega (arith, h)) (rw same at e)

All-of-get_elem? :
    (P : KeyMetadata → Type 0) (xs : List KeyMetadata)
    → ((i : ℕ) (k : KeyMetadata) → i < length xs → get_elem? xs i ≡ some k → P k)
    → All P xs
All-of-get_elem? P [] holds = tt
All-of-get_elem? P (x ∷ xs) holds = (
  holds 0 x (omega arith) refl,
  All-of-get_elem? P xs (λ i k h e. holds (suc i) k (omega (arith, h)) e),
)

-- The rounds pass every index.
round_at : (start n m : ℕ) → start < n → m < n → (j : ℕ) × (j < n) × ((start + j) % n ≡ m)
round_at start n m hs hm = elim (Bool-cases (ltb m start)) [
  | inl before ↦
      let lt : m < start = ltb→lt m start before in
      let wraps : start + (n + m - start) ≡ n + m = omega arith in
      (n + m - start, omega (arith, lt), ap (λ x. x % n) wraps ∙ grind arith)
  | inr after ↦
      let le : start ≤ m = ltb→ge m start after in
      let meets : start + (m - start) ≡ m = omega arith in
      (m - start, omega arith, ap (λ x. x % n) meets ∙ grind arith)
]

select_round_robin_key-Picks :
    (now index : ℕ) (keys : List KeyMetadata)
    → is_empty keys ≡ false
    → length keys < 2 ^ 63
    → Picks now keys (select_round_robin_key now index keys).0
unfolding select_round_robin_key
select_round_robin_key-Picks now index keys up fits =
    let some_one = length-pos keys up in
    let next_index = ((index + 1) % 2 ^ 64 + 2 ^ 64 - 1) % 2 ^ 64 in
    let below : next_index % length keys < length keys = grind arith in
    let small : ltb (2 ^ 63 - 1) (next_index % length keys) ≡ false = ground (arith, below) in
    rw small
      (elim (next_available-Rounds now keys (length keys) (next_index % length keys) some_one) [
        | inl (key, member, available, e) ↦ picked key member available e
        | inr (e, all) ↦
            exhausted
              (All-of-get_elem? (λ k. is_available now k ≡ false) keys
                (λ m k h here.
                  let (j, lt, meets) =
                    round_at (next_index % length keys) (length keys) m below h in
                  all j k lt (ap (get_elem? keys) meets ∙ here)))
              e
      ])

-- Every selector keeps the contract.
pub select_key-Picks :
    (lo : Lo) (floats : Floats) (reading : Reading) (k : ℕ) (s : KeySelector)
    (keys : List KeyMetadata)
    → is_empty keys ≡ false
    → length keys < 2 ^ 63
    → Picks reading.now keys (select_key lo floats reading k s keys).0
unfolding select_key
select_key-Picks lo floats reading k s [] up fits = absurd (cc)
select_key-Picks lo floats reading k least_loaded (x ∷ xs) up fits =
    of_available-Picks lo reading.now (x ∷ xs) _ (best_capacity-Chooses lo floats reading.now)
select_key-Picks lo floats reading k random (x ∷ xs) up fits =
    of_available-Picks lo reading.now (x ∷ xs) _ (random_key-Chooses (reading.draw k))
select_key-Picks lo floats reading k weighted (x ∷ xs) up fits =
    of_available-Picks lo reading.now (x ∷ xs) _ (weighted_key-Chooses (reading.draw k))
select_key-Picks lo floats reading k (round_robin index) (x ∷ xs) up fits =
    select_round_robin_key-Picks reading.now index (x ∷ xs) up fits
