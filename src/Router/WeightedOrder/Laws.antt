-- ===== src/Router/WeightedOrder/Laws.antt =====
-- The random choices by weight: the order is a reordering, a roll picks the provider whose share of
-- the total holds it, and the selection stays in the highest tier.
use mathlib.Core.List.Permᴰ
use cc_relay.Base.{
  ℕ, zero, suc, ◌+◌, ◌^◌, ◌≤◌, ◌<◌, ◌≡◌, refl, ap, ◌∙◌, inl, inr, false, some, List, [], ◌∷◌, ◌++◌,
  arith, ok, pos, leb_ℤ, is_empty, length, length-pos, get_elem?-lt, Draw, rand_intn, rand_intn-lt,
  effective_weight, weighted_walk, weighted_walk-At, weighted_walk-interval, sum, foldl-sum, Permᴰ,
  Bool-cases,
}
use cc_relay.Router.Info.{ProviderInfo}
use cc_relay.Router.Weights.{weight_of, weight_of-pos, effective_weight-eq, total_weight}
use cc_relay.Router.WeightedOrder.{
  sum_weights, weighted_index, take_out, weighted_order_loop, weighted_order,
  weighted_random_select,
}

-- The index stays in range, whatever the weights and the draw.
weighted_index-lt :
    (d : Draw) (ps : List ProviderInfo) → is_empty ps ≡ false → weighted_index d ps < length ps
unfolding weighted_index
weighted_index-lt d ps up = elim (Bool-cases (leb_ℤ (sum_weights ps) (pos 0))) [
  | inl low ↦ rw low (length-pos ps up)
  | inr high ↦
      rw high
        (elim (weighted_walk-At (λ (p : ProviderInfo). effective_weight p.weight) 0
          (pos (rand_intn d (sum_weights ps))) ps) [
            | inl out ↦ rw out (omega (arith, length-pos ps up))
            | inr (j, p, e, found) ↦ rw e (omega (arith, get_elem?-lt ps j found))
          ])
]

take_out-perm :
    {A : Type 0} (i : ℕ) (xs : List A)
    → i < length xs
    → (x : A) × (ys : List A) × (take_out i xs ≡ some (x, ys))
      × Permᴰ (x ∷ ys) xs
      × (length xs ≡ suc (length ys))
unfolding take_out
take_out-perm i [] h = absurd (omega arith)
take_out-perm zero (x ∷ xs) h = (x, xs, refl, Permᴰ.refl (x ∷ xs), refl)
take_out-perm (suc i) (x ∷ xs) h =
    let (y, ys, e, p, n) = take_out-perm i xs (omega arith) in
    (y, x ∷ ys, rw e refl, Permᴰ.trans (Permᴰ.swap refl refl) (Permᴰ.cons refl p), omega (arith, n))

weighted_order_loop-perm :
    (draws : ℕ → Draw) (k n : ℕ) (ps : List ProviderInfo)
    → length ps ≡ n
    → (order : List ProviderInfo) × (weighted_order_loop draws k n ps ≡ ok order) × Permᴰ order ps
unfolding weighted_order_loop
weighted_order_loop-perm draws k zero [] e = ([], refl, Permᴰ.nil)
weighted_order_loop-perm draws k zero (p ∷ ps) e = absurd (omega (arith, e))
weighted_order_loop-perm draws k (suc n) [] e = absurd (omega (arith, e))
weighted_order_loop-perm draws k (suc n) (p ∷ ps) e =
    let (x, rest, taken, perm, size) =
      take_out-perm (weighted_index (draws k) (p ∷ ps)) (p ∷ ps)
        (weighted_index-lt (draws k) (p ∷ ps) refl) in
    let (order, later, perm') =
      weighted_order_loop-perm draws (suc k) n rest (omega (arith, size, e)) in
    (
      x ∷ order,
      rw (taken, weighted_order_loop, later) refl,
      Permᴰ.trans (Permᴰ.cons refl perm') perm,
    )

leb_ℤ-pos-false : (n : ℕ) → 0 < n → leb_ℤ (pos n) (pos 0) ≡ false
leb_ℤ-pos-false n up = ground arith

sum_weights-eq :
    (ps : List ProviderInfo) → total_weight ps < 2 ^ 63 → sum_weights ps ≡ pos (total_weight ps)
unfolding sum_weights
sum_weights-eq ps fits =
    foldl-sum (λ (p : ProviderInfo). effective_weight p.weight) weight_of effective_weight-eq ps 0
      (omega arith)
    ∙ ap pos (omega arith)

total_weight-pos : (ps : List ProviderInfo) → is_empty ps ≡ false → 0 < total_weight ps
unfolding sum
total_weight-pos [] up = absurd (cc)
total_weight-pos (p ∷ ps) up = omega (arith, weight_of-pos p)

-- `p` owns the roll `r`: it lies above the weights before `p`, and below those with its own.
pub record Owns (r : ℕ) (p : ProviderInfo) (before ps : List ProviderInfo) : Type 0 where
  pub after : List ProviderInfo
  pub split : ps ≡ before ++ (p ∷ after)
  pub low : total_weight before ≤ r
  pub high : r < total_weight before + weight_of p

-- What the walk of a roll below the total finds.
roll-Owns :
    (d : Draw) (ps : List ProviderInfo)
    → is_empty ps ≡ false
    → total_weight ps < 2 ^ 63
    → (before : List ProviderInfo) × (p : ProviderInfo) × (weighted_walk
          (λ (x : ProviderInfo). effective_weight x.weight)
          0
          (pos (rand_intn d (pos (total_weight ps))))
          ps
        ≡ some (length before, p))
      × Owns (rand_intn d (pos (total_weight ps))) p before ps
roll-Owns d ps up fits =
    let r = rand_intn d (pos (total_weight ps)) in
    let (before, p, after, split, found, low, high) =
      weighted_walk-interval (λ (x : ProviderInfo). effective_weight x.weight) weight_of
        effective_weight-eq 0 r ps fits
        (rand_intn-lt d (total_weight ps) (total_weight-pos ps up)) in
    (
      before,
      p,
      found ∙ ap (λ n. some (n, p)) (omega arith),
      record { after = after; split = split; low = low; high = high },
    )

-- On providers that are not none and whose effective weights sum below 2^63, `weightedIndex`
-- returns the index of the provider in whose interval of the weights the random roll falls.
pub weighted_index-Owns :
    (d : Draw) (ps : List ProviderInfo)
    → is_empty ps ≡ false
    → total_weight ps < 2 ^ 63
    → (before : List ProviderInfo) × (p : ProviderInfo) × (weighted_index d ps ≡ length before)
      × Owns (rand_intn d (pos (total_weight ps))) p before ps
unfolding weighted_index
weighted_index-Owns d ps up fits =
    let (before, p, found, owns) = roll-Owns d ps up fits in
    let high = leb_ℤ-pos-false (total_weight ps) (total_weight-pos ps up) in
    (before, p, rw (sum_weights-eq ps fits, high, found) refl, owns)

-- For all draws, `weightedOrder` returns a reordering of its providers: it neither panics nor
-- loses or repeats one.
pub weighted_order-perm :
    (draws : ℕ → Draw) (ps : List ProviderInfo)
    → (order : List ProviderInfo) × (weighted_order draws ps ≡ ok order) × Permᴰ order ps
unfolding weighted_order
weighted_order-perm draws ps = weighted_order_loop-perm draws 0 (length ps) ps refl

pub weighted_random_select-Owns :
    (d : Draw) (ps : List ProviderInfo)
    → is_empty ps ≡ false
    → total_weight ps < 2 ^ 63
    → (before : List ProviderInfo) × (p : ProviderInfo) × (weighted_random_select d ps ≡ ok p)
      × Owns (rand_intn d (pos (total_weight ps))) p before ps
unfolding weighted_random_select
weighted_random_select-Owns d [] up fits = absurd (cc)
weighted_random_select-Owns d (p ∷ []) up fits =
    let lt = rand_intn-lt d (total_weight (p ∷ [])) (total_weight-pos (p ∷ []) refl) in
    (
      [],
      p,
      refl,
      record {
        after = [];
        split = refl;
        low = unfold sum in omega arith;
        high = unfold sum in omega (arith, lt);
      },
    )
weighted_random_select-Owns d (p ∷ q ∷ qs) up fits =
    let ps = p ∷ q ∷ qs in
    let (before, x, found, owns) = roll-Owns d ps up fits in
    let high = leb_ℤ-pos-false (total_weight ps) (total_weight-pos ps refl) in
    (before, x, rw (sum_weights-eq ps fits, high, found) refl, owns)
