-- ===== src/Router/WeightedRoundRobin/Fair.antt =====
-- Over as many calls as the total weight, every provider is chosen as often as its weight says.
use text.Mathlib.TextPositions.{eq_refl}
use cc_relay.Base.{
  sum, foldl-sum, ℕ, zero, suc, ◌+◌, ◌*◌, ◌^◌, ◌≤◌, ◌<◌, ◌≡◌, refl, ap, ap₂, ◌∙◌, true, false, List,
  [], ◌∷◌, map, arith, ok, at, ℤ, pos, pos_part, neg_part, parts_zero, eq_of_parts, length,
  length-map, replicate, keep, is_empty, String, Lo,
}
use cc_relay.Router.Info.{ProviderInfo, healthy, with_healthy-passes}
use cc_relay.Router.Weights.{
  get_effective_weight, get_effective_weight-eq, weight_of, weight_of-pos, weights, total_weight,
}
use cc_relay.Router.WeightedRoundRobin.{
  WeightedRoundRobinRouter, get_provider_ids, string_slice_equal, sync_weights, smooth_step,
  select_locked, select_weighted_round_robin, select_times,
}
use cc_relay.Router.WeightedRoundRobin.Track.{Track, bump, add_weights-Track, pick_max-Track}

string_slice_equal_refl : (ids : List String) → string_slice_equal ids ids ≡ true
unfolding string_slice_equal
string_slice_equal_refl [] = refl
string_slice_equal_refl (x ∷ ids) = rw (eq_refl x, string_slice_equal_refl ids)

-- Once set up for a list, the state is kept on the next call with that list.
sync_weights-again :
    (r : WeightedRoundRobinRouter) (hs : List ProviderInfo) (cs : List ℤ)
    → (sync_weights (record (sync_weights r hs) { current_weights = cs }) hs).current_weights ≡ cs
unfolding sync_weights
sync_weights-again r hs cs = ground (arith, string_slice_equal_refl (get_provider_ids hs))

-- The total that `Select` computes.
sum_by-total :
    (lo : Lo) (hs : List ProviderInfo)
    → total_weight hs < 2 ^ 63
    → lo.sum_by get_effective_weight hs ≡ pos (total_weight hs)
sum_by-total lo hs fits =
    lo.sum_by_lem get_effective_weight hs
    ∙ foldl-sum get_effective_weight weight_of get_effective_weight-eq hs 0 (omega arith)
    ∙ ap pos (omega arith)

smooth_step-Track :
    (k : ℕ) (hs : List ProviderInfo) (cs : List ℤ) (ts : List ℕ)
    → sum ts ≡ k
    → 0 < total_weight hs
    → suc k * total_weight hs < 2 ^ 63
    → Track k (total_weight hs) (weights hs) cs ts
    → (m : ℕ) × (cs' : List ℤ) × (smooth_step (pos (total_weight hs)) hs cs ≡ ok (m, cs'))
      × Track (suc k) (total_weight hs) (weights hs) cs' (bump m ts)
      × (m < length hs)
      × (sum (bump m ts) ≡ suc k)
unfolding smooth_step
smooth_step-Track k hs cs ts et up small track =
    let (raised, e, track') =
      add_weights-Track k (total_weight hs) hs cs ts small (grind arith) track in
    let (m, cs', e', books, inside, grows) =
      pick_max-Track k (total_weight hs) (weights hs) raised ts refl et up small track' in
    (m, cs', rw (e, smooth_step) e', books, omega (arith, inside, length-map hs weight_of), grows)

-- One call, for healthy providers whose step is known.
select-step :
    (lo : Lo) (ps hs : List ProviderInfo) (r : WeightedRoundRobinRouter) (m : ℕ) (cs : List ℤ)
    → keep healthy ps ≡ hs
    → is_empty hs ≡ false
    → total_weight hs < 2 ^ 63
    → smooth_step (pos (total_weight hs)) hs (sync_weights r hs).current_weights ≡ ok (m, cs)
    → select_weighted_round_robin lo r ps
      ≡ (at hs m, record (sync_weights r hs) { current_weights = cs })
unfolding select_weighted_round_robin select_locked
select-step lo ps hs r m cs e up fits step =
    with_healthy-passes lo r ps hs (select_locked lo r) e up
    ∙ rw (sum_by-total lo hs fits, select_locked, step) refl

shorter_fits : (k n W : ℕ) → k ≤ n → n * W < 2 ^ 63 → k * W < 2 ^ 63
shorter_fits k n W le fits = grind arith

-- How often each index occurs in a list of picks, on top of the counts `ts`.
abbrev pub tally : List ℕ → List ℕ → List ℕ
tally [] ts = ts
tally (m ∷ ms) ts = tally ms (bump m ts)

module _ (lo : Lo) (ps hs : List ProviderInfo) (e : keep healthy ps ≡ hs) (up : is_empty hs ≡ false)
    (pos_total : 0 < total_weight hs) where
  -- After `j` more calls the books are those of `n` calls.
  rounds :
      (j k n : ℕ) (r : WeightedRoundRobinRouter) (ts : List ℕ)
      → k + j ≡ n
      → n * total_weight hs < 2 ^ 63
      → sum ts ≡ k
      → Track k (total_weight hs) (weights hs) (sync_weights r hs).current_weights ts
      → (ms : List ℕ) × (r' : WeightedRoundRobinRouter) × (select_times lo j r ps
          ≡ (map (at hs) ms, r'))
        × Track n (total_weight hs) (weights hs) (sync_weights r' hs).current_weights (tally ms ts)
        × (sum (tally ms ts) ≡ n)
  unfolding select_times
  rounds zero k n r ts here small et track =
      let same : k ≡ n = omega (arith, here) in ([], r, refl, rw same at track, et ∙ same)
  rounds (suc j) k n r ts here small et track =
      let (m, cs, step, books, inside, grows) =
        smooth_step-Track k hs _ ts et pos_total
          (shorter_fits (suc k) n _ (omega (arith, here)) small) track in
      let r1 = record (sync_weights r hs) { current_weights = cs } in
      let (ms, r', times, books', total) =
        rounds j (suc k) n r1 (bump m ts) (omega (arith, here)) small grows
          (rw (sync_weights-again r hs cs) books) in
      (
        m ∷ ms,
        r',
        rw
            (
              select-step lo ps hs r m cs e up
                  (omega (arith, shorter_fits 1 n (total_weight hs) (omega (arith, here)) small))
                  step,
              times,
            )
            refl,
        books',
        total,
      )

picks-le-weight : (W w p n t : ℕ) → p + W * t ≡ W * w + n → n < W → t ≤ w
picks-le-weight W w p n t books low = grind arith

zero_of_parts : (W w : ℕ) (c : ℤ) → pos_part c + W * w ≡ W * w + neg_part c → c ≡ pos 0
zero_of_parts W w c books = eq_of_parts c (pos 0) (omega (arith, parts_zero c))

-- Books that are even: as many rounds as the total weight, and as many picks.
Track-even :
    (W : ℕ) (ws : List ℕ) (cs : List ℤ) (ts : List ℕ)
    → 0 < W
    → Track W W ws cs ts
    → (sum ts ≤ sum ws) × (sum ts ≡ sum ws → (ts ≡ ws) × (cs ≡ replicate (length ws) (pos 0)))
unfolding sum
Track-even W [] [] [] up track = (omega arith, λ _. (refl, refl))
Track-even W (w ∷ ws) (c ∷ cs) (t ∷ ts) up track =
    let rest = Track-even W ws cs ts up track.2 in
    let le = picks-le-weight W w (pos_part c) (neg_part c) t track.0 track.1 in
    (
      omega (arith, le, rest.0),
      λ full.
          let same : t ≡ w = omega (arith, le, rest.0, full) in
          let later = rest.1 (omega (arith, le, rest.0, full)) in
          (ap₂ ◌∷◌ same later.0, ap₂ ◌∷◌ (zero_of_parts W w c (rw same at track.0)) later.1),
    )
Track-even W [] [] (t ∷ ts) up track = absurd track
Track-even W [] (c ∷ cs) ts up track = absurd track
Track-even W (w ∷ ws) [] ts up track = absurd track
Track-even W (w ∷ ws) (c ∷ cs) [] up track = absurd track

-- The books of a state at rest.
Track-rest :
    (W : ℕ) (ws : List ℕ)
    → 0 < W
    → Track 0 W ws (replicate (length ws) (pos 0)) (replicate (length ws) 0)
Track-rest W [] up = tt
Track-rest W (w ∷ ws) up = (omega arith, omega arith, Track-rest W ws up)

sum-replicate-zero : (n : ℕ) → sum (replicate n 0) ≡ 0
unfolding sum
sum-replicate-zero zero = refl
sum-replicate-zero (suc n) = omega (arith, sum-replicate-zero n)

total_weight-pos : (hs : List ProviderInfo) → is_empty hs ≡ false → 0 < total_weight hs
unfolding sum
total_weight-pos [] up = absurd (cc)
total_weight-pos (h ∷ hs) up = omega (arith, weight_of-pos h)

-- A state that starts the list at hand anew, or stands at zero for it.
abbrev pub IsAtRest : WeightedRoundRobinRouter → List ProviderInfo → Type 0
IsAtRest r hs = (sync_weights r hs).current_weights ≡ replicate (length hs) (pos 0)

-- When the total weight of the healthy providers is small (its square is below 2^63) and the
-- router is at rest for them, that many calls of `Select` on one list return providers by index,
-- the index of each healthy provider exactly as often as its effective weight, and leave the
-- router at rest.
pub select_times-fair :
    (lo : Lo) (ps hs : List ProviderInfo) (r : WeightedRoundRobinRouter)
    → keep healthy ps ≡ hs
    → is_empty hs ≡ false
    → total_weight hs * total_weight hs < 2 ^ 63
    → IsAtRest r hs
    → (picks : List ℕ) × (r' : WeightedRoundRobinRouter) × (select_times lo (total_weight hs) r ps
        ≡ (map (at hs) picks, r'))
      × (tally picks (replicate (length hs) 0) ≡ weights hs)
      × IsAtRest r' hs
select_times-fair lo ps hs r e up fits rest =
    let W = total_weight hs in
    let pos_W = total_weight-pos hs up in
    let size = length-map hs weight_of in
    let start = rw size at (Track-rest W (weights hs) pos_W) in
    let (ms, r', times, books, total) =
      rounds lo ps hs e up pos_W W 0 W r (replicate (length hs) 0) (omega arith) fits
        (sum-replicate-zero (length hs)) (rw rest start) in
    let even = (Track-even W (weights hs) _ _ pos_W books).1 total in
    (ms, r', times, even.0, even.1 ∙ ap (λ n. replicate n (pos 0)) size)
