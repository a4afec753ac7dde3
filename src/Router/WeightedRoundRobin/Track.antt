-- ===== src/Router/WeightedRoundRobin/Track.antt =====
-- The books of smooth weighted round-robin: after `k` rounds at total weight `W`, a provider of
-- weight `w` that was picked `t` times has the current weight `k * w - W * t`, above `-W`.
use cc_relay.Base.{
  get_elem?-lt, sum, ℕ, zero, suc, ◌+◌, ◌*◌, ◌^◌, ◌<◌, ◌≡◌, refl, ◌⊎◌, inl, inr, Bool, true, false,
  some, List, [], ◌∷◌, arith, ok, ℤ, pos, pos_part, neg_part, ◌+ℤ◌, ◌-ℤ◌, ◌≤ℤ◌, +ℤ_parts, -ℤ_parts,
  parts_zero, All, get_elem?, set, ltb_ℤ, if◌then◌else◌, ◌≤◌, length, ap,
}
use cc_relay.Router.Info.{ProviderInfo}
use cc_relay.Router.Weights.{get_effective_weight, get_effective_weight-eq, weight_of, weights}
use cc_relay.Router.WeightedRoundRobin.{add_weights, scan_max, pick_max}

abbrev pub Track : ℕ → ℕ → List ℕ → List ℤ → List ℕ → Type 0
Track k W [] [] [] = Unit
Track k W (w ∷ ws) (c ∷ cs) (t ∷ ts) =
    (pos_part c + W * t ≡ k * w + neg_part c) × (neg_part c < W) × Track k W ws cs ts
Track k W _ _ _ = ⊥

abbrev pub bump : ℕ → List ℕ → List ℕ
bump m [] = []
bump zero (t ∷ ts) = suc t ∷ ts
bump (suc m) (t ∷ ts) = t ∷ bump m ts

-- Raising a weight that is small enough is exact.
raise-parts :
    (k W w : ℕ) (c : ℤ) (t : ℕ)
    → suc k * w < 2 ^ 63
    → W < 2 ^ 63
    → pos_part c + W * t ≡ k * w + neg_part c
    → neg_part c < W
    → (pos_part (c +ℤ pos w) + W * t ≡ suc k * w + neg_part (c +ℤ pos w))
      × (neg_part (c +ℤ pos w) < W)
raise-parts k W w c t small fits track low =
    let exact = +ℤ_parts c (pos w) (omega (arith, parts_zero c)) in
    (omega (arith, exact), omega (arith, exact, parts_zero (c +ℤ pos w)))

-- Taking the total off a positive weight is exact.
lower-parts :
    (n W w : ℕ) (c : ℤ) (t : ℕ)
    → n * w < 2 ^ 63
    → W < 2 ^ 63
    → pos_part c + W * t ≡ n * w + neg_part c
    → neg_part c < W
    → 0 < pos_part c
    → (pos_part (c -ℤ pos W) + W * suc t ≡ n * w + neg_part (c -ℤ pos W))
      × (neg_part (c -ℤ pos W) < W)
lower-parts n W w c t small fits track low up =
    let exact = -ℤ_parts c (pos W) (omega (arith, parts_zero c)) in
    (omega (arith, exact), omega (arith, exact, parts_zero c, parts_zero (c -ℤ pos W)))

pub add_weights-Track :
    (k W : ℕ) (ps : List ProviderInfo) (cs : List ℤ) (ts : List ℕ)
    → suc k * sum (weights ps) < 2 ^ 63
    → W < 2 ^ 63
    → Track k W (weights ps) cs ts
    → (raised : List ℤ) × (add_weights ps cs ≡ ok raised) × Track (suc k) W (weights ps) raised ts
unfolding add_weights sum
add_weights-Track k W [] [] [] small fits track = ([], refl, tt)
add_weights-Track k W (p ∷ ps) (c ∷ cs) (t ∷ ts) small fits track =
    let (raised, e, rest) = add_weights-Track k W ps cs ts (omega arith) fits track.2 in
    let here = raise-parts k W (weight_of p) c t (omega arith) fits track.0 track.1 in
    (
      (c +ℤ get_effective_weight p) ∷ raised,
      rw e,
      rw (get_effective_weight-eq p) (here.0, here.1, rest),
    )
add_weights-Track k W [] [] (t ∷ ts) small fits track = absurd track
add_weights-Track k W [] (c ∷ cs) ts small fits track = absurd track
add_weights-Track k W (p ∷ ps) [] ts small fits track = absurd track
add_weights-Track k W (p ∷ ps) (c ∷ cs) [] small fits track = absurd track

-- Where a scan that stands at index `i` may end: at the best index so far, or in the rest.
abbrev Ends : ℕ → ℕ → ℤ → List ℤ → ℕ × ℤ → Type 0
Ends i m mx cs r =
    ((r.0 ≡ m) × (r.1 ≡ mx)) ⊎ ((j : ℕ) × (r.0 ≡ i + j) × (get_elem? cs j ≡ some r.1))

Ends-cons :
    (b : Bool) (i m : ℕ) (mx c : ℤ) (cs : List ℤ) (r : ℕ × ℤ)
    → Ends (suc i) (if b then i else m) (if b then c else mx) cs r
    → Ends i m mx (c ∷ cs) r
Ends-cons true i m mx c cs r (inl (a, b)) = inr (0, omega (arith, a), cc)
Ends-cons false i m mx c cs r (inl (a, b)) = inl (a, b)
Ends-cons true i m mx c cs r (inr (j, a, b)) = inr (suc j, omega (arith, a), b)
Ends-cons false i m mx c cs r (inr (j, a, b)) = inr (suc j, omega (arith, a), b)

scan_max-Ends : (i m : ℕ) (mx : ℤ) (cs : List ℤ) → Ends i m mx cs (scan_max i m mx cs)
unfolding scan_max
scan_max-Ends i m mx [] = inl (refl, refl)
scan_max-Ends i m mx (c ∷ cs) =
    let better = ltb_ℤ mx c in
    Ends-cons better i m mx c cs _
      (scan_max-Ends (suc i) (if better then i else m) (if better then c else mx) cs)

-- No weight of the list beats the scan's result.
scan_max-upper :
    (i m : ℕ) (mx : ℤ) (cs : List ℤ)
    → let (m', mx') = scan_max i m mx cs in (mx ≤ℤ mx') × All (λ c. c ≤ℤ mx') cs
unfolding scan_max
scan_max-upper i m mx [] = (omega arith, tt)
scan_max-upper i m mx (c ∷ cs) =
    let better = ltb_ℤ mx c in
    let next = scan_max-upper (suc i) (if better then i else m) (if better then c else mx) cs in
    (ground (arith, next.0), (ground (arith, next.0), next.1))

-- With no positive weight the picks would outrun the rounds.
Track-low :
    (n W : ℕ) (ws : List ℕ) (cs : List ℤ) (ts : List ℕ)
    → Track n W ws cs ts
    → All (λ c. pos_part c ≡ 0) cs
    → n * sum ws ≤ W * sum ts
unfolding sum
Track-low n W [] [] [] track low = omega arith
Track-low n W (w ∷ ws) (c ∷ cs) (t ∷ ts) track low =
    omega (arith, track.0, low.0, Track-low n W ws cs ts track.2 low.1)
Track-low n W [] [] (t ∷ ts) track low = absurd track
Track-low n W [] (c ∷ cs) ts track low = absurd track
Track-low n W (w ∷ ws) [] ts track low = absurd track
Track-low n W (w ∷ ws) (c ∷ cs) [] track low = absurd track

All-pos_part-zero :
    (mx : ℤ) (cs : List ℤ) → All (λ c. c ≤ℤ mx) cs → pos_part mx ≡ 0 → All (λ c. pos_part c ≡ 0) cs
All-pos_part-zero mx [] all z = tt
All-pos_part-zero mx (c ∷ cs) all z =
    (omega (arith, all.0, parts_zero c), All-pos_part-zero mx cs all.1 z)

-- Taking the total off a positive weight books one more pick.
Track-bump :
    (n W : ℕ) (ws : List ℕ) (cs : List ℤ) (ts : List ℕ) (m : ℕ) (c : ℤ)
    → n * sum ws < 2 ^ 63
    → W < 2 ^ 63
    → Track n W ws cs ts
    → get_elem? cs m ≡ some c
    → 0 < pos_part c
    → Track n W ws (set cs m (c -ℤ pos W)) (bump m ts)
unfolding sum
Track-bump n W (w ∷ ws) (x ∷ cs) (t ∷ ts) zero c small fits track e up =
    let same : x ≡ c = ground arith in
    let here =
      lower-parts n W w c t (omega arith) fits (rw same at track.0) (rw same at track.1) up in
    (here.0, here.1, track.2)
Track-bump n W (w ∷ ws) (x ∷ cs) (t ∷ ts) (suc m) c small fits track e up =
    (track.0, track.1, Track-bump n W ws cs ts m c (omega arith) fits track.2 e up)
Track-bump n W [] [] [] m c small fits track e up = tt
Track-bump n W [] [] (t ∷ ts) m c small fits track e up = absurd track
Track-bump n W [] (c' ∷ cs) ts m c small fits track e up = absurd track
Track-bump n W (w ∷ ws) [] ts m c small fits track e up = absurd track
Track-bump n W (w ∷ ws) (c' ∷ cs) [] m c small fits track e up = absurd track

Track-length :
    (n W : ℕ) (ws : List ℕ) (cs : List ℤ) (ts : List ℕ)
    → Track n W ws cs ts
    → (length cs ≡ length ws) × (length ts ≡ length ws)
Track-length n W [] [] [] track = (refl, refl)
Track-length n W (w ∷ ws) (c ∷ cs) (t ∷ ts) track = omega (arith, Track-length n W ws cs ts track.2)
Track-length n W [] [] (t ∷ ts) track = absurd track
Track-length n W [] (c ∷ cs) ts track = absurd track
Track-length n W (w ∷ ws) [] ts track = absurd track
Track-length n W (w ∷ ws) (c ∷ cs) [] track = absurd track

sum-bump : (m : ℕ) (ts : List ℕ) → m < length ts → sum (bump m ts) ≡ suc (sum ts)
unfolding sum
sum-bump m [] h = absurd (omega arith)
sum-bump zero (t ∷ ts) h = omega arith
sum-bump (suc m) (t ∷ ts) h = omega (arith, sum-bump m ts (omega arith))

-- Where the scan of a list that is not empty ends, there stands its result.
Ends-At : (c : ℤ) (cs : List ℤ) (r : ℕ × ℤ) → Ends 1 0 c cs r → get_elem? (c ∷ cs) r.0 ≡ some r.1
Ends-At c cs r (inl (a, b)) = rw (a, b) refl
Ends-At c cs r (inr (j, a, b)) = let e : r.0 ≡ suc j = omega (arith, a) in rw e b

-- One pick books one more choice of its index, which is in range.
pub pick_max-Track :
    (k W : ℕ) (ws : List ℕ) (cs : List ℤ) (ts : List ℕ)
    → sum ws ≡ W
    → sum ts ≡ k
    → 0 < W
    → suc k * W < 2 ^ 63
    → Track (suc k) W ws cs ts
    → (m : ℕ) × (cs' : List ℤ) × (pick_max cs (pos W) ≡ ok (m, cs'))
      × Track (suc k) W ws cs' (bump m ts)
      × (m < length ws)
      × (sum (bump m ts) ≡ suc k)
unfolding pick_max
pick_max-Track k W [] [] [] ew et up small track = absurd (unfold sum in omega arith)
pick_max-Track k W (w ∷ ws) [] ts ew et up small track = absurd track
pick_max-Track k W [] [] (t ∷ ts) ew et up small track = absurd track
pick_max-Track k W ws (c ∷ cs) ts ew et up small track =
    (r.0, set (c ∷ cs) r.0 (r.1 -ℤ pos W), refl, books, omega (arith, inside, sizes), grows)
  where
    r : ℕ × ℤ
    r = scan_max 1 0 c cs

    here : get_elem? (c ∷ cs) r.0 ≡ some r.1
    here = Ends-At c cs r (scan_max-Ends 1 0 c cs)

    inside : r.0 < length (c ∷ cs)
    inside = get_elem?-lt (c ∷ cs) r.0 here

    sizes : (length (c ∷ cs) ≡ length ws) × (length ts ≡ length ws)
    sizes = Track-length (suc k) W ws (c ∷ cs) ts track

    upper : All (λ x. x ≤ℤ r.1) (c ∷ cs)
    upper = scan_max-upper 1 0 c cs

    not_low : ¬ (pos_part r.1 ≡ 0)
    not_low z = omega (
      arith,
      ap (λ (t : ℕ). suc k * t) ew,
      ap (λ (t : ℕ). W * t) et,
      Track-low (suc k) W ws (c ∷ cs) ts track (All-pos_part-zero r.1 (c ∷ cs) upper z),
    )

    books : Track (suc k) W ws (set (c ∷ cs) r.0 (r.1 -ℤ pos W)) (bump r.0 ts)
    books =
        Track-bump (suc k) W ws (c ∷ cs) ts r.0 r.1 (rw ew small) (omega arith) track here
          (omega (arith, not_low))

    grows : sum (bump r.0 ts) ≡ suc k
    grows = omega (arith, sum-bump r.0 ts (omega (arith, inside, sizes)), et)
