-- ===== src/Base/Walk.antt =====
-- The loop of a weighted roll, which stands in internal/router/weighted_failover.go, in
-- internal/router/priority_weighted_failover.go and in internal/keypool/weighted.go:
-- `for i, x := range xs { w := weight(x); if roll < w { return }; roll -= w }`.
use Prim.Native.Nat.{ℕ, suc, ◌+◌, ◌-◌, ◌^◌, ◌≤◌, ◌<◌}
use mathlib.Core.Path.{◌≡◌, refl, ap, ◌∙◌}
use mathlib.Core.Logic.{◌⊎◌, inl, inr}
use mathlib.Core.Option.{Option, none, some}
use mathlib.Core.List.{List, [], ◌∷◌, ◌++◌, map, foldl}
use native.Mathlib.Omega.{arith}
use cc_relay.Base.Tests.{if◌then◌else◌, Bool-cases}
use cc_relay.Base.Lists.{length, get_elem?}
use cc_relay.Base.Int.{ℤ, pos, ◌+ℤ◌, ◌-ℤ◌, wrap64, ltb_ℤ, leb_ℤ, +ℤ_pos}

unfoldable pub sum : List ℕ → ℕ
sum [] = 0
sum (x ∷ xs) = x + sum xs

-- `effectiveWeight`, `providerEffectiveWeight` and `effectiveKeyWeight`: at least 1.
unfoldable pub effective_weight : ℤ → ℤ
effective_weight weight = if leb_ℤ weight (pos 0) then pos 1 else weight

pos--ℤ-pos : (a b : ℕ) → b ≤ a → a < 2 ^ 63 → pos a -ℤ pos b ≡ pos (a - b)
unfolding ◌-ℤ◌ wrap64
pos--ℤ-pos a b h fits = ground arith

-- An `int` loop that adds up positive values is exact while the total fits.
pub foldl-sum :
    {A : Type 0} (f : A → ℤ) (g : A → ℕ) (e : (x : A) → f x ≡ pos (g x)) (xs : List A) (a : ℕ)
    → a + sum (map g xs) < 2 ^ 63
    → foldl (λ s x. s +ℤ f x) (pos a) xs ≡ pos (a + sum (map g xs))
unfolding sum
foldl-sum f g e [] a h = ap pos (omega arith)
foldl-sum {A} f g e (x ∷ xs) a h =
    ap (λ s. foldl (λ (s : ℤ) (y : A). s +ℤ f y) s xs)
      (ap (◌+ℤ◌ (pos a)) (e x) ∙ +ℤ_pos a (g x) (omega arith))
    ∙ foldl-sum f g e xs (a + g x) (omega arith)
    ∙ ap pos (omega arith)

module _ {A : Type 0} (weight : A → ℤ) where
  -- The index and the element at which the loop returns, or `none` when it runs through.
  unfoldable pub weighted_walk : ℕ → ℤ → List A → Option (ℕ × A)
  weighted_walk i roll [] = none
  weighted_walk i roll (x ∷ xs) =
      let rest = weighted_walk (suc i) (roll -ℤ weight x) xs in
      if ltb_ℤ roll (weight x) then some (i, x) else rest

  pub weighted_walk-At :
      (i : ℕ) (roll : ℤ) (xs : List A)
      → (weighted_walk i roll xs ≡ none)
        ⊎ ((j : ℕ) × (x : A) × (weighted_walk i roll xs ≡ some (i + j, x))
            × (get_elem? xs j ≡ some x))
  unfolding weighted_walk
  weighted_walk-At i roll [] = inl refl
  weighted_walk-At i roll (x ∷ xs) = elim (Bool-cases (ltb_ℤ roll (weight x))) [
    | inl hit ↦ inr (0, x, rw hit (ap (λ n. some (n, x)) (omega arith)), refl)
    | inr miss ↦ elim (weighted_walk-At (suc i) (roll -ℤ weight x) xs) [
      | inl out ↦ inl (rw miss out)
      | inr (j, y, e, a) ↦ inr (suc j, y, rw miss (e ∙ ap (λ n. some (n, y)) (omega arith)), a)
    ]
  ]

module _ {A : Type 0} (weight : A → ℤ) (g : A → ℕ) (e : (x : A) → weight x ≡ pos (g x)) where
  -- Every element owns as many rolls as its weight: the walk stops at the element whose interval,
  -- between the weights before it and those with its own, holds the roll.
  pub weighted_walk-interval :
      (i r : ℕ) (xs : List A)
      → sum (map g xs) < 2 ^ 63
      → r < sum (map g xs)
      → (pre : List A) × (x : A) × (post : List A) × (xs ≡ pre ++ (x ∷ post))
        × (weighted_walk weight i (pos r) xs ≡ some (i + length pre, x))
        × (sum (map g pre) ≤ r)
        × (r < sum (map g pre) + g x)
  unfolding weighted_walk sum
  weighted_walk-interval i r [] fits h = absurd (omega arith)
  weighted_walk-interval i r (x ∷ xs) fits h = elim (Bool-cases (ltb_ℤ (pos r) (weight x))) [
    | inl hit ↦ (
      [],
      x,
      xs,
      refl,
      rw hit (ap (λ n. some (n, x)) (omega arith)),
      omega arith,
      ground (arith, e x, hit),
    )
    | inr miss ↦
        let over : g x ≤ r = ground (arith, e x, miss) in
        let (pre, y, post, split, found, low, high) =
          weighted_walk-interval (suc i) (r - g x) xs (omega arith) (omega (arith, over)) in
        let less : pos r -ℤ weight x ≡ pos (r - g x) =
          ap (◌-ℤ◌ (pos r)) (e x) ∙ pos--ℤ-pos r (g x) over (omega arith) in
        (
          x ∷ pre,
          y,
          post,
          ap (◌∷◌ x) split,
          rw miss (rw less (found ∙ ap (λ n. some (n, y)) (omega arith))),
          omega (arith, low, over),
          omega (arith, high, over),
        )
  ]
