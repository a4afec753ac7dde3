-- ===== src/Router/RoundRobin/Rotation.antt =====
-- One turn of the round-robin counter serves every healthy provider once, in order.
use mathlib.Core.List.{map-append}
use cc_relay.Base.{
  ℕ, zero, suc, ◌+◌, ◌-◌, ◌%◌, ◌^◌, ◌≤◌, ◌<◌, ◌≡◌, refl, ap, ap₂, ◌∙◌, sym, false, List, [], ◌∷◌,
  ◌++◌, map, arith, Result, ok, at, Lo, keep, is_empty, length, get_elem?, get_elem?_total,
  at-eq-ok, length-pos, take, drop, some,
}
use cc_relay.Router.Info.{
  ProviderInfo, healthy, with_healthy-passes, repeat_select, repeat_select-zero, repeat_select-suc,
  repeat_select-add,
}
use cc_relay.Router.RoundRobin.{RoundRobinRouter, select_next, select_next-lem, select_round_robin}

module _ {ℓ} {A : Type ℓ} where
  take-drop-suc :
      (xs : List A) (a j : ℕ) {x : A}
      → get_elem? xs a ≡ some x
      → take (suc j) (drop a xs) ≡ x ∷ take j (drop (suc a) xs)
  take-drop-suc [] a j e = absurd (cc)
  take-drop-suc (y ∷ xs) zero j e = ground (arith)
  take-drop-suc (y ∷ xs) (suc a) j e = take-drop-suc xs a j e

  take-length : (xs : List A) → take (length xs) xs ≡ xs
  take-length [] = refl
  take-length (x ∷ xs) = ap (◌∷◌ x) (take-length xs)

  length-drop : (n : ℕ) (xs : List A) → length (drop n xs) ≡ length xs - n
  length-drop zero xs = omega arith
  length-drop (suc n) [] = omega arith
  length-drop (suc n) (x ∷ xs) = omega (arith, length-drop n xs)

mod-suc : (i n a : ℕ) → i % n ≡ a → suc a < n → (i + 1) % n ≡ suc a
mod-suc i n a here room = grind arith

mod-wrap : (i n : ℕ) → 0 < n → (i + (n - i % n)) % n ≡ 0
mod-wrap i n up = grind arith

module _ (lo : Lo) (ps hs : List ProviderInfo) (e : keep healthy ps ≡ hs) (up : is_empty hs ≡ false)
    (fits : length hs < 2 ^ 63) where
  counter : ℕ → RoundRobinRouter
  counter i = record { index = i }

  -- One call, with the counter short of its wrap-around.
  step :
      (i a : ℕ) (x : ProviderInfo)
      → i + 1 < 2 ^ 64
      → i % length hs ≡ a
      → get_elem? hs a ≡ some x
      → select_round_robin lo (counter i) ps ≡ (ok x, counter (i + 1))
  unfolding select_round_robin counter
  step i a x small here found =
      with_healthy-passes lo (counter i) ps hs (select_next (counter i)) e up
      ∙ select_next-lem (counter i) hs (omega arith) up fits
      ∙ ap₂ (λ c n. (c, counter n)) (ap (at hs) here ∙ at-eq-ok hs a found) (omega arith)

  select : RoundRobinRouter → Result ProviderInfo × RoundRobinRouter
  select r = select_round_robin lo r ps

  -- `j` calls that do not pass the end of the list.
  segment :
      (j i a : ℕ)
      → i % length hs ≡ a
      → a + j ≤ length hs
      → i + j < 2 ^ 64
      → repeat_select select j (counter i) ≡ (map ok (take j (drop a hs)), counter (i + j))
  unfolding select
  segment zero i a here room small =
      repeat_select-zero select (counter i) ∙ ap (λ n. ([], counter n)) (omega arith)
  segment (suc zero) i a here room small =
      let (x, found) = get_elem?_total hs a (omega arith) in
      repeat_select-suc select 0 (counter i) (step i a x (omega arith) here found)
        (repeat_select-zero select (counter (i + 1)))
      ∙ ap (λ xs. (map ok xs, counter (i + 1))) (sym (take-drop-suc hs a 0 found))
  segment (suc (suc j)) i a here room small =
      let (x, found) = get_elem?_total hs a (omega arith) in
      repeat_select-suc select (suc j) (counter i) (step i a x (omega arith) here found) (
        segment (suc j) (i + 1) (suc a) (mod-suc i (length hs) a here (omega arith)) (omega arith)
          (omega arith))
      ∙ ap₂ (λ xs n. (map ok xs, counter n)) (sym (take-drop-suc hs a (suc j) found)) (omega arith)

  -- When some provider is healthy and neither their number reaches 2^63 nor the counter wraps
  -- around, as many calls of `Select` as there are healthy providers return them in their order,
  -- starting where the counter stands and going on from the first, and raise the counter by
  -- their number.
  pub select_round_robin-rotation :
      (r : RoundRobinRouter)
      → r.index + length hs < 2 ^ 64
      → repeat_select (λ s. select_round_robin lo s ps) (length hs) r ≡ (
        map ok (drop (r.index % length hs) hs ++ take (r.index % length hs) hs),
        record { index = r.index + length hs },
      )
  unfolding counter select
  select_round_robin-rotation r small =
      ap (λ k. repeat_select select k r) halves
      ∙ repeat_select-add select (n - a) a r
          (segment (n - a) r.index a refl (omega (arith, low)) (omega (arith, low)))
          (segment a (r.index + (n - a)) 0 (mod-wrap r.index n up_n) (omega (arith, low))
            (omega (arith, low)))
      ∙ ap₂ (λ xs k. (xs, counter k)) parts (omega (arith, low))
    where
      n : ℕ
      n = length hs

      a : ℕ
      a = r.index % n

      up_n : 0 < n
      up_n = length-pos hs up

      low : a < n
      low = omega (arith, up_n)

      halves : n ≡ n - a + a
      halves = omega (arith, low)

      whole : take (n - a) (drop a hs) ≡ drop a hs
      whole = ap (λ k. take k (drop a hs)) (sym (length-drop a hs)) ∙ take-length (drop a hs)

      parts :
          map ok (take (n - a) (drop a hs)) ++ map ok (take a (drop 0 hs))
          ≡ map ok (drop a hs ++ take a hs)
      parts = rw whole (sym (map-append ok (drop a hs) (take a hs)))
