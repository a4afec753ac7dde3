-- ===== src/Router/Shuffle/Deck.antt =====
-- A deck deals every healthy provider once before it is shuffled again.
use mathlib.Core.List.{append_assoc}
use mathlib.Core.List.Permᴰ
use cc_relay.Base.{
  length-perm, get_elem?-lt, ℕ, zero, suc, ◌+◌, ◌≡◌, refl, ap, ap₂, ◌∙◌, sym, true, false, List, [],
  ◌∷◌, ◌++◌, map, arith, Result, ok, at, at-eq-ok, Lo, keep, is_empty, length, length-pos,
  get_elem?, some, Permᴰ, length-append,
}
use cc_relay.Router.Info.{ProviderInfo, healthy, with_healthy-passes}
use cc_relay.Router.Shuffle.{
  ShuffleRouter, indices, reshuffle, needs_reshuffle, deal, select_dealt, select_shuffle,
}

length-indices : (i n : ℕ) → length (indices i n) ≡ n
length-indices i zero = refl
length-indices i (suc n) = ap suc (length-indices (suc i) n)

get_elem?-middle {ℓ} :
    {A : Type ℓ} (pre : List A) (x : A) (xs : List A)
    → get_elem? (pre ++ (x ∷ xs)) (length pre) ≡ some x
get_elem?-middle [] x xs = refl
get_elem?-middle (y ∷ pre) x xs = get_elem?-middle pre x xs

-- What the indices from `length pre` on find in a list.
map-at-indices :
    (pre xs : List ProviderInfo) (n : ℕ)
    → length pre ≡ n
    → map (at (pre ++ xs)) (indices n (length xs)) ≡ map ok xs
map-at-indices pre [] n e = refl
map-at-indices pre (x ∷ xs) n e =
    ap₂ ◌∷◌
      (at-eq-ok (pre ++ (x ∷ xs)) n
        (ap (get_elem? (pre ++ (x ∷ xs))) (sym e) ∙ get_elem?-middle pre x xs))
      (ap (λ zs. map (at zs) (indices (suc n) (length xs))) (sym (append_assoc pre (x ∷ []) xs))
        ∙ map-at-indices (pre ++ (x ∷ [])) xs (suc n)
            (omega (arith, length-append pre (x ∷ []), e)))

deal-eq :
    (r : ShuffleRouter) (hs : List ProviderInfo) (idx : ℕ)
    → get_elem? r.shuffled_order r.position ≡ some idx
    → deal r hs ≡ (at hs idx, record r { position = r.position + 1 })
unfolding deal
deal-eq r hs idx found = rw (at-eq-ok r.shuffled_order r.position found, deal) refl

not_stale :
    (order : List ℕ) (k n idx : ℕ)
    → length order ≡ n
    → get_elem? order k ≡ some idx
    → needs_reshuffle (record { shuffled_order = order; position = k; last_len = n }) n ≡ false
unfolding needs_reshuffle
not_stale [] k n idx full found = absurd (cc)
not_stale (o ∷ order) k n idx full found = ground (arith, get_elem?-lt (o ∷ order) k found)

-- `n` calls, of which call `k` finds the seed `seeds k` in the random source.
pub deal_all :
    Lo
    → List ProviderInfo
    → (ℕ → ℕ)
    → ℕ
    → ℕ
    → ShuffleRouter
    → List (Result ProviderInfo) × ShuffleRouter
deal_all lo ps seeds k zero r = ([], r)
deal_all lo ps seeds k (suc n) r =
    let (chosen, r') = select_shuffle lo (seeds k) r ps in
    let (later, r'') = deal_all lo ps seeds (k + 1) n r' in (chosen ∷ later, r'')

deal_all-suc :
    (lo : Lo) (ps : List ProviderInfo) (seeds : ℕ → ℕ) (k n : ℕ) (r : ShuffleRouter)
    {c : Result ProviderInfo} {r' : ShuffleRouter} {cs : List (Result ProviderInfo)}
    {r'' : ShuffleRouter}
    → select_shuffle lo (seeds k) r ps ≡ (c, r')
    → deal_all lo ps seeds (k + 1) n r' ≡ (cs, r'')
    → deal_all lo ps seeds k (suc n) r ≡ (c ∷ cs, r'')
unfolding deal_all
deal_all-suc lo ps seeds k n r now later = rw (now, later) refl

-- A deck that is dealt to its end is shuffled on the next call.
used_up :
    (order : List ℕ) {n : ℕ}
    → length order ≡ n
    → needs_reshuffle (record { shuffled_order = order; position = n; last_len = n }) n ≡ true
unfolding needs_reshuffle
used_up [] full = refl
used_up (o ∷ order) full = ground arith

module _ (lo : Lo) (ps hs : List ProviderInfo) (e : keep healthy ps ≡ hs)
    (up : is_empty hs ≡ false) where
  deck : List ℕ → ℕ → ShuffleRouter
  deck order position = record { shuffled_order = order; position = position; last_len = length hs }

  -- A call in the middle of a deck deals its next card.
  next_card :
      (seed : ℕ) (order : List ℕ) (k idx : ℕ)
      → length order ≡ length hs
      → get_elem? order k ≡ some idx
      → select_shuffle lo seed (deck order k) ps ≡ (at hs idx, deck order (k + 1))
  unfolding select_shuffle select_dealt deck
  next_card seed order k idx full found =
      with_healthy-passes lo (deck order k) ps hs (select_dealt lo seed (deck order k)) e up
      ∙ rw (not_stale order k (length hs) idx full found) (deal-eq (deck order k) hs idx found)

  -- A call that finds the deck used up, or made for another number of providers.
  first_card :
      (seed : ℕ) (r : ShuffleRouter) (idx : ℕ)
      → needs_reshuffle r (length hs) ≡ true
      → get_elem? (lo.shuffle seed (indices 0 (length hs))) 0 ≡ some idx
      → select_shuffle lo seed r ps ≡ (at hs idx, deck (lo.shuffle seed (indices 0 (length hs))) 1)
  unfolding select_shuffle select_dealt reshuffle deck
  first_card seed r idx stale found =
      with_healthy-passes lo r ps hs (select_dealt lo seed r) e up
      ∙ rw stale (deal-eq (deck (lo.shuffle seed (indices 0 (length hs))) 0) hs idx found)

  -- The rest of a deck, one call for each card.
  rest_of_deck :
      (seeds : ℕ → ℕ) (pre post : List ℕ) (k : ℕ)
      → length (pre ++ post) ≡ length hs
      → length pre ≡ k
      → deal_all lo ps seeds k (length post) (deck (pre ++ post) k)
        ≡ (map (at hs) post, deck (pre ++ post) (k + length post))
  unfolding deal_all
  rest_of_deck seeds pre [] k full here = ap (λ n. ([], deck (pre ++ []) n)) (omega arith)
  rest_of_deck seeds pre (idx ∷ post) k full here =
      let found = ap (get_elem? (pre ++ (idx ∷ post))) (sym here) ∙ get_elem?-middle pre idx post in
      let same = append_assoc pre (idx ∷ []) post in
      let later = rw same at (
        rest_of_deck seeds (pre ++ (idx ∷ [])) post (k + 1) (ap length same ∙ full)
          (omega (arith, length-append pre (idx ∷ []), here))) in
      deal_all-suc lo ps seeds k (length post) (deck (pre ++ (idx ∷ post)) k)
        (next_card (seeds k) (pre ++ (idx ∷ post)) k idx full found) later
      ∙ ap₂ (λ c n. (c, deck (pre ++ (idx ∷ post)) n)) refl (omega arith)

  whole_deck :
      (seeds : ℕ → ℕ) (r : ShuffleRouter) (order : List ℕ)
      → needs_reshuffle r (length hs) ≡ true
      → lo.shuffle (seeds 0) (indices 0 (length hs)) ≡ order
      → length order ≡ length hs
      → deal_all lo ps seeds 0 (length hs) r ≡ (map (at hs) order, deck order (length hs))
  whole_deck seeds r [] stale made full = absurd (omega (arith, length-pos hs up, full))
  whole_deck seeds r (idx ∷ post) stale made full =
      ap (λ n. deal_all lo ps seeds 0 n r) (sym full)
      ∙ deal_all-suc lo ps seeds 0 (length post) r
          (first_card (seeds 0) r idx stale (ap (λ o. get_elem? o 0) made)
            ∙ ap (λ o. (at hs idx, deck o 1)) made)
          (rest_of_deck seeds (idx ∷ []) post 1 full refl)
      ∙ ap (λ n. (map (at hs) (idx ∷ post), deck (idx ∷ post) n)) (omega (arith, full))

  -- When some provider is healthy and the deck is due for a shuffle, as many calls of `Select`
  -- as there are healthy providers, each with its own random seed, return a reordering of the
  -- healthy providers, and then the deck is due for a shuffle again.
  pub select_shuffle-deck :
      (seeds : ℕ → ℕ) (r : ShuffleRouter)
      → needs_reshuffle r (length hs) ≡ true
      → (results : List (Result ProviderInfo)) × (r' : ShuffleRouter) × (deal_all lo ps seeds 0
            (length hs)
            r
          ≡ (results, r'))
        × Permᴰ results (map ok hs)
        × (needs_reshuffle r' (length hs) ≡ true)
  unfolding deck
  select_shuffle-deck seeds r stale = (
    map (at hs) order,
    deck order (length hs),
    whole_deck seeds r order stale refl full,
    rw (map-at-indices [] hs 0 refl) at (Permᴰ.map (at hs) shuffled),
    used_up order full,
  )
    where
      order : List ℕ
      order = lo.shuffle (seeds 0) (indices 0 (length hs))

      shuffled : Permᴰ order (indices 0 (length hs))
      shuffled = lo.shuffle-perm (seeds 0) (indices 0 (length hs))

      full : length order ≡ length hs
      full = length-perm shuffled ∙ length-indices 0 (length hs)
