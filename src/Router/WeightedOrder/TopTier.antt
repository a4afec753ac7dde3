-- ===== src/Router/WeightedOrder/TopTier.antt =====
-- `priority_weighted_failover` picks in the highest tier, by weight.
use cc_relay.Base.{
  ℕ, ◌+◌, ◌^◌, ◌<◌, ◌≡◌, refl, ap, ◌∙◌, subst, false, List, [], ◌∷◌, ◌++◌, arith, ok, ℤ, pos, ◌<ℤ◌,
  Lo, keep, is_empty, All, Draw, rand_intn, sum, group_by_priority_desc-IsTiered,
  group_by_priority_desc-keep, eqb_ℤ, IsTiered, IsTier, flat, Permᴰ, All-append, All-middle,
  length-perm,
}
use cc_relay.Router.Info.{ProviderInfo, healthy, with_healthy-passes}
use cc_relay.Router.Weights.{weight_of, total_weight}
use cc_relay.Router.WeightedOrder.{first_group, select_priority_weighted}
use cc_relay.Router.WeightedOrder.Laws.{Owns, weighted_random_select-Owns}

-- The top tier of a list: its elements of one priority, in their order, above the others.
pub record IsTopTier (level : ℤ) (tier others hs : List ProviderInfo) : Type 0 where
  pub complete : Permᴰ (tier ++ others) hs
  pub in_order : tier ≡ keep (λ q. eqb_ℤ q.priority level) hs
  pub level_of_tier : All (λ (q : ProviderInfo). q.priority ≡ level) tier
  pub below : All (λ (q : ProviderInfo). q.priority <ℤ level) others

tiers-below :
    (level : ℤ) (ts : List (ℤ × List ProviderInfo))
    → All (λ t. t.0 <ℤ level) ts
    → All (IsTier (λ (p : ProviderInfo). p.priority)) ts
    → All (λ (q : ProviderInfo). q.priority <ℤ level) (flat ts)
tiers-below level [] low all = tt
tiers-below level ((l, qs) ∷ ts) low all =
    All-append (λ (q : ProviderInfo). q.priority <ℤ level) qs (flat ts) (go qs all.0.1)
      (tiers-below level ts low.1 all.1)
  where
    go :
        (xs : List ProviderInfo)
        → All (λ (q : ProviderInfo). q.priority ≡ l) xs
        → All (λ (q : ProviderInfo). q.priority <ℤ level) xs
    go [] here = tt
    go (x ∷ xs) here = (rw here.0 low.0, go xs here.1)

total-perm : {xs ys : List ProviderInfo} → Permᴰ xs ys → total_weight xs ≡ total_weight ys
unfolding sum
total-perm Permᴰ.nil = refl
total-perm (Permᴰ.cons e p) = omega (arith, ap weight_of e, total-perm p)
total-perm (Permᴰ.swap e f) = omega (arith, ap weight_of e, ap weight_of f)
total-perm (Permᴰ.trans p q) = total-perm p ∙ total-perm q

total-append :
    (xs ys : List ProviderInfo) → total_weight (xs ++ ys) ≡ total_weight xs + total_weight ys
unfolding sum
total-append [] ys = omega arith
total-append (x ∷ xs) ys = omega (arith, total-append xs ys)

-- The loop over the groups stops at the first one, by the provider that owns the roll.
first_group-Owns :
    (draws : ℕ → Draw) (hs : List ProviderInfo) (ts : List (ℤ × List ProviderInfo))
    → IsTiered (λ (p : ProviderInfo). p.priority) hs ts
    → All (λ t. t.1 ≡ keep (λ (q : ProviderInfo). eqb_ℤ q.priority t.0) hs) ts
    → is_empty hs ≡ false
    → total_weight hs < 2 ^ 63
    → (tier : List ProviderInfo) × (others : List ProviderInfo) × (before : List ProviderInfo)
      × (p : ProviderInfo) × (first_group draws 0 ts ≡ ok p)
      × IsTopTier p.priority tier others hs
      × Owns (rand_intn (draws 0) (pos (total_weight tier))) p before tier
unfolding first_group
first_group-Owns draws [] [] tiered kept up fits = absurd (cc)
first_group-Owns draws (h ∷ hs) [] tiered kept up fits =
    absurd (omega (arith, length-perm tiered.complete))
first_group-Owns draws hs ((l, tier) ∷ ts) tiered kept up fits =
    let others = flat ts in
    let small : total_weight tier < 2 ^ 63 =
      omega (arith, total-perm tiered.complete, total-append tier others, fits) in
    let (before, p, chosen, owns) =
      weighted_random_select-Owns (draws 0) tier tiered.tiers.0.0 small in
    let level : p.priority ≡ l =
      All-middle (λ (q : ProviderInfo). q.priority ≡ l) before p owns.after
        (subst (All (λ (q : ProviderInfo). q.priority ≡ l)) owns.split tiered.tiers.0.1) in
    (
      tier,
      others,
      before,
      p,
      rw (chosen, first_group) refl,
      record {
        complete = tiered.complete;
        in_order = rw level kept.0;
        level_of_tier = rw level tiered.tiers.0.1;
        below = rw level (tiers-below l ts tiered.falls.0 tiered.tiers.1);
      },
      owns,
    )

-- When some provider is healthy and their effective weights sum below 2^63, the priority-
-- weighted `Select` returns a provider of the tier of the highest priority: the tier is the
-- healthy providers of that provider's priority in their order, the others make up the rest and
-- have lower priorities, and the random roll below the total weight of the tier falls in the
-- interval that the provider's weight has in that order.
pub select_priority_weighted-top :
    (lo : Lo) (draws : ℕ → Draw) (ps hs : List ProviderInfo)
    → keep healthy ps ≡ hs
    → is_empty hs ≡ false
    → total_weight hs < 2 ^ 63
    → (tier : List ProviderInfo) × (others : List ProviderInfo) × (before : List ProviderInfo)
      × (p : ProviderInfo) × ((select_priority_weighted lo draws tt ps).0 ≡ ok p)
      × IsTopTier p.priority tier others hs
      × Owns (rand_intn (draws 0) (pos (total_weight tier))) p before tier
unfolding select_priority_weighted
select_priority_weighted-top lo draws ps hs e up fits =
    let (tier, others, before, p, chosen, top, owns) =
      first_group-Owns draws hs _
        (group_by_priority_desc-IsTiered (λ (q : ProviderInfo). q.priority) hs)
        (group_by_priority_desc-keep (λ (q : ProviderInfo). q.priority) hs) up fits in
    (
      tier,
      others,
      before,
      p,
      ap (λ r. r.0) (with_healthy-passes lo tt ps hs _ e up) ∙ chosen,
      top,
      owns,
    )
