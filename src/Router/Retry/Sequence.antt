-- ===== src/Router/Retry/Sequence.antt =====
-- The outcomes of the weighted router's retry, which tries a random order one by one.
use cc_relay.Base.{
  ℕ, ◌≡◌, refl, ap, sym, true, false, Option, none, some, List, [], ◌∷◌, ◌++◌, arith, Err, ok, Lo,
  keep, is_empty, All, Bool-cases, Option-cases, inl, inr, subst, Permᴰ, length-perm, Draw,
}
use cc_relay.Router.Info.{ProviderInfo, healthy, filter_healthy}
use cc_relay.Router.Triggers.{FailoverTrigger, should_failover}
use cc_relay.Router.WeightedOrder.{weighted_order}
use cc_relay.Router.WeightedOrder.Laws.{weighted_order-perm}
use cc_relay.Router.Retry.{
  Attempt, Chosen, chosen, failed, try_in_order, select_weighted_with_retry,
}

module _ (triggers : List FailoverTrigger) (try_provider : ProviderInfo → Attempt) where
  -- An attempt whose failure moves on to the next provider.
  abbrev pub MovesOn : ProviderInfo → Type 0
  MovesOn p =
      (e : Err) × ((try_provider p).error ≡ some e)
      × (should_failover triggers (some e) (try_provider p).status_code ≡ true)

  -- How a sequence of attempts ends.
  pub data Tried (order : List ProviderInfo) (c : Chosen) : Type 0 where
    succeeded :
        (before after : List ProviderInfo) (p : ProviderInfo)
        → order ≡ before ++ (p ∷ after)
        → All MovesOn before
        → (try_provider p).error ≡ none
        → c ≡ chosen p none
        → Tried order c
    stopped :
        (before after : List ProviderInfo) (p : ProviderInfo) (e : Err)
        → order ≡ before ++ (p ∷ after)
        → All MovesOn before
        → (try_provider p).error ≡ some e
        → should_failover triggers (some e) (try_provider p).status_code ≡ false
        → c ≡ chosen p (some e)
        → Tried order c
    exhausted :
        (before : List ProviderInfo) (p : ProviderInfo) (e : Err)
        → order ≡ before ++ (p ∷ [])
        → All MovesOn order
        → (try_provider p).error ≡ some e
        → c ≡ failed e
        → Tried order c

  Tried-cons :
      (p : ProviderInfo) (ps : List ProviderInfo) (c : Chosen)
      → MovesOn p
      → Tried ps c
      → Tried (p ∷ ps) c
  Tried-cons p ps c on (succeeded before after q split all fine e) =
      succeeded (p ∷ before) after q (ap (◌∷◌ p) split) (on, all) fine e
  Tried-cons p ps c on (stopped before after q e split all bad keeps result) =
      stopped (p ∷ before) after q e (ap (◌∷◌ p) split) (on, all) bad keeps result
  Tried-cons p ps c on (exhausted before q e split all bad result) =
      exhausted (p ∷ before) q e (ap (◌∷◌ p) split) (on, all) bad result

  -- One step of the loop.
  step_succeeds :
      (last : Option Err) (p : ProviderInfo) (ps : List ProviderInfo)
      → (try_provider p).error ≡ none
      → try_in_order triggers try_provider last (p ∷ ps) ≡ chosen p none
  unfolding try_in_order
  step_succeeds last p ps fine = rw (fine, try_in_order) refl

  step_stops :
      (last : Option Err) (p : ProviderInfo) (ps : List ProviderInfo) (e : Err)
      → (try_provider p).error ≡ some e
      → should_failover triggers (some e) (try_provider p).status_code ≡ false
      → try_in_order triggers try_provider last (p ∷ ps) ≡ chosen p (some e)
  unfolding try_in_order
  step_stops last p ps e bad keeps = rw (bad, try_in_order, keeps) refl

  step_moves :
      (last : Option Err) (p : ProviderInfo) (ps : List ProviderInfo) (e : Err)
      → (try_provider p).error ≡ some e
      → should_failover triggers (some e) (try_provider p).status_code ≡ true
      → try_in_order triggers try_provider last (p ∷ ps)
        ≡ try_in_order triggers try_provider (some e) ps
  unfolding try_in_order
  step_moves last p ps e bad over = rw (bad, try_in_order, over) refl

  last_fails : (e : Err) → try_in_order triggers try_provider (some e) [] ≡ failed e
  unfolding try_in_order
  last_fails e = refl

  -- The first attempt decides, or the outcome of the rest is the outcome.
  first_attempt :
      (last : Option Err) (p : ProviderInfo) (ps : List ProviderInfo)
      → ((e : Err)
          → (try_provider p).error ≡ some e
          → should_failover triggers (some e) (try_provider p).status_code ≡ true
          → Tried (p ∷ ps) (try_in_order triggers try_provider (some e) ps))
      → Tried (p ∷ ps) (try_in_order triggers try_provider last (p ∷ ps))
  first_attempt last p ps rest = elim (Option-cases (try_provider p).error) [
    | inl fine ↦ succeeded [] ps p refl tt fine (step_succeeds last p ps fine)
    | inr (e, bad) ↦
        elim (Bool-cases (should_failover triggers (some e) (try_provider p).status_code)) [
          | inl over ↦
              subst (Tried (p ∷ ps)) (sym (step_moves last p ps e bad over)) (rest e bad over)
          | inr keeps ↦ stopped [] ps p e refl tt bad keeps (step_stops last p ps e bad keeps)
        ]
  ]

  try_in_order-Tried :
      (last : Option Err) (p : ProviderInfo) (ps : List ProviderInfo)
      → Tried (p ∷ ps) (try_in_order triggers try_provider last (p ∷ ps))
  try_in_order-Tried last p [] =
      first_attempt last p []
        (λ e bad over. exhausted [] p e refl ((e, bad, over), tt) bad (last_fails e))
  try_in_order-Tried last p (q ∷ qs) =
      first_attempt last p (q ∷ qs)
        (λ e bad over. Tried-cons p (q ∷ qs) _ (e, bad, over) (try_in_order-Tried (some e) q qs))

  -- When some provider is healthy, the weighted `SelectWithRetry` tries the healthy providers in
  -- the order that `weightedOrder` gives for the draws, which has each of them once: each
  -- failure that a trigger matches moves on, the first success or the first failure that no
  -- trigger matches ends the call with its provider, and when all fail the last error is
  -- returned.
  pub select_weighted_with_retry-Tried :
      (lo : Lo) (draws : ℕ → Draw) (ps hs : List ProviderInfo)
      → keep healthy ps ≡ hs
      → is_empty hs ≡ false
      → (order : List ProviderInfo) × (c : Chosen) × (weighted_order draws hs ≡ ok order)
        × Permᴰ order hs
        × Tried order c
        × (select_weighted_with_retry lo draws triggers try_provider ps ≡ ok c)
  unfolding select_weighted_with_retry filter_healthy
  select_weighted_with_retry-Tried lo draws [] hs e up = absurd (ground arith)
  select_weighted_with_retry-Tried lo draws (x ∷ ps) [] e up = absurd (cc)
  select_weighted_with_retry-Tried lo draws (x ∷ ps) (h ∷ hs) e up =
      let (order, result, perm) = weighted_order-perm draws (h ∷ hs) in go order result perm
    where
      go :
          (order : List ProviderInfo)
          → weighted_order draws (h ∷ hs) ≡ ok order
          → Permᴰ order (h ∷ hs)
          → (order : List ProviderInfo) × (c : Chosen) × (weighted_order draws (h ∷ hs) ≡ ok order)
            × Permᴰ order (h ∷ hs)
            × Tried order c
            × (select_weighted_with_retry lo draws triggers try_provider (x ∷ ps) ≡ ok c)
      go [] result perm = absurd (omega (arith, length-perm perm))
      go (p ∷ qs) result perm = (
        p ∷ qs,
        _,
        result,
        perm,
        try_in_order-Tried none p qs,
        rw (lo.filter_lem healthy (x ∷ ps), e, result) refl,
      )
