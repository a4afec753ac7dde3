-- ===== src/Router/Retry/Race.antt =====
-- The outcomes of the failover router's retry.
use cc_relay.Base.{
  ◌≡◌, refl, ap, sym, true, false, Option, none, some, List, [], ◌∷◌, ◌++◌, arith, Err, Result, ok,
  Lo, ◌<◌, length, subst, Permᴰ, length-perm, keep, is_empty, All, Bool-cases, Option-cases, inl,
  inr,
}
use cc_relay.Router.Info.{ProviderInfo, healthy, filter_healthy}
use cc_relay.Router.Triggers.{FailoverTrigger, should_failover}
use cc_relay.Router.Failover.{sort_by_priority, insert_by_priority}
use cc_relay.Router.Failover.Best.{
  HasSmallPriority, IsFirstBest, sort_by_priority-IsFirstBest, sort_by_priority-perm,
}
use cc_relay.Router.Retry.{
  Attempt, RoutingResult, Chosen, chosen, failed, race_loop, try_sorted, select_with_retry,
}

abbrev IsFailure : RoutingResult → Type 0
IsFailure r = (e : Err) × (r.error ≡ some e)

-- How a race ends: by its first success, or by its last failure.
pub data Race (rs : List RoutingResult) (c : Chosen) : Type 0 where
  won :
      (before after : List RoutingResult) (r : RoutingResult)
      → rs ≡ before ++ (r ∷ after)
      → All IsFailure before
      → r.error ≡ none
      → c ≡ chosen r.provider none
      → Race rs c
  lost :
      (before : List RoutingResult) (r : RoutingResult) (e : Err)
      → rs ≡ before ++ (r ∷ [])
      → All IsFailure rs
      → r.error ≡ some e
      → c ≡ failed e
      → Race rs c

Race-cons :
    (r : RoutingResult) (rs : List RoutingResult) (c : Chosen)
    → IsFailure r
    → Race rs c
    → Race (r ∷ rs) c
Race-cons r rs c bad (won before after s split all fine e) =
    won (r ∷ before) after s (ap (◌∷◌ r) split) (bad, all) fine e
Race-cons r rs c bad (lost before s e split all failure result) =
    lost (r ∷ before) s e (ap (◌∷◌ r) split) (bad, all) failure result

race_loop-failure :
    (last : Option Err) (r : RoutingResult) (rs : List RoutingResult) (e : Err)
    → r.error ≡ some e
    → race_loop last (r ∷ rs) ≡ race_loop (some e) rs
unfolding race_loop
race_loop-failure last r rs e bad = rw (bad, race_loop) refl

race_loop-Race :
    (last : Option Err) (r : RoutingResult) (rs : List RoutingResult)
    → Race (r ∷ rs) (race_loop last (r ∷ rs))
unfolding race_loop
race_loop-Race last r [] = elim (Option-cases r.error) [
  | inl fine ↦ won [] [] r refl tt fine (rw (fine, race_loop) refl)
  | inr (e, bad) ↦ lost [] r e refl ((e, bad), tt) bad (rw (bad, race_loop) refl)
]
race_loop-Race last r (q ∷ qs) = elim (Option-cases r.error) [
  | inl fine ↦ won [] (q ∷ qs) r refl tt fine (rw (fine, race_loop) refl)
  | inr (e, bad) ↦
      subst (Race (r ∷ q ∷ qs)) (sym (race_loop-failure last r (q ∷ qs) e bad))
        (Race-cons r (q ∷ qs) _ (e, bad) (race_loop-Race (some e) q qs))
]

-- The outcomes of `SelectWithRetry` when some provider is healthy; `hs` are the healthy ones.
pub data Retried (triggers : List FailoverTrigger) (try_provider : ProviderInfo → Attempt)
    (race : List ProviderInfo → List RoutingResult) (hs : List ProviderInfo) (r : Result Chosen)
    : Type 0 where
  alone :
      (p : ProviderInfo)
      → hs ≡ p ∷ []
      → r ≡ ok (chosen p (try_provider p).error)
      → Retried triggers try_provider race hs r
  primary_succeeded :
      (p : ProviderInfo)
      → IsFirstBest p hs
      → (try_provider p).error ≡ none
      → r ≡ ok (chosen p none)
      → Retried triggers try_provider race hs r
  primary_kept :
      (p : ProviderInfo) (e : Err)
      → IsFirstBest p hs
      → (try_provider p).error ≡ some e
      → should_failover triggers (some e) (try_provider p).status_code ≡ false
      → r ≡ ok (chosen p (some e))
      → Retried triggers try_provider race hs r
  raced :
      (p : ProviderInfo) (e : Err) (order : List ProviderInfo) (c : Chosen)
      → IsFirstBest p hs
      → (try_provider p).error ≡ some e
      → should_failover triggers (some e) (try_provider p).status_code ≡ true
      → Permᴰ order hs
      → Race (race order) c
      → r ≡ ok c
      → Retried triggers try_provider race hs r

all_sent-Race :
    (race : List ProviderInfo → List RoutingResult) (order : List ProviderInfo)
    → length (race order) ≡ length order
    → 0 < length order
    → Race (race order) (race_loop none (race order))
all_sent-Race race order same some_one = go (race order) refl
  where
    go : (rs : List RoutingResult) → race order ≡ rs → Race rs (race_loop none rs)
    go [] e = absurd (omega (arith, ap length e, same, some_one))
    go (r ∷ rs) e = race_loop-Race none r rs

-- The two ways on from the first of several sorted providers.
try_sorted-Retried :
    (triggers : List FailoverTrigger) (try_provider : ProviderInfo → Attempt)
    (race : List ProviderInfo → List RoutingResult) (p q : ProviderInfo) (qs hs : List ProviderInfo)
    → length (race (p ∷ q ∷ qs)) ≡ length (p ∷ q ∷ qs)
    → Permᴰ (p ∷ q ∷ qs) hs
    → IsFirstBest p hs
    → Retried triggers try_provider race hs (try_sorted triggers try_provider race (p ∷ q ∷ qs))
unfolding try_sorted
try_sorted-Retried triggers try_provider race p q qs hs same perm best =
    elim (Option-cases (try_provider p).error) [
      | inl fine ↦ primary_succeeded p best fine (rw (fine, try_sorted) refl)
      | inr (e, bad) ↦
          elim (Bool-cases (should_failover triggers (some e) (try_provider p).status_code)) [
            | inl over ↦
                raced p e (p ∷ q ∷ qs) _ best bad over perm
                  (all_sent-Race race (p ∷ q ∷ qs) same (omega arith))
                  (rw (bad, try_sorted, over) refl)
            | inr keeps ↦ primary_kept p e best bad keeps (rw (bad, try_sorted, keeps) refl)
          ]
    ]

try_single :
    (triggers : List FailoverTrigger) (try_provider : ProviderInfo → Attempt)
    (race : List ProviderInfo → List RoutingResult) (h : ProviderInfo)
    → try_sorted triggers try_provider race (sort_by_priority (h ∷ []))
      ≡ ok (chosen h (try_provider h).error)
unfolding try_sorted sort_by_priority insert_by_priority
try_single triggers try_provider race h = refl

-- When the healthy providers are not none and have priorities whose differences fit an `int`,
-- and a race sends one result for each of its providers, `SelectWithRetry` tries a lone provider
-- once, and otherwise the first provider of the highest priority: its success and an error that
-- no trigger matches are returned as they are, and an error that a trigger matches leads to a
-- race of all healthy providers, that first one included, which the first success wins and which
-- else ends with the last error.
pub select_with_retry-Retried :
    (lo : Lo) (triggers : List FailoverTrigger) (try_provider : ProviderInfo → Attempt)
    (race : List ProviderInfo → List RoutingResult) (ps hs : List ProviderInfo)
    → ((order : List ProviderInfo) → length (race order) ≡ length order)
    → keep healthy ps ≡ hs
    → is_empty hs ≡ false
    → All HasSmallPriority hs
    → Retried triggers try_provider race hs (select_with_retry lo triggers try_provider race ps)
unfolding select_with_retry filter_healthy
select_with_retry-Retried lo triggers try_provider race [] hs same e up small =
    absurd (ground arith)
select_with_retry-Retried lo triggers try_provider race (x ∷ ps) [] same e up small = absurd (cc)
select_with_retry-Retried lo triggers try_provider race (x ∷ ps) (h ∷ []) same e up small =
    rw (lo.filter_lem healthy (x ∷ ps), e) (alone h refl (try_single triggers try_provider race h))
select_with_retry-Retried lo triggers try_provider race (x ∷ ps) (h ∷ k ∷ hs) same e up small =
    let (p, rest, sorted, best) = sort_by_priority-IsFirstBest h (k ∷ hs) small in
    rw (lo.filter_lem healthy (x ∷ ps), e)
      (go p rest sorted best
        (subst (λ xs. Permᴰ xs (h ∷ k ∷ hs)) sorted (sort_by_priority-perm (h ∷ k ∷ hs))))
  where
    go :
        (p : ProviderInfo) (rest : List ProviderInfo)
        → sort_by_priority (h ∷ k ∷ hs) ≡ p ∷ rest
        → IsFirstBest p (h ∷ k ∷ hs)
        → Permᴰ (p ∷ rest) (h ∷ k ∷ hs)
        → Retried triggers try_provider race
            (h ∷ k ∷ hs)
            (try_sorted triggers try_provider race (sort_by_priority (h ∷ k ∷ hs)))
    go p [] sorted best perm = absurd (omega (arith, length-perm perm))
    go p (q ∷ qs) sorted best perm =
        rw sorted (try_sorted-Retried triggers try_provider race p q qs _ (same _) perm best)
