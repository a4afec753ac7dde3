-- ===== src/Router/Failover.antt =====
-- internal/router/failover.go: the healthy provider of the highest priority.
pub mod Best
use cc_relay.Base.{
  ◌≡◌, Bool, true, false, List, [], ◌∷◌, Result, at, ℤ, pos, ◌-ℤ◌, ltb_ℤ, Lo, if◌then◌else◌, ℕ,
}
use cc_relay.Router.Info.{ProviderInfo, with_healthy}

-- The comparison that `slices.SortStableFunc` is given.
unfoldable pub by_priority : ProviderInfo → ProviderInfo → ℤ
by_priority a b = b.priority -ℤ a.priority

-- `slices.SortStableFunc` by insertion: an element goes behind those that compare less than it. (The
-- result of a stable sort does not depend on the algorithm where the comparison is a weak order.)
unfoldable pub insert_by_priority : ProviderInfo → List ProviderInfo → List ProviderInfo
unfolding by_priority
insert_by_priority p [] = p ∷ []
insert_by_priority p (q ∷ qs) =
    if ltb_ℤ (by_priority q p) (pos 0) then q ∷ insert_by_priority p qs else p ∷ q ∷ qs

unfoldable pub sort_by_priority : List ProviderInfo → List ProviderInfo
unfolding insert_by_priority
sort_by_priority [] = []
sort_by_priority (p ∷ ps) = insert_by_priority p (sort_by_priority ps)

-- The router's triggers and timeout are fixed; `Select` reads neither.
unfoldable pub select_failover : {S : Type 0} → Lo → S → List ProviderInfo → Result ProviderInfo × S
unfolding sort_by_priority
select_failover lo r providers =
    with_healthy lo r providers (λ healthy. (at (sort_by_priority healthy) 0, r))
