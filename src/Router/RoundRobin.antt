-- ===== src/Router/RoundRobin.antt =====
-- internal/router/round_robin.go: the healthy providers in turn, by an atomic counter.
pub mod Rotation
use mathlib.Core.List.{append-nil}
use cc_relay.Base.{
  ℕ, zero, suc, ◌+◌, ◌-◌, ◌%◌, ◌^◌, ◌≤◌, ◌<◌, ◌≡◌, refl, ap, ◌∙◌, sym, Bool, true, false, List, [],
  ◌∷◌, ◌++◌, map, arith, Result, ok, err, panic, at, no_providers, Lo, keep, is_empty, length,
  get_elem?, get_elem?_total, take, drop, ltb, if◌then◌else◌, some,
}
use cc_relay.Router.Info.{
  ProviderInfo, healthy, Selects, with_healthy, with_healthy-passes, with_healthy-Selects,
  repeat_select, repeat_select-add,
}

-- `index` is a uint64.
pub record RoundRobinRouter : Type 0 where
  pub index : ℕ

unfoldable pub new_round_robin_router : RoundRobinRouter
new_round_robin_router = record { index = 0 }

abbrev max_int : ℕ
max_int = 2 ^ 63 - 1

-- `Select` below its guards. `atomic.AddUint64(&r.index, 1) - 1` wraps twice.
unfoldable pub select_next :
    RoundRobinRouter → List ProviderInfo → Result ProviderInfo × RoundRobinRouter
select_next r healthy =
    let index' = (r.index + 1) % 2 ^ 64 in
    let next_index = (index' + 2 ^ 64 - 1) % 2 ^ 64 in
    let idx64 = next_index % length healthy in
    (if ltb max_int idx64 then err no_providers else at healthy idx64, record { index = index' })

unfoldable pub select_round_robin :
    Lo → RoundRobinRouter → List ProviderInfo → Result ProviderInfo × RoundRobinRouter
select_round_robin lo r providers = with_healthy lo r providers (select_next r)

next-eq : (i : ℕ) → i < 2 ^ 64 → ((i + 1) % 2 ^ 64 + 2 ^ 64 - 1) % 2 ^ 64 ≡ i
next-eq i h = omega arith

pub select_next-lem :
    (r : RoundRobinRouter) (hs : List ProviderInfo)
    → r.index < 2 ^ 64
    → is_empty hs ≡ false
    → length hs < 2 ^ 63
    → select_next r hs ≡ (at hs (r.index % length hs), record { index = (r.index + 1) % 2 ^ 64 })
unfolding select_next
select_next-lem r hs small up fits = rw (next-eq r.index small) (ground arith)
