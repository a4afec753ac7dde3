-- ===== src/Router/LeastLoaded.antt =====
-- internal/router/least_loaded.go: the healthy provider with the fewest requests in flight.
pub mod Tracking
pub mod Scan
pub mod Ties
pub mod Lightest
use cc_relay.Base.{
  ℕ, ◌≡◌, Bool, true, false, ◌||◌, Option, none, some, List, [], ◌∷◌, ◌++◌, String, Result, ok, err,
  panic, at, ℤ, pos, negsuc, ◌+ℤ◌, eqb_ℤ, ltb_ℤ, Lo, length, lookup, insert, Draw, rand_intn,
  if◌then◌else◌, ◌==◌, ◌-ℤ◌,
}
use cc_relay.Router.Info.{Provider, ProviderInfo, with_healthy}
use cc_relay.Router.Failover.{sort_by_priority}

-- The counters by provider name. (Each is an `atomic.Int64` behind a pointer that the map alone holds.)
pub record LeastLoadedRouter : Type 0 where
  pub in_flight : List (String × ℤ)

unfoldable pub new_least_loaded_router : LeastLoadedRouter
new_least_loaded_router = record { in_flight = [] }

-- The counter's value; a missing counter is created at 0.
unfoldable pub get_counter : LeastLoadedRouter → String → ℤ × LeastLoadedRouter
get_counter r name = elim (lookup name r.in_flight) [
  | some count ↦ (count, r)
  | none ↦ (pos 0, record { in_flight = insert name (pos 0) r.in_flight })
]

-- One round of the loop over the healthy providers: the least load and its candidates, so far.
unfoldable pub consider : ProviderInfo → ℤ → ℤ × List ProviderInfo → ℤ × List ProviderInfo
consider p load (min_load, candidates) =
    if eqb_ℤ min_load (negsuc 0) || ltb_ℤ load min_load
    then (load, p ∷ [])
    else if eqb_ℤ load min_load
    then (min_load, candidates ++ p ∷ [])
    else (min_load, candidates)

-- The loop; `Name` of a nil provider panics.
unfoldable pub scan_loads :
    ℤ × List ProviderInfo
    → LeastLoadedRouter
    → List ProviderInfo
    → Result (ℤ × List ProviderInfo) × LeastLoadedRouter
scan_loads best r [] = (ok best, r)
scan_loads best r (p ∷ ps) = elim p.provider [
  | none ↦ (panic, r)
  | some provider ↦
      let (load, r') = get_counter r provider.name in scan_loads (consider p load best) r' ps
]

unfoldable pub take_priority : ℤ → List ProviderInfo → List ProviderInfo
take_priority highest [] = []
take_priority highest (p ∷ ps) =
    let rest = take_priority highest ps in if eqb_ℤ p.priority highest then p ∷ rest else []

unfoldable pub break_tie : Draw → List ProviderInfo → Result ProviderInfo
break_tie draw ties =
    if length ties == 1 then at ties 0 else at ties (rand_intn draw (pos (length ties)))

-- The lines below the loop, on the sorted candidates.
unfoldable pub pick_candidate : Draw → List ProviderInfo → Result ProviderInfo
pick_candidate draw [] = panic
pick_candidate draw (p ∷ ps) = break_tie draw (take_priority p.priority (p ∷ ps))

unfoldable pub finish_scan :
    Draw
    → Result (ℤ × List ProviderInfo) × LeastLoadedRouter
    → Result ProviderInfo × LeastLoadedRouter
finish_scan draw (ok best, r) = (pick_candidate draw (sort_by_priority best.1), r)
finish_scan draw (err e, r) = (err e, r)
finish_scan draw (panic, r) = (panic, r)

unfoldable pub select_least_loaded :
    Lo → Draw → LeastLoadedRouter → List ProviderInfo → Result ProviderInfo × LeastLoadedRouter
select_least_loaded lo draw r providers =
    with_healthy lo r providers (λ healthy. finish_scan draw (scan_loads (negsuc 0, []) r healthy))

-- `counter.Add(delta)`.
unfoldable pub add_counter : ℤ → LeastLoadedRouter → String → LeastLoadedRouter
add_counter delta r name =
    let (count, r') = get_counter r name in
    record { in_flight = insert name (count +ℤ delta) r'.in_flight }

unfoldable pub acquire : LeastLoadedRouter → Provider → LeastLoadedRouter
acquire r provider = add_counter (pos 1) r provider.name

unfoldable pub release : LeastLoadedRouter → Provider → LeastLoadedRouter
release r provider = add_counter (negsuc 0) r provider.name

-- What a counter would show.
unfoldable pub load_of : LeastLoadedRouter → String → ℤ
load_of r name = elim (lookup name r.in_flight) [ none ↦ pos 0 | some count ↦ count ]
