-- ===== src/Router/LeastLoaded/Tracking.antt =====
-- The counters of the least-loaded router through any sequence of calls.
use text.Mathlib.TextEquality.{eq_iff}
use cc_relay.Base.{
  ℕ, all_providers_unhealthy, ◌+◌, ◌^◌, ◌<◌, ◌≤◌, ◌≡◌, subst, refl, ap, ◌∙◌, Bool, true, false,
  none, some, List, [], ◌∷◌, String, arith, Result, ok, err, panic, ℤ, pos, negsuc, pos_part,
  neg_part, ◌+ℤ◌, +ℤ_parts, parts_zero, sub_ℕ, eq_of_parts, Lo, is_empty, length, lookup, insert,
  lookup-insert, Draw, Option-cases, inl, inr, Bool-cases, if◌then◌else◌, str_eq,
}
use cc_relay.Router.Info.{Provider, ProviderInfo, with_healthy, filter_healthy}
use cc_relay.Router.LeastLoaded.{
  LeastLoadedRouter, new_least_loaded_router, get_counter, consider, scan_loads, finish_scan,
  select_least_loaded, add_counter, acquire, release, load_of,
}

pub get_counter-load_of :
    (r : LeastLoadedRouter) (name : String) → (get_counter r name).0 ≡ load_of r name
unfolding get_counter load_of
get_counter-load_of r name = elim (Option-cases (lookup name r.in_flight)) [
  | inl new ↦ rw (new, get_counter, load_of) refl
  | inr (count, old) ↦ rw (old, get_counter, load_of) refl
]

-- Reading a counter may create it, which no load shows.
pub load_of-get_counter :
    (r : LeastLoadedRouter) (name other : String)
    → load_of (get_counter r name).1 other ≡ load_of r other
unfolding get_counter load_of
load_of-get_counter r name other = elim (Option-cases (lookup name r.in_flight)) [
  | inl new ↦ rw (new, get_counter) (created new)
  | inr (count, old) ↦ rw (old, get_counter) refl
]
  where
    created :
        lookup name r.in_flight ≡ none
        → load_of (record { in_flight = insert name (pos 0) r.in_flight }) other ≡ load_of r other
    created new =
        ground (arith, eq_iff name other, new, lookup-insert other name (pos 0) r.in_flight)

pub load_of-add_counter :
    (delta : ℤ) (r : LeastLoadedRouter) (name other : String)
    → load_of (add_counter delta r name) other
      ≡ (if str_eq name other then load_of r name +ℤ delta else load_of r other)
unfolding add_counter load_of
load_of-add_counter delta r name other =
    raised (get_counter r name).1 (get_counter r name).0
    ∙ cc (get_counter-load_of r name, load_of-get_counter r name other)
  where
    raised :
        (s : LeastLoadedRouter) (count : ℤ)
        → load_of (record { in_flight = insert name (count +ℤ delta) s.in_flight }) other
          ≡ (if str_eq name other then count +ℤ delta else load_of s other)
    raised s count = ground (arith, lookup-insert other name (count +ℤ delta) s.in_flight)

pub scan_loads-step :
    (best : ℤ × List ProviderInfo) (r : LeastLoadedRouter) (p : ProviderInfo)
    (ps : List ProviderInfo) (provider : Provider)
    → p.provider ≡ some provider
    → scan_loads best r (p ∷ ps)
      ≡ scan_loads (consider p (load_of r provider.name) best) (get_counter r provider.name).1 ps
unfolding scan_loads
scan_loads-step best r p ps provider e =
    ap
      (λ o. elim o as (λ x. Result (ℤ × List ProviderInfo) × LeastLoadedRouter) [
        | none ↦ (panic, r)
        | some q ↦ let (load, r') = get_counter r q.name in scan_loads (consider p load best) r' ps
      ])
      e
    ∙ ap (λ load. scan_loads (consider p load best) (get_counter r provider.name).1 ps)
        (get_counter-load_of r provider.name)

pub load_of-scan_loads :
    (ps : List ProviderInfo) (best : ℤ × List ProviderInfo) (r : LeastLoadedRouter) (name : String)
    → load_of (scan_loads best r ps).1 name ≡ load_of r name
unfolding scan_loads
load_of-scan_loads [] best r name = refl
load_of-scan_loads (p ∷ ps) best r name = elim (Option-cases p.provider) [
  | inl nil ↦ rw (nil, scan_loads) refl
  | inr (provider, e) ↦
      ap (λ (x : Result (ℤ × List ProviderInfo) × LeastLoadedRouter). load_of x.1 name)
        (scan_loads-step best r p ps provider e)
      ∙ load_of-scan_loads ps (consider p (load_of r provider.name) best)
          (get_counter r provider.name).1 name
      ∙ load_of-get_counter r provider.name name
]

load_of-finish_scan :
    (draw : Draw) (x : Result (ℤ × List ProviderInfo) × LeastLoadedRouter) (name : String)
    → load_of (finish_scan draw x).1 name ≡ load_of x.1 name
unfolding finish_scan
load_of-finish_scan draw (ok best, r) name = refl
load_of-finish_scan draw (err e, r) name = refl
load_of-finish_scan draw (panic, r) name = refl

load_of-select_least_loaded :
    (lo : Lo) (draw : Draw) (r : LeastLoadedRouter) (ps : List ProviderInfo) (name : String)
    → load_of (select_least_loaded lo draw r ps).1 name ≡ load_of r name
unfolding select_least_loaded with_healthy
load_of-select_least_loaded lo draw r [] name = refl
load_of-select_least_loaded lo draw r (p ∷ ps) name = go (filter_healthy lo (p ∷ ps))
  where
    go :
        (hs : List ProviderInfo)
        → load_of
            (if is_empty hs
              then (err all_providers_unhealthy, r)
              else finish_scan draw (scan_loads (negsuc 0, []) r hs)).1
            name
          ≡ load_of r name
    go [] = refl
    go (h ∷ hs) =
        load_of-finish_scan draw (scan_loads (negsuc 0, []) r (h ∷ hs)) name
        ∙ load_of-scan_loads (h ∷ hs) (negsuc 0, []) r name

-- A call of the router.
pub data Call : Type 0 where
  acquiring releasing : Provider → Call
  selecting : Draw → List ProviderInfo → Call

unfoldable pub run_calls : Lo → LeastLoadedRouter → List Call → LeastLoadedRouter
run_calls lo r [] = r
run_calls lo r (acquiring p ∷ calls) = run_calls lo (acquire r p) calls
run_calls lo r (releasing p ∷ calls) = run_calls lo (release r p) calls
run_calls lo r (selecting draw ps ∷ calls) = run_calls lo (select_least_loaded lo draw r ps).1 calls

-- How often a provider was acquired, and released.
abbrev pub acquired : String → List Call → ℕ
acquired name [] = 0
acquired name (acquiring p ∷ calls) = (if str_eq p.name name then 1 else 0) + acquired name calls
acquired name (releasing p ∷ calls) = acquired name calls
acquired name (selecting draw ps ∷ calls) = acquired name calls

abbrev pub released : String → List Call → ℕ
released name [] = 0
released name (acquiring p ∷ calls) = released name calls
released name (releasing p ∷ calls) = (if str_eq p.name name then 1 else 0) + released name calls
released name (selecting draw ps ∷ calls) = released name calls

-- What one step up or down does to the parts of a load.
abbrev Steps : ℤ → ℤ → ℕ → ℕ → Type 0
Steps load load' up down =
    (pos_part load' + neg_part load + down ≡ neg_part load' + pos_part load + up)
    × (pos_part load' + neg_part load' ≤ pos_part load + neg_part load + 1)

up_Steps : (load : ℤ) → pos_part load + neg_part load + 1 < 2 ^ 63 → Steps load (load +ℤ pos 1) 1 0
up_Steps load fits =
    let exact = +ℤ_parts load (pos 1) (omega arith) in
    (omega (arith, exact), omega (arith, exact, parts_zero load, parts_zero (load +ℤ pos 1)))

down_Steps :
    (load : ℤ) → pos_part load + neg_part load + 1 < 2 ^ 63 → Steps load (load +ℤ negsuc 0) 0 1
down_Steps load fits =
    let exact = +ℤ_parts load (negsuc 0) (omega arith) in
    (omega (arith, exact), omega (arith, exact, parts_zero load, parts_zero (load +ℤ negsuc 0)))

add_counter-Steps :
    (delta : ℤ) (up down : ℕ) (r : LeastLoadedRouter) (name other : String)
    → Steps (load_of r name) (load_of r name +ℤ delta) up down
    → Steps
        (load_of r other)
        (load_of (add_counter delta r name) other)
        (if str_eq name other then up else 0)
        (if str_eq name other then down else 0)
add_counter-Steps delta up down r name other steps =
    rw (load_of-add_counter delta r name other) (elim (Bool-cases (str_eq name other)) [
      | inl same ↦ rw same (
          subst (λ n. Steps (load_of r n) (load_of r name +ℤ delta) up down)
            ((eq_iff name other).0 same) steps)
      | inr differ ↦ rw differ (omega arith, omega arith)
    ])

if_zero : (b : Bool) → ◌≡◌ {A = ℕ} (if b then 0 else 0) 0
if_zero true = refl
if_zero false = refl

run_calls-load_of :
    (lo : Lo) (calls : List Call) (r : LeastLoadedRouter) (name : String)
    → ((other : String)
        → pos_part (load_of r other) + neg_part (load_of r other) + length calls < 2 ^ 63)
    → pos_part (load_of (run_calls lo r calls) name)
        + neg_part (load_of r name)
        + released name calls
      ≡ neg_part (load_of (run_calls lo r calls) name)
        + pos_part (load_of r name)
        + acquired name calls
unfolding run_calls acquire release
run_calls-load_of lo [] r name fits = omega arith
run_calls-load_of lo (acquiring p ∷ calls) r name fits =
    let up = up_Steps (load_of r p.name) (omega (arith, fits p.name)) in
    let steps = λ (n : String). add_counter-Steps (pos 1) 1 0 r p.name n up in
    let later =
      run_calls-load_of lo calls (acquire r p) name (λ n. omega (arith, fits n, steps n)) in
    omega (arith, steps name, later, if_zero (str_eq p.name name))
run_calls-load_of lo (releasing p ∷ calls) r name fits =
    let down = down_Steps (load_of r p.name) (omega (arith, fits p.name)) in
    let steps = λ (n : String). add_counter-Steps (negsuc 0) 0 1 r p.name n down in
    let later =
      run_calls-load_of lo calls (release r p) name (λ n. omega (arith, fits n, steps n)) in
    omega (arith, steps name, later, if_zero (str_eq p.name name))
run_calls-load_of lo (selecting draw ps ∷ calls) r name fits =
    let same = λ (n : String). load_of-select_least_loaded lo draw r ps n in
    let fits' : (n : String)
        → pos_part (load_of r n) + neg_part (load_of r n) + length calls < 2 ^ 63 =
      λ n. omega (arith, fits n) in
    let later =
      run_calls-load_of lo calls (select_least_loaded lo draw r ps).1 name
        (λ n. (rw (same n) (fits' n))) in
    rw (same name) at later

sub_ℕ-balance :
    (p n a b : ℕ) → p + 0 + b ≡ n + 0 + a → p + neg_part (sub_ℕ a b) ≡ pos_part (sub_ℕ a b) + n
sub_ℕ-balance p n a b e = ground arith

-- After any sequence of fewer than 2^63 calls of `Acquire`, `Release` and `Select` on a new
-- least-loaded router, the load of a name is the number of its acquires minus the number of its
-- releases.
pub run_calls-balance :
    (lo : Lo) (calls : List Call) (name : String)
    → length calls < 2 ^ 63
    → load_of (run_calls lo new_least_loaded_router calls) name
      ≡ sub_ℕ (acquired name calls) (released name calls)
unfolding new_least_loaded_router load_of lookup
run_calls-balance lo calls name fits =
    let total =
      run_calls-load_of lo calls new_least_loaded_router name (λ n. omega (arith, fits)) in
    eq_of_parts _ _ (sub_ℕ-balance _ _ _ _ total)
