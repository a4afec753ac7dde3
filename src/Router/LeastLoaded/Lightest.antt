-- ===== src/Router/LeastLoaded/Lightest.antt =====
-- What the least-loaded router picks: the least load, then the highest priority.
use cc_relay.Base.{
  At, All-At, All-keep, ◌≡◌, refl, ap, sym, ◌∙◌, Bool, true, false, List, [], ◌∷◌, arith, Result,
  ok, ℤ, negsuc, eqb_ℤ, ◌≤ℤ◌, eq_of_parts, Lo, keep, is_empty, All, Draw, inl, inr, Bool-cases,
  subst,
}
use cc_relay.Router.Info.{ProviderInfo, healthy, with_healthy-passes}
use cc_relay.Router.Failover.{sort_by_priority}
use cc_relay.Router.Failover.Best.{HasSmallPriority}
use cc_relay.Router.LeastLoaded.{
  LeastLoadedRouter, scan_loads, pick_candidate, finish_scan, select_least_loaded,
}
use cc_relay.Router.LeastLoaded.Scan.{provider_load, HasLoad, IsBest, scan_all}
use cc_relay.Router.LeastLoaded.Ties.{pick_candidate-All}

-- `p` has the least load in `hs`, and the highest priority among those of that load.
pub record IsLightest (r : LeastLoadedRouter) (p : ProviderInfo) (hs : List ProviderInfo)
    : Type 0 where
  pub member : At p hs
  pub least : All (λ (q : ProviderInfo). provider_load r p ≤ℤ provider_load r q) hs
  pub top :
      All
        (λ (q : ProviderInfo). q.priority ≤ℤ p.priority)
        (keep (λ (q : ProviderInfo). eqb_ℤ (provider_load r q) (provider_load r p)) hs)

All-keep_small :
    (test : ProviderInfo → Bool) (ps : List ProviderInfo)
    → All HasSmallPriority ps
    → All HasSmallPriority (keep test ps)
All-keep_small test [] all = tt
All-keep_small test (p ∷ ps) all = elim (Bool-cases (test p)) [
  | inl passes ↦ rw passes (all.0, All-keep_small test ps all.1)
  | inr fails ↦ rw fails (All-keep_small test ps all.1)
]

-- From the loop's invariant to the choice.
pick-IsLightest :
    (r : LeastLoadedRouter) (draw : Draw) (hs : List ProviderInfo) (low : ℤ)
    (cs : List ProviderInfo)
    → All HasSmallPriority hs
    → IsBest (provider_load r) hs (low, cs)
    → (p : ProviderInfo) × (pick_candidate draw (sort_by_priority cs) ≡ ok p) × IsLightest r p hs
pick-IsLightest r draw hs low [] small best = absurd (cc best.some_one)
pick-IsLightest r draw hs low (c ∷ cs) small best =
    let test = λ (q : ProviderInfo). eqb_ℤ (provider_load r q) low in
    let (p, picked, (member, of_low), top) =
      pick_candidate-All (λ q. At q hs × (test q ≡ true)) draw c cs
        (subst (All HasSmallPriority) (sym best.candidates) (All-keep_small test hs small))
        (subst (All (λ q. At q hs × (test q ≡ true))) (sym best.candidates)
          (All-keep (λ q. At q hs) test hs (All-At hs))) in
    let load : provider_load r p ≡ low = eq_of_parts _ _ (ground (arith, of_low)) in
    (
      p,
      picked,
      record {
        member = member;
        least = rw load best.least;
        top = rw (load, ← best.candidates) top;
      },
    )

-- When some provider is healthy and every healthy one is not nil, has a load that is not
-- negative and a priority whose differences fit an `int`, the least-loaded `Select` returns a
-- healthy provider whose load no healthy provider is below, and whose priority none of those
-- with the same load is above.
pub select_least_loaded-IsLightest :
    (lo : Lo) (draw : Draw) (r : LeastLoadedRouter) (ps hs : List ProviderInfo)
    → keep healthy ps ≡ hs
    → is_empty hs ≡ false
    → All (HasLoad r) hs
    → All HasSmallPriority hs
    → (p : ProviderInfo) × ((select_least_loaded lo draw r ps).0 ≡ ok p) × IsLightest r p hs
unfolding select_least_loaded finish_scan
select_least_loaded-IsLightest lo draw r ps [] e up loads small = absurd (cc)
select_least_loaded-IsLightest lo draw r ps (h ∷ hs) e up loads small =
    let ((low, cs), result, best) = scan_all r h hs loads in
    let (p, picked, lightest) = pick-IsLightest r draw (h ∷ hs) low cs small best in
    (
      p,
      ap (λ x. x.0)
            (with_healthy-passes lo r ps (h ∷ hs)
              (λ xs. finish_scan draw (scan_loads (negsuc 0, []) r xs)) e up)
          ∙ finish (scan_loads (negsuc 0, []) r (h ∷ hs)) low cs result
          ∙ picked,
      lightest,
    )
  where
    finish :
        (x : Result (ℤ × List ProviderInfo) × LeastLoadedRouter) (low : ℤ) (cs : List ProviderInfo)
        → x.0 ≡ ok (low, cs)
        → (finish_scan draw x).0 ≡ pick_candidate draw (sort_by_priority cs)
    finish x low cs result = rw (result, finish_scan) refl
