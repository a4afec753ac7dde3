-- ===== src/Router/LeastLoaded/Scan.antt =====
-- The loop of the least-loaded router: its candidates are the providers of the least load so far.
use mathlib.Core.List.{append_assoc, append-nil}
use cc_relay.Base.{
  ◌≡◌, refl, ap, sym, ◌∙◌, Bool, false, none, some, List, [], ◌∷◌, ◌++◌, String, arith, Result, ok,
  ℤ, pos, negsuc, neg_part, eqb_ℤ, ltb_ℤ, ◌≤ℤ◌, ◌<ℤ◌, keep, is_empty, All, All-append, inl, inr,
  Bool-cases, if◌then◌else◌, subst, ltb→lt, ltb→ge,
}
use cc_relay.Router.Info.{Provider, ProviderInfo}
use cc_relay.Router.LeastLoaded.{LeastLoadedRouter, get_counter, consider, scan_loads, load_of}
use cc_relay.Router.LeastLoaded.Tracking.{scan_loads-step, load_of-get_counter}

-- What the counters say of a provider.
abbrev pub provider_load : LeastLoadedRouter → ProviderInfo → ℤ
provider_load r p = elim p.provider [ none ↦ pos 0 | some provider ↦ load_of r provider.name ]

-- A provider that is there, with a load that is not negative.
abbrev pub HasLoad : LeastLoadedRouter → ProviderInfo → Type 0
HasLoad r p =
    (provider : Provider) × (p.provider ≡ some provider) × (neg_part (load_of r provider.name) ≡ 0)

module _ (load : ProviderInfo → ℤ) where
  abbrev pub of_load : ℤ → ProviderInfo → Bool
  of_load low q = eqb_ℤ (load q) low

  keep-append :
      (low : ℤ) (seen : List ProviderInfo) (p : ProviderInfo)
      → keep (of_load low) (seen ++ p ∷ [])
        ≡ (if of_load low p then keep (of_load low) seen ++ p ∷ [] else keep (of_load low) seen)
  keep-append low [] p = ground arith
  keep-append low (q ∷ seen) p = ground (arith, keep-append low seen p)

  keep-above :
      (low : ℤ) (seen : List ProviderInfo)
      → All (λ (q : ProviderInfo). low <ℤ load q) seen
      → keep (of_load low) seen ≡ []
  keep-above low [] above = refl
  keep-above low (q ∷ seen) above = ground (arith, above, keep-above low seen above.1)

  All-raise :
      (low low' : ℤ) (seen : List ProviderInfo)
      → low <ℤ low'
      → All (λ (q : ProviderInfo). low' ≤ℤ load q) seen
      → All (λ (q : ProviderInfo). low <ℤ load q) seen
  All-raise low low' [] lt all = tt
  All-raise low low' (q ∷ seen) lt all =
      (omega (arith, lt, all.0), All-raise low low' seen lt all.1)

  All-lt :
      (low : ℤ) (seen : List ProviderInfo)
      → All (λ (q : ProviderInfo). low <ℤ load q) seen
      → All (λ (q : ProviderInfo). low ≤ℤ load q) seen
  All-lt low [] all = tt
  All-lt low (q ∷ seen) all = (omega (arith, all.0), All-lt low seen all.1)

  -- The loop's invariant after the providers in `seen`.
  pub record IsBest (seen : List ProviderInfo) (best : ℤ × List ProviderInfo) : Type 0 where
    pub natural : neg_part best.0 ≡ 0
    pub least : All (λ (q : ProviderInfo). best.0 ≤ℤ load q) seen
    pub candidates : best.1 ≡ keep (of_load best.0) seen
    pub some_one : is_empty best.1 ≡ false

  append-not_empty : (xs ys : List ProviderInfo) → is_empty xs ≡ false → is_empty (xs ++ ys) ≡ false
  append-not_empty [] ys up = absurd (cc)
  append-not_empty (x ∷ xs) ys up = refl

  consider-first :
      (p : ProviderInfo)
      → neg_part (load p) ≡ 0
      → IsBest (p ∷ []) (consider p (load p) (negsuc 0, []))
  unfolding consider
  consider-first p natural = record {
    natural = natural;
    least = (omega arith, tt);
    candidates = ground arith;
    some_one = ground arith;
  }

  consider-next :
      (p : ProviderInfo) (best : ℤ × List ProviderInfo) (seen : List ProviderInfo)
      → neg_part (load p) ≡ 0
      → IsBest seen best
      → IsBest (seen ++ p ∷ []) (consider p (load p) best)
  unfolding consider
  consider-next p (low, cs) seen natural best = elim (Bool-cases (ltb_ℤ (load p) low)) [
    | inl lower ↦
        let fewer : load p <ℤ low = ltb→lt _ _ lower in
        let above = All-raise (load p) low seen fewer best.least in
        let step : consider p (load p) (low, cs) ≡ (load p, p ∷ []) = ground (arith, lower) in
        subst (IsBest (seen ++ p ∷ [])) (sym step) (record {
          natural = natural;
          least = All-append _ seen (p ∷ []) (All-lt (load p) seen above) (omega arith, tt);
          candidates = ground (arith, keep-append (load p) seen p, keep-above (load p) seen above);
          some_one = refl;
        })
    | inr not_lower ↦
        let least : All (λ (q : ProviderInfo). low ≤ℤ load q) (seen ++ p ∷ []) =
          All-append _ seen (p ∷ []) best.least (ltb→ge _ _ not_lower, tt) in
        elim (Bool-cases (eqb_ℤ (load p) low)) [
          | inl same ↦
              let step : consider p (load p) (low, cs) ≡ (low, cs ++ p ∷ []) =
                ground (arith, not_lower, same, best.natural) in
              subst (IsBest (seen ++ p ∷ [])) (sym step) (record {
                natural = best.natural;
                least = least;
                candidates =
                    ap (λ xs. xs ++ p ∷ []) best.candidates
                    ∙ sym (keep-append low seen p ∙ rw same refl);
                some_one = append-not_empty cs (p ∷ []) best.some_one;
              })
          | inr higher ↦
              let step : consider p (load p) (low, cs) ≡ (low, cs) =
                ground (arith, not_lower, higher, best.natural) in
              subst (IsBest (seen ++ p ∷ [])) (sym step) (record {
                natural = best.natural;
                least = least;
                candidates = best.candidates ∙ sym (keep-append low seen p ∙ rw higher refl);
                some_one = best.some_one;
              })
        ]
  ]

module _ (r : LeastLoadedRouter) where
  provider_load-eq :
      (p : ProviderInfo) (q : Provider) → p.provider ≡ some q → provider_load r p ≡ load_of r q.name
  provider_load-eq p q e =
      ap (λ o. elim o as (λ x. ℤ) [ none ↦ pos 0 | some provider ↦ load_of r provider.name ]) e

  -- What the loop gives from a state on, over the providers seen and those to come.
  abbrev pub Scans :
      List ProviderInfo → ℤ × List ProviderInfo → LeastLoadedRouter → List ProviderInfo → Type 0
  Scans seen best s ps =
      (best' : ℤ × List ProviderInfo) × ((scan_loads best s ps).0 ≡ ok best')
      × IsBest (provider_load r) (seen ++ ps) best'

  scan_loads-next :
      (p : ProviderInfo) (ps seen : List ProviderInfo) (best : ℤ × List ProviderInfo)
      (s : LeastLoadedRouter)
      → ((name : String) → load_of s name ≡ load_of r name)
      → HasLoad r p
      → IsBest (provider_load r) (seen ++ p ∷ []) (consider p (provider_load r p) best)
      → ((best' : ℤ × List ProviderInfo) (s' : LeastLoadedRouter)
          → ((name : String) → load_of s' name ≡ load_of r name)
          → IsBest (provider_load r) (seen ++ p ∷ []) best'
          → Scans (seen ++ p ∷ []) best' s' ps)
      → Scans seen best s (p ∷ ps)
  scan_loads-next p ps seen best s same (q, e, natural) inv ih =
      let load : load_of s q.name ≡ provider_load r p =
        same q.name ∙ sym (provider_load-eq p q e) in
      let (best', result, inv') =
        ih (consider p (load_of s q.name) best) (get_counter s q.name).1
          (λ name. load_of-get_counter s q.name name ∙ same name) (rw load inv) in
      (
        best',
        ap (λ (x : Result (ℤ × List ProviderInfo) × LeastLoadedRouter). x.0)
              (scan_loads-step best s p ps q e)
            ∙ result,
        rw append_assoc at inv',
      )

  scan_loads-IsBest :
      (ps seen : List ProviderInfo) (best : ℤ × List ProviderInfo) (s : LeastLoadedRouter)
      → ((name : String) → load_of s name ≡ load_of r name)
      → All (HasLoad r) ps
      → IsBest (provider_load r) seen best
      → Scans seen best s ps
  unfolding scan_loads
  scan_loads-IsBest [] seen best s same loads inv = (best, refl, rw append-nil inv)
  scan_loads-IsBest (p ∷ ps) seen best s same loads inv =
      let (q, e, natural) = loads.0 in
      scan_loads-next p ps seen best s same loads.0
        (consider-next (provider_load r) p best seen
          (ap neg_part (provider_load-eq p q e) ∙ natural) inv)
        (λ best' s' same' inv'. scan_loads-IsBest ps (seen ++ p ∷ []) best' s' same' loads.1 inv')

  pub scan_all :
      (h : ProviderInfo) (hs : List ProviderInfo)
      → All (HasLoad r) (h ∷ hs)
      → Scans [] (negsuc 0, []) r (h ∷ hs)
  scan_all h hs loads =
      let (q, e, natural) = loads.0 in
      scan_loads-next h hs [] (negsuc 0, []) r (λ name. refl) loads.0
        (consider-first (provider_load r) h (ap neg_part (provider_load-eq h q e) ∙ natural))
        (λ best' s' same' inv'. scan_loads-IsBest hs (h ∷ []) best' s' same' loads.1 inv')
