-- ===== src/Router/LeastLoaded/Ties.antt =====
-- The lines below the loop: a candidate of the highest priority.
use mathlib.Core.List.Permᴰ
use cc_relay.Base.{
  ==_iff, ◌≡◌, refl, sym, true, false, List, [], ◌∷◌, arith, ok, at-eq-ok, get_elem?_total,
  All-get_elem?, ℤ, pos, eqb_ℤ, ◌≤ℤ◌, ◌<ℤ◌, eq_of_parts, is_empty, length, All, All-append,
  All-perm, Draw, rand_intn, rand_intn-lt, inl, inr, Bool-cases, subst, ◌==◌,
}
use cc_relay.Router.Info.{ProviderInfo}
use cc_relay.Router.Failover.{sort_by_priority}
use cc_relay.Router.Failover.Best.{
  HasSmallPriority, IsFirstBest, sort_by_priority-IsFirstBest, sort_by_priority-perm,
}
use cc_relay.Router.LeastLoaded.{take_priority, break_tie, pick_candidate}

All-take_priority {κ} :
    (P : ProviderInfo → Type κ) (highest : ℤ) (ps : List ProviderInfo)
    → All P ps
    → All (λ (p : ProviderInfo). P p × (p.priority ≡ highest)) (take_priority highest ps)
unfolding take_priority
All-take_priority P highest [] all = tt
All-take_priority P highest (p ∷ ps) all = elim (Bool-cases (eqb_ℤ p.priority highest)) [
  | inl same ↦ rw same (
    (all.0, eq_of_parts p.priority highest (ground (arith, same))),
    All-take_priority P highest ps all.1,
  )
  | inr other ↦ rw other tt
]

-- The tie is broken by one of the ties.
break_tie-All {κ} :
    (P : ProviderInfo → Type κ) (draw : Draw) (ties : List ProviderInfo)
    → is_empty ties ≡ false
    → All P ties
    → (p : ProviderInfo) × (break_tie draw ties ≡ ok p) × P p
unfolding break_tie
break_tie-All P draw [] up all = absurd (cc)
break_tie-All P draw (t ∷ []) up all = (t, refl, all.0)
break_tie-All P draw (t ∷ u ∷ ts) up all =
    let ties = t ∷ u ∷ ts in
    let (p, e) =
      get_elem?_total ties (rand_intn draw (pos (length ties)))
        (rand_intn-lt draw (length ties) (omega arith)) in
    let many : (length ties == 1) ≡ false = ground arith in
    (
      p,
      rw many (at-eq-ok ties (rand_intn draw (pos (length ties))) e),
      All-get_elem? P ties (rand_intn draw (pos (length ties))) all e,
    )

first_stays :
    (h : ProviderInfo) (rest : List ProviderInfo)
    → is_empty (take_priority h.priority (h ∷ rest)) ≡ false
unfolding take_priority
first_stays h rest =
    let same : eqb_ℤ h.priority h.priority ≡ true = (==_iff _ _).1 refl in rw same refl

-- No priority is above that of the first best.
best_tops :
    (h : ProviderInfo) (ps : List ProviderInfo)
    → IsFirstBest h ps
    → All (λ (q : ProviderInfo). q.priority ≤ℤ h.priority) ps
best_tops h ps best =
    subst (All (λ (q : ProviderInfo). q.priority ≤ℤ h.priority)) (sym best.split) (
      All-append _ best.before (h ∷ best.after) (weaken best.before best.above)
        (omega arith, best.tops))
  where
    weaken :
        (qs : List ProviderInfo)
        → All (λ (q : ProviderInfo). q.priority <ℤ h.priority) qs
        → All (λ (q : ProviderInfo). q.priority ≤ℤ h.priority) qs
    weaken [] below = tt
    weaken (q ∷ qs) below = (omega (arith, below.0), weaken qs below.1)

-- Below the loop: a candidate of the highest priority.
pub pick_candidate-All {κ} :
    (P : ProviderInfo → Type κ) (draw : Draw) (c : ProviderInfo) (cs : List ProviderInfo)
    → All HasSmallPriority (c ∷ cs)
    → All P (c ∷ cs)
    → (p : ProviderInfo) × (pick_candidate draw (sort_by_priority (c ∷ cs)) ≡ ok p)
      × P p
      × All (λ (q : ProviderInfo). q.priority ≤ℤ p.priority) (c ∷ cs)
unfolding pick_candidate
pick_candidate-All P draw c cs small all =
    let (h, rest, sorted, best) = sort_by_priority-IsFirstBest c cs small in
    let all_sorted : All P (h ∷ rest) =
      subst (All P) sorted (All-perm P (Permᴰ.symm (sort_by_priority-perm (c ∷ cs))) all) in
    let (p, picked, (holds, level)) =
      break_tie-All (λ (q : ProviderInfo). P q × (q.priority ≡ h.priority)) draw
        (take_priority h.priority (h ∷ rest)) (first_stays h rest)
        (All-take_priority P h.priority (h ∷ rest) all_sorted) in
    (
      p,
      rw sorted picked,
      holds,
      subst (λ l. All (λ (q : ProviderInfo). q.priority ≤ℤ l) (c ∷ cs)) (sym level)
          (best_tops h (c ∷ cs) best),
    )
