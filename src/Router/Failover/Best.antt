-- ===== src/Router/Failover/Best.antt =====
-- The stable sort by priority: it reorders, and puts the first provider of the highest priority in
-- front.
use mathlib.Core.List.Permᴰ
use cc_relay.Base.{
  ◌^◌, ◌≤◌, ◌<◌, ◌≡◌, refl, ap, sym, ◌∙◌, Bool, true, false, List, [], ◌∷◌, ◌++◌, arith, ok, at,
  pos, pos_part, neg_part, ◌≤ℤ◌, ◌<ℤ◌, ◌-ℤ◌, -ℤ_parts, parts_zero, ltb_ℤ, Lo, keep, is_empty, All,
  Permᴰ, Bool-cases, inl, inr, ltb→lt, ltb→ge, All-append, All-middle, subst, if◌then◌else◌,
}
use cc_relay.Router.Info.{ProviderInfo, healthy, with_healthy-passes}
use cc_relay.Router.Failover.{by_priority, insert_by_priority, sort_by_priority, select_failover}

-- Priorities whose differences fit an `int`.
abbrev pub HasSmallPriority : ProviderInfo → Type 0
HasSmallPriority p = (pos_part p.priority < 2 ^ 62) × (neg_part p.priority ≤ 2 ^ 62)

pub insert_by_priority-perm :
    (p : ProviderInfo) (ps : List ProviderInfo) → Permᴰ (insert_by_priority p ps) (p ∷ ps)
unfolding insert_by_priority
insert_by_priority-perm p [] = Permᴰ.refl (p ∷ [])
insert_by_priority-perm p (q ∷ ps) = elim (Bool-cases (ltb_ℤ (by_priority q p) (pos 0))) [
  | inl behind ↦
      rw behind
        (Permᴰ.trans (Permᴰ.cons refl (insert_by_priority-perm p ps)) (Permᴰ.swap refl refl))
  | inr front ↦ rw front (Permᴰ.refl (p ∷ q ∷ ps))
]

pub sort_by_priority-perm : (ps : List ProviderInfo) → Permᴰ (sort_by_priority ps) ps
unfolding sort_by_priority
sort_by_priority-perm [] = Permᴰ.nil
sort_by_priority-perm (p ∷ ps) =
    Permᴰ.trans (insert_by_priority-perm p (sort_by_priority ps))
      (Permᴰ.cons refl (sort_by_priority-perm ps))

-- `p` is the first of the highest priority in a list.
pub record IsFirstBest (p : ProviderInfo) (ps : List ProviderInfo) : Type 0 where
  pub before : List ProviderInfo
  pub after : List ProviderInfo
  pub split : ps ≡ before ++ (p ∷ after)
  pub above : All (λ (q : ProviderInfo). q.priority <ℤ p.priority) before
  pub tops : All (λ (q : ProviderInfo). q.priority ≤ℤ p.priority) after

-- The comparison is exact on small priorities.
by_priority-neg :
    (p q : ProviderInfo) (b : Bool)
    → HasSmallPriority p
    → HasSmallPriority q
    → ltb_ℤ (by_priority q p) (pos 0) ≡ b
    → (if b then p.priority <ℤ q.priority else q.priority ≤ℤ p.priority)
unfolding by_priority
by_priority-neg p q true hp hq e =
    let exact = -ℤ_parts p.priority q.priority (omega (arith, parts_zero p.priority)) in
    omega (arith, exact, ltb→lt _ _ e, parts_zero (p.priority -ℤ q.priority))
by_priority-neg p q false hp hq e =
    let exact = -ℤ_parts p.priority q.priority (omega (arith, parts_zero p.priority)) in
    omega (arith, exact, ltb→ge _ _ e, parts_zero (p.priority -ℤ q.priority))

All-below :
    (p q : ProviderInfo) (ps : List ProviderInfo)
    → q.priority ≤ℤ p.priority
    → All (λ (x : ProviderInfo). x.priority <ℤ q.priority) ps
    → All (λ (x : ProviderInfo). x.priority ≤ℤ p.priority) ps
All-below p q [] le all = tt
All-below p q (x ∷ ps) le all = (omega (arith, le, all.0), All-below p q ps le all.1)

All-le :
    (p q : ProviderInfo) (ps : List ProviderInfo)
    → q.priority ≤ℤ p.priority
    → All (λ (x : ProviderInfo). x.priority ≤ℤ q.priority) ps
    → All (λ (x : ProviderInfo). x.priority ≤ℤ p.priority) ps
All-le p q [] le all = tt
All-le p q (x ∷ ps) le all = (omega (arith, le, all.0), All-le p q ps le all.1)

-- The head of the sorted list.
pub sort_by_priority-IsFirstBest :
    (p : ProviderInfo) (ps : List ProviderInfo)
    → All HasSmallPriority (p ∷ ps)
    → (h : ProviderInfo) × (rest : List ProviderInfo) × (sort_by_priority (p ∷ ps) ≡ h ∷ rest)
      × IsFirstBest h (p ∷ ps)
unfolding sort_by_priority
sort_by_priority-IsFirstBest p [] small =
    (p, [], refl, record { before = []; after = []; split = refl; above = tt; tops = tt })
sort_by_priority-IsFirstBest p (q ∷ qs) small =
    let (h, rest, e, best) = sort_by_priority-IsFirstBest q qs small.1 in
    let small_h =
      All-middle HasSmallPriority best.before h best.after
        (subst (All HasSmallPriority) best.split small.1) in
    elim (Bool-cases (ltb_ℤ (by_priority h p) (pos 0))) [
      | inl behind ↦ (
        h,
        insert_by_priority p rest,
        rw (e, insert_by_priority, behind) refl,
        record {
          before = p ∷ best.before;
          after = best.after;
          split = ap (◌∷◌ p) best.split;
          above = (by_priority-neg p h true small.0 small_h behind, best.above);
          tops = best.tops;
        },
      )
      | inr front ↦
          let le : h.priority ≤ℤ p.priority = by_priority-neg p h false small.0 small_h front in
          (
            p,
            h ∷ rest,
            rw (e, insert_by_priority, front) refl,
            record {
              before = [];
              after = q ∷ qs;
              split = refl;
              above = tt;
              tops = subst (All (λ (x : ProviderInfo). x.priority ≤ℤ p.priority)) (sym best.split) (
                  All-append (λ (x : ProviderInfo). x.priority ≤ℤ p.priority) best.before _
                    (All-below p h best.before le best.above)
                    (le, All-le p h best.after le best.tops));
            },
          )
    ]

-- When the healthy providers are not none and have priorities whose differences fit an `int`,
-- the failover `Select` returns the first of those with the highest priority.
pub select_failover-IsFirstBest :
    (lo : Lo) (ps hs : List ProviderInfo)
    → keep healthy ps ≡ hs
    → is_empty hs ≡ false
    → All HasSmallPriority hs
    → (p : ProviderInfo) × ((select_failover lo tt ps).0 ≡ ok p) × IsFirstBest p hs
unfolding select_failover
select_failover-IsFirstBest lo ps [] e up small = absurd (cc)
select_failover-IsFirstBest lo ps (h ∷ hs) e up small =
    let (p, rest, sorted, best) = sort_by_priority-IsFirstBest h hs small in
    (
      p,
      ap (λ r. r.0)
            (with_healthy-passes lo tt ps (h ∷ hs)
              (λ healthy. (at (sort_by_priority healthy) 0, tt)) e up)
          ∙ rw sorted refl,
      best,
    )
