-- ===== src/Base/Tiers.antt =====
-- Tiers by priority, highest first: `groupByPriorityDesc` of
-- internal/router/priority_weighted_failover.go and the first half of `PriorityTierSelector.Select` in
-- internal/keypool/priority_tier.go. The Go map from a priority to its tier is an association list;
-- its order, which Go leaves open, is lost in the sort of its distinct levels.
use Prim.Native.Nat.{◌+◌}
use mathlib.Core.Path.{◌≡◌, refl}
use mathlib.Core.Bool.{false}
use mathlib.Core.List.{List, [], ◌∷◌, ◌++◌, Permᴰ, append_assoc, append-nil}
use mathlib.Core.List.Permᴰ
use native.Mathlib.Omega.{arith}
use mathlib.Core.Logic.{inl, inr, ◌≢◌}
use cc_relay.Base.Tests.{if◌then◌else◌, Bool-cases, ltb→lt, ltb→ge}
use cc_relay.Base.Lists.{All, is_empty, All-append}
use cc_relay.Base.Int.{ℤ, ◌≤ℤ◌, ◌<ℤ◌, ltb_ℤ, eqb_ℤ, eq_of_parts, pos_part, neg_part}

module _ {A : Type 0} where
  -- `tiers[p] = append(tiers[p], x)`.
  unfoldable pub add_tier : ℤ → A → List (ℤ × List A) → List (ℤ × List A)
  add_tier p x [] = (p, x ∷ []) ∷ []
  add_tier p x ((l, ys) ∷ ts) =
      if eqb_ℤ l p then (l, ys ++ x ∷ []) ∷ ts else (l, ys) ∷ add_tier p x ts

  unfoldable pub insert_tier : ℤ × List A → List (ℤ × List A) → List (ℤ × List A)
  insert_tier t [] = t ∷ []
  insert_tier t (u ∷ ts) = if ltb_ℤ t.0 u.0 then u ∷ insert_tier t ts else t ∷ u ∷ ts

  unfoldable pub sort_tiers : List (ℤ × List A) → List (ℤ × List A)
  unfolding insert_tier
  sort_tiers [] = []
  sort_tiers (t ∷ ts) = insert_tier t (sort_tiers ts)

  -- All elements, tier by tier.
  abbrev pub flat : List (ℤ × List A) → List A
  flat [] = []
  flat (t ∷ ts) = t.1 ++ flat ts

  -- Levels fall.
  abbrev pub Falls : List (ℤ × List A) → Type 0
  Falls [] = Unit
  Falls (t ∷ ts) = All (λ u. u.0 <ℤ t.0) ts × Falls ts

  -- No level occurs twice.
  abbrev pub Differ : List (ℤ × List A) → Type 0
  Differ [] = Unit
  Differ (t ∷ ts) = All (λ u. u.0 ≢ t.0) ts × Differ ts

eqb_ℤ-ne : (l p : ℤ) → eqb_ℤ l p ≡ false → p ≢ l
eqb_ℤ-ne l p other same = ground (arith, same)

lt_of_ne : (a b : ℤ) → a ≤ℤ b → a ≢ b → a <ℤ b
lt_of_ne a b le ne =
    let apart : ¬ (pos_part a + neg_part b ≡ pos_part b + neg_part a) =
      λ e. ne (eq_of_parts a b e) in
    omega (arith, le, apart)

module _ {A : Type 0} (priority : A → ℤ) where
  unfoldable pub collect_tiers : List A → List (ℤ × List A) → List (ℤ × List A)
  unfolding add_tier
  collect_tiers [] ts = ts
  collect_tiers (x ∷ xs) ts = collect_tiers xs (add_tier (priority x) x ts)

  unfoldable pub group_by_priority_desc : List A → List (ℤ × List A)
  unfolding sort_tiers collect_tiers
  group_by_priority_desc xs = sort_tiers (collect_tiers xs [])

  -- A tier is not empty, and all in it have its level.
  abbrev pub IsTier : ℤ × List A → Type 0
  IsTier t = (is_empty t.1 ≡ false) × All (λ x. priority x ≡ t.0) t.1

  pub record IsTiered (xs : List A) (ts : List (ℤ × List A)) : Type 0 where
    pub complete : Permᴰ (flat ts) xs
    pub falls : Falls ts
    pub tiers : All IsTier ts

  append-not-empty : (ys : List A) (x : A) → is_empty (ys ++ x ∷ []) ≡ false
  append-not-empty [] x = refl
  append-not-empty (y ∷ ys) x = refl

  add_tier-IsTier :
      (x : A) (ts : List (ℤ × List A)) → All IsTier ts → All IsTier (add_tier (priority x) x ts)
  unfolding add_tier
  add_tier-IsTier x [] all = ((refl, (refl, tt)), tt)
  add_tier-IsTier x ((l, ys) ∷ ts) all = elim (Bool-cases (eqb_ℤ l (priority x))) [
    | inl same ↦
        let e : priority x ≡ l = eq_of_parts (priority x) l (ground (arith, same)) in
        rw same
          ((append-not-empty ys x, All-append (λ y. priority y ≡ l) ys _ all.0.1 (e, tt)), all.1)
    | inr other ↦ rw other (all.0, add_tier-IsTier x ts all.1)
  ]

  add_tier-perm :
      (x : A) (ts : List (ℤ × List A)) → Permᴰ (flat (add_tier (priority x) x ts)) (x ∷ flat ts)
  unfolding add_tier
  add_tier-perm x [] = Permᴰ.refl (x ∷ [])
  add_tier-perm x ((l, ys) ∷ ts) = elim (Bool-cases (eqb_ℤ l (priority x))) [
    | inl same ↦ rw (same, append_assoc) (Permᴰ.middle x ys (flat ts))
    | inr other ↦
        rw other
          (Permᴰ.trans (Permᴰ.append_left ys (add_tier-perm x ts)) (Permᴰ.middle x ys (flat ts)))
  ]

  add_tier-levels {κ} :
      (P : ℤ → Type κ) (p : ℤ) (x : A) (ts : List (ℤ × List A))
      → P p
      → All (λ u. P u.0) ts
      → All (λ u. P u.0) (add_tier p x ts)
  unfolding add_tier
  add_tier-levels P p x [] here all = (here, tt)
  add_tier-levels P p x ((l, ys) ∷ ts) here all = elim (Bool-cases (eqb_ℤ l p)) [
    | inl same ↦ rw same (all.0, all.1)
    | inr other ↦ rw other (all.0, add_tier-levels P p x ts here all.1)
  ]

  add_tier-Differ : (p : ℤ) (x : A) (ts : List (ℤ × List A)) → Differ ts → Differ (add_tier p x ts)
  unfolding add_tier
  add_tier-Differ p x [] differ = (tt, tt)
  add_tier-Differ p x ((l, ys) ∷ ts) differ = elim (Bool-cases (eqb_ℤ l p)) [
    | inl same ↦ rw same (differ.0, differ.1)
    | inr other ↦ rw other (
      add_tier-levels (λ m. m ≢ l) p x ts (eqb_ℤ-ne l p other) differ.0,
      add_tier-Differ p x ts differ.1,
    )
  ]

  pub collect_tiers-Differ :
      (xs : List A) (ts : List (ℤ × List A)) → Differ ts → Differ (collect_tiers xs ts)
  unfolding collect_tiers
  collect_tiers-Differ [] ts differ = differ
  collect_tiers-Differ (x ∷ xs) ts differ =
      collect_tiers-Differ xs _ (add_tier-Differ (priority x) x ts differ)

  collect_tiers-IsTier :
      (xs : List A) (ts : List (ℤ × List A)) → All IsTier ts → All IsTier (collect_tiers xs ts)
  unfolding collect_tiers
  collect_tiers-IsTier [] ts all = all
  collect_tiers-IsTier (x ∷ xs) ts all = collect_tiers-IsTier xs _ (add_tier-IsTier x ts all)

  collect_tiers-perm :
      (xs : List A) (ts : List (ℤ × List A)) → Permᴰ (flat (collect_tiers xs ts)) (xs ++ flat ts)
  unfolding collect_tiers
  collect_tiers-perm [] ts = Permᴰ.refl (flat ts)
  collect_tiers-perm (x ∷ xs) ts =
      Permᴰ.trans (collect_tiers-perm xs (add_tier (priority x) x ts))
        (Permᴰ.trans (Permᴰ.append_left xs (add_tier-perm x ts)) (Permᴰ.middle x xs (flat ts)))

module _ {A : Type 0} where
  insert_tier-All {κ} :
      (P : ℤ × List A → Type κ) (t : ℤ × List A) (ts : List (ℤ × List A))
      → P t
      → All P ts
      → All P (insert_tier t ts)
  unfolding insert_tier
  insert_tier-All P t [] here all = (here, tt)
  insert_tier-All P t (u ∷ ts) here all = elim (Bool-cases (ltb_ℤ t.0 u.0)) [
    | inl below ↦ rw below (all.0, insert_tier-All P t ts here all.1)
    | inr above ↦ rw above (here, all)
  ]

  All-level-trans :
      (a b : ℤ) (ts : List (ℤ × List A)) → a <ℤ b → All (λ u. u.0 <ℤ a) ts → All (λ u. u.0 <ℤ b) ts
  All-level-trans a b [] h all = tt
  All-level-trans a b (u ∷ ts) h all = (omega (arith, h, all.0), All-level-trans a b ts h all.1)

  insert_tier-Falls :
      (t : ℤ × List A) (ts : List (ℤ × List A))
      → All (λ u. u.0 ≢ t.0) ts
      → Falls ts
      → Falls (insert_tier t ts)
  unfolding insert_tier
  insert_tier-Falls t [] new falls = (tt, tt)
  insert_tier-Falls t (u ∷ ts) new falls = elim (Bool-cases (ltb_ℤ t.0 u.0)) [
    | inl below ↦ rw below (
      insert_tier-All (λ v. v.0 <ℤ u.0) t ts (ltb→lt _ _ below) falls.0,
      insert_tier-Falls t ts new.1 falls.1,
    )
    | inr above ↦
        let lt = lt_of_ne u.0 t.0 (ltb→ge _ _ above) new.0 in
        rw above ((lt, All-level-trans u.0 t.0 ts lt falls.0), falls)
  ]

  insert_tier-perm :
      (t : ℤ × List A) (ts : List (ℤ × List A)) → Permᴰ (flat (insert_tier t ts)) (t.1 ++ flat ts)
  unfolding insert_tier
  insert_tier-perm t [] = Permᴰ.refl (t.1 ++ [])
  insert_tier-perm t (u ∷ ts) = elim (Bool-cases (ltb_ℤ t.0 u.0)) [
    | inl below ↦
        rw below (
          Permᴰ.trans (Permᴰ.append_left u.1 (insert_tier-perm t ts))
            (swap_front u.1 t.1 (flat ts)))
    | inr above ↦ rw above (Permᴰ.refl (t.1 ++ (u.1 ++ flat ts)))
  ]
    where
      swap_front : (xs ys zs : List A) → Permᴰ (xs ++ (ys ++ zs)) (ys ++ (xs ++ zs))
      swap_front xs ys zs =
          rw (← append_assoc, ← append_assoc) (Permᴰ.append_right zs (Permᴰ.append_comm xs ys))

  sort_tiers-perm : (ts : List (ℤ × List A)) → Permᴰ (flat (sort_tiers ts)) (flat ts)
  unfolding sort_tiers
  sort_tiers-perm [] = Permᴰ.nil
  sort_tiers-perm (t ∷ ts) =
      Permᴰ.trans (insert_tier-perm t (sort_tiers ts)) (Permᴰ.append_left t.1 (sort_tiers-perm ts))

  pub sort_tiers-All {κ} :
      (P : ℤ × List A → Type κ) (ts : List (ℤ × List A)) → All P ts → All P (sort_tiers ts)
  unfolding sort_tiers
  sort_tiers-All P [] all = all
  sort_tiers-All P (t ∷ ts) all =
      insert_tier-All P t (sort_tiers ts) all.0 (sort_tiers-All P ts all.1)

module _ {A : Type 0} where
  sort_tiers-Falls : (ts : List (ℤ × List A)) → Differ ts → Falls (sort_tiers ts)
  unfolding sort_tiers
  sort_tiers-Falls [] differ = tt
  sort_tiers-Falls (t ∷ ts) differ =
      insert_tier-Falls t (sort_tiers ts) (sort_tiers-All (λ u. u.0 ≢ t.0) ts differ.0)
        (sort_tiers-Falls ts differ.1)

-- The groups hold all elements, each in a group of its own priority, and the levels fall.
pub group_by_priority_desc-IsTiered :
    {A : Type 0} (priority : A → ℤ) (xs : List A)
    → IsTiered priority xs (group_by_priority_desc priority xs)
unfolding group_by_priority_desc
group_by_priority_desc-IsTiered priority xs = record {
  complete =
      Permᴰ.trans (sort_tiers-perm (collect_tiers priority xs []))
        (rw append-nil at (collect_tiers-perm priority xs []));
  falls = sort_tiers-Falls _ (collect_tiers-Differ priority xs [] tt);
  tiers = sort_tiers-All (IsTier priority) _ (collect_tiers-IsTier priority xs [] tt);
}
