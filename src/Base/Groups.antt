-- ===== src/Base/Groups.antt =====
-- The groups of `groupByPriorityDesc` keep the order of the list.
use mathlib.Core.Path.{◌≡◌, refl, sym, ◌∙◌, ap}
use mathlib.Core.Bool.{Bool, true, false}
use mathlib.Core.List.{List, [], ◌∷◌, ◌++◌, append_assoc, append-nil}
use mathlib.Core.Logic.{inl, inr, ◌≢◌}
use native.Mathlib.Omega.{arith}
use cc_relay.Base.Tests.{if◌then◌else◌, Bool-cases}
use cc_relay.Base.Lists.{All, keep}
use cc_relay.Base.Int.{ℤ, eqb_ℤ, eq_of_parts}
use cc_relay.Base.Tiers.{
  add_tier, collect_tiers, group_by_priority_desc, Differ, collect_tiers-Differ, sort_tiers-All,
}

eqb_ℤ_refl : (l : ℤ) → eqb_ℤ l l ≡ true
eqb_ℤ_refl l = ground arith

eqb_ℤ-eq : (a b : ℤ) → eqb_ℤ a b ≡ true → a ≡ b
eqb_ℤ-eq a b e = eq_of_parts a b (ground (arith, e))

eqb_ℤ-apart : (a b : ℤ) → a ≢ b → eqb_ℤ a b ≡ false
eqb_ℤ-apart a b apart = elim (Bool-cases (eqb_ℤ a b)) [
  | inl same ↦ absurd (apart (eqb_ℤ-eq a b same))
  | inr other ↦ other
]

module _ {A : Type 0} where
  -- The elements of a level.
  unfoldable tier_of : ℤ → List (ℤ × List A) → List A
  tier_of l [] = []
  tier_of l (t ∷ ts) = let rest = tier_of l ts in if eqb_ℤ t.0 l then t.1 else rest

  tier_of-add_tier :
      (l p : ℤ) (x : A) (ts : List (ℤ × List A))
      → tier_of l (add_tier p x ts) ≡ (if eqb_ℤ p l then tier_of l ts ++ x ∷ [] else tier_of l ts)
  unfolding tier_of add_tier
  tier_of-add_tier l p x [] = refl
  tier_of-add_tier l p x ((m, ys) ∷ ts) = elim (Bool-cases (eqb_ℤ m p)) [
    | inl here ↦
        let same : eqb_ℤ m l ≡ eqb_ℤ p l = ap (λ k. eqb_ℤ k l) (eqb_ℤ-eq m p here) in
        rw (here, same) (both (eqb_ℤ p l) (ys) (tier_of l ts))
    | inr there ↦
        rw (there, tier_of-add_tier l p x ts)
          (elim (Bool-cases (eqb_ℤ m l)) [
            | inl at ↦
                let apart : eqb_ℤ p l ≡ false = ground (arith, there, at) in rw (at, apart) refl
            | inr off ↦ rw off refl
          ])
  ]
    where
      both :
          (b : Bool) (ys zs : List A)
          → (if b then ys ++ x ∷ [] else zs)
            ≡ (if b then (if b then ys else zs) ++ x ∷ [] else (if b then ys else zs))
      both true ys zs = refl
      both false ys zs = refl

  tier_of-tiers : (ts : List (ℤ × List A)) → Differ ts → All (λ t. t.1 ≡ tier_of t.0 ts) ts
  unfolding tier_of
  tier_of-tiers [] differ = tt
  tier_of-tiers (t ∷ ts) differ =
      (rw (eqb_ℤ_refl t.0) refl, go ts differ.0 (tier_of-tiers ts differ.1))
    where
      go :
          (us : List (ℤ × List A))
          → All (λ u. u.0 ≢ t.0) us
          → All (λ u. u.1 ≡ tier_of u.0 ts) us
          → All (λ u. u.1 ≡ (if eqb_ℤ t.0 u.0 then t.1 else tier_of u.0 ts)) us
      go [] new found = tt
      go (u ∷ us) new found =
          (rw (eqb_ℤ-apart t.0 u.0 (λ e. new.0 (sym e))) found.0, go us new.1 found.1)

module _ {A : Type 0} (priority : A → ℤ) where
  tier_of-collect_tiers :
      (l : ℤ) (xs : List A) (ts : List (ℤ × List A))
      → tier_of l (collect_tiers priority xs ts)
        ≡ tier_of l ts ++ keep (λ x. eqb_ℤ (priority x) l) xs
  unfolding collect_tiers
  tier_of-collect_tiers l [] ts = sym (append-nil (tier_of l ts))
  tier_of-collect_tiers l (x ∷ xs) ts =
      tier_of-collect_tiers l xs (add_tier (priority x) x ts)
      ∙ ap (λ ys. ys ++ keep (λ x. eqb_ℤ (priority x) l) xs) (tier_of-add_tier l (priority x) x ts)
      ∙ next (eqb_ℤ (priority x) l) (tier_of l ts) (keep (λ x. eqb_ℤ (priority x) l) xs)
    where
      next :
          (b : Bool) (ys zs : List A)
          → (if b then ys ++ x ∷ [] else ys) ++ zs ≡ ys ++ (if b then x ∷ zs else zs)
      next true ys zs = append_assoc ys (x ∷ []) zs
      next false ys zs = refl

  -- Each group has the elements of its level, in the order of the list.
  pub group_by_priority_desc-keep :
      (xs : List A)
      → All (λ t. t.1 ≡ keep (λ x. eqb_ℤ (priority x) t.0) xs) (group_by_priority_desc priority xs)
  unfolding group_by_priority_desc tier_of
  group_by_priority_desc-keep xs = sort_tiers-All _ (collect_tiers priority xs []) (
      go (collect_tiers priority xs [])
        (tier_of-tiers (collect_tiers priority xs []) (collect_tiers-Differ priority xs [] tt)))
    where
      go :
          (ts : List (ℤ × List A))
          → All (λ t. t.1 ≡ tier_of t.0 (collect_tiers priority xs [])) ts
          → All (λ t. t.1 ≡ keep (λ x. eqb_ℤ (priority x) t.0) xs) ts
      go [] all = tt
      go (t ∷ ts) all = (all.0 ∙ tier_of-collect_tiers t.0 xs [], go ts all.1)
