-- ===== src/Keypool/Pool/Distinct.antt =====
-- Keys with distinct IDs, and the keys without one of them.
use text.Mathlib.TextEquality.{eq_iff}
use text.Mathlib.TextPositions.{eq_refl}
use cc_relay.Base.{
  ℕ, zero, suc, ◌≡◌, refl, ap, false, not, some, List, [], ◌∷◌, arith, length, keep, All, get_elem?,
  All-get_elem?, String, none, subst, str_eq, Bool-cases, inl, inr,
}
use cc_relay.Keypool.Key.{KeyMetadata}

abbrev pub Distinct : List KeyMetadata → Type 0
Distinct [] = Unit
Distinct (k ∷ ks) = All (λ (x : KeyMetadata). str_eq x.id k.id ≡ false) ks × Distinct ks

abbrev pub without : KeyMetadata → List KeyMetadata → List KeyMetadata
without key = keep (λ (k : KeyMetadata). not (str_eq k.id key.id))

pub All-without {κ} :
    (P : KeyMetadata → Type κ) (key : KeyMetadata) (ks : List KeyMetadata)
    → All P ks
    → All P (without key ks)
All-without P key [] all = tt
All-without P key (k ∷ ks) all = elim (Bool-cases (str_eq k.id key.id)) [
  | inl same ↦ rw same (All-without P key ks all.1)
  | inr other ↦ rw other (all.0, All-without P key ks all.1)
]

pub Distinct-without :
    (key : KeyMetadata) (ks : List KeyMetadata) → Distinct ks → Distinct (without key ks)
Distinct-without key [] distinct = tt
Distinct-without key (k ∷ ks) distinct = elim (Bool-cases (str_eq k.id key.id)) [
  | inl same ↦ rw same (Distinct-without key ks distinct.1)
  | inr other ↦ rw other (
    All-without (λ (x : KeyMetadata). str_eq x.id k.id ≡ false) key ks distinct.0,
    Distinct-without key ks distinct.1,
  )
]

without-none :
    (key : KeyMetadata) (ks : List KeyMetadata)
    → All (λ (x : KeyMetadata). str_eq x.id key.id ≡ false) ks
    → length (without key ks) ≡ length ks
without-none key [] all = refl
without-none key (k ∷ ks) all = rw all.0 (ap suc (without-none key ks all.1))

str_eq-sym : (a b : String) → str_eq a b ≡ false → str_eq b a ≡ false
str_eq-sym a b e = ground (arith, eq_iff a b, eq_iff b a, e)

without-head :
    (k : KeyMetadata) (ks : List KeyMetadata)
    → All (λ (x : KeyMetadata). str_eq x.id k.id ≡ false) ks
    → suc (length (without k (k ∷ ks))) ≡ suc (length ks)
without-head k ks all = rw (eq_refl k.id) (ap suc (without-none k ks all))

-- One key goes.
pub length-without :
    (key : KeyMetadata) (ks : List KeyMetadata) (i : ℕ)
    → Distinct ks
    → get_elem? ks i ≡ some key
    → suc (length (without key ks)) ≡ length ks
length-without key [] i distinct e = absurd (cc)
length-without key (k ∷ ks) zero distinct e =
    subst (λ x. suc (length (without x (k ∷ ks))) ≡ suc (length ks))
      (ap (λ o. elim o as (λ x. KeyMetadata) [ none ↦ key | some x ↦ x ]) e)
      (without-head k ks distinct.0)
length-without key (k ∷ ks) (suc i) distinct e =
    let other : str_eq k.id key.id ≡ false =
      str_eq-sym key.id k.id
        (All-get_elem? (λ (x : KeyMetadata). str_eq x.id k.id ≡ false) ks i distinct.0 e) in
    rw other (ap suc (length-without key ks i distinct.1 e))
