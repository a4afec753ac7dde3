-- ===== src/Base/Lists.antt =====
-- Lists measured and indexed by native numbers, under the library's names, and predicates on them.
use Prim.Native.Nat.{ℕ, zero, suc, ◌+◌, ◌<◌}
use mathlib.Core.Path.{◌≡◌, refl, ap}
use mathlib.Core.Logic.{inl, inr, ◌≢◌}
use mathlib.Core.Bool.{Bool, true, false}
use mathlib.Core.List.{List, [], ◌∷◌, ◌++◌, map}
use mathlib.Core.Option.{Option, none, some}
use native.Mathlib.Omega.{arith}
use cc_relay.Base.Tests.{if◌then◌else◌, Bool-cases}

module _ {ℓ} {A : Type ℓ} where
  abbrev pub length : List A → ℕ
  length [] = 0
  length (x ∷ xs) = suc (length xs)

  abbrev pub is_empty : List A → Bool
  is_empty [] = true
  is_empty (x ∷ xs) = false

  abbrev pub get_elem? : List A → ℕ → Option A
  get_elem? [] i = none
  get_elem? (x ∷ xs) zero = some x
  get_elem? (x ∷ xs) (suc i) = get_elem? xs i

  abbrev pub set : List A → ℕ → A → List A
  set [] i v = []
  set (x ∷ xs) zero v = v ∷ xs
  set (x ∷ xs) (suc i) v = x ∷ set xs i v

  abbrev pub take : ℕ → List A → List A
  take zero xs = []
  take (suc n) [] = []
  take (suc n) (x ∷ xs) = x ∷ take n xs

  abbrev pub drop : ℕ → List A → List A
  drop zero xs = xs
  drop (suc n) [] = []
  drop (suc n) (x ∷ xs) = drop n xs

  abbrev pub replicate : ℕ → A → List A
  replicate zero a = []
  replicate (suc n) a = a ∷ replicate n a

  -- The elements that pass a test, in their order.
  abbrev pub keep : (A → Bool) → List A → List A
  keep p [] = []
  keep p (x ∷ xs) = if p x then x ∷ keep p xs else keep p xs

  -- The results of a partial function, in their order.
  abbrev pub keep_map {κ} : {B : Type κ} → (A → Option B) → List A → List B
  keep_map f [] = []
  keep_map f (x ∷ xs) = elim (f x) [ none ↦ keep_map f xs | some y ↦ y ∷ keep_map f xs ]

  -- A predicate that holds of every element.
  abbrev pub All {κ} : (A → Type κ) → List A → Type κ
  All P [] = Unit
  All P (x ∷ xs) = P x × All P xs

module _ {ℓ} {A : Type ℓ} where
  pub length-append : (xs ys : List A) → length (xs ++ ys) ≡ length xs + length ys
  length-append [] ys = omega arith
  length-append (x ∷ xs) ys = omega (arith, length-append xs ys)

  pub length-set : (xs : List A) (i : ℕ) (v : A) → length (set xs i v) ≡ length xs
  length-set [] i v = refl
  length-set (x ∷ xs) zero v = refl
  length-set (x ∷ xs) (suc i) v = ap suc (length-set xs i v)

  pub length-map {κ} : {B : Type κ} (xs : List A) (f : A → B) → length (map f xs) ≡ length xs
  length-map [] f = refl
  length-map (x ∷ xs) f = ap suc (length-map xs f)

  pub get_elem?_total : (xs : List A) (i : ℕ) → i < length xs → (a : A) × (get_elem? xs i ≡ some a)
  get_elem?_total [] i h = absurd (omega arith)
  get_elem?_total (x ∷ xs) zero h = (x, refl)
  get_elem?_total (x ∷ xs) (suc i) h = get_elem?_total xs i (omega arith)

  pub All-append {κ} : (P : A → Type κ) (xs ys : List A) → All P xs → All P ys → All P (xs ++ ys)
  All-append P [] ys hx hy = hy
  All-append P (x ∷ xs) ys hx hy = (hx.0, All-append P xs ys hx.1 hy)

  pub All-get_elem? {κ} :
      (P : A → Type κ) (xs : List A) (i : ℕ) {a : A} → All P xs → get_elem? xs i ≡ some a → P a
  All-get_elem? P [] i h e = absurd (cc)
  All-get_elem? P (x ∷ xs) zero h e = ground (arith)
  All-get_elem? P (x ∷ xs) (suc i) h e = All-get_elem? P xs i h.1 e

  pub length-pos : (xs : List A) → is_empty xs ≡ false → 0 < length xs
  length-pos [] e = absurd (cc)
  length-pos (x ∷ xs) e = omega arith

  pub All-middle {κ} :
      (P : A → Type κ) (xs : List A) (x : A) (ys : List A) → All P (xs ++ (x ∷ ys)) → P x
  All-middle P [] x ys h = h.0
  All-middle P (y ∷ xs) x ys h = All-middle P xs x ys h.1

module _ {ℓ κ} {A : Type ℓ} {B : Type κ} (f : A → Option B) (x : A) (xs : List A) where
  pub keep_map-none : f x ≡ none → keep_map f (x ∷ xs) ≡ keep_map f xs
  keep_map-none e =
      ap (λ o. elim o as (λ x. List B) [ none ↦ keep_map f xs | some y ↦ y ∷ keep_map f xs ]) e

  pub keep_map-some : {y : B} → f x ≡ some y → keep_map f (x ∷ xs) ≡ y ∷ keep_map f xs
  keep_map-some e =
      ap (λ o. elim o as (λ x. List B) [ none ↦ keep_map f xs | some y ↦ y ∷ keep_map f xs ]) e

module _ {ℓ} {A : Type ℓ} where
  pub get_elem?-set :
      (xs : List A) (i : ℕ) {a : A} (v : A)
      → get_elem? xs i ≡ some a
      → get_elem? (set xs i v) i ≡ some v
  get_elem?-set [] i v e = absurd (cc)
  get_elem?-set (x ∷ xs) zero v e = refl
  get_elem?-set (x ∷ xs) (suc i) v e = get_elem?-set xs i v e

  pub get_elem?-set_other :
      (xs : List A) (i j : ℕ) (v : A) → i ≢ j → get_elem? (set xs i v) j ≡ get_elem? xs j
  get_elem?-set_other [] i j v apart = refl
  get_elem?-set_other (x ∷ xs) zero zero v apart = absurd (apart refl)
  get_elem?-set_other (x ∷ xs) zero (suc j) v apart = refl
  get_elem?-set_other (x ∷ xs) (suc i) zero v apart = refl
  get_elem?-set_other (x ∷ xs) (suc i) (suc j) v apart =
      get_elem?-set_other xs i j v (λ e. apart (ap suc e))

pub get_elem?-lt {ℓ} :
    {A : Type ℓ} (xs : List A) (i : ℕ) {a : A} → get_elem? xs i ≡ some a → i < length xs
get_elem?-lt [] i e = absurd (cc)
get_elem?-lt (x ∷ xs) zero e = omega arith
get_elem?-lt (x ∷ xs) (suc i) e = omega (arith, get_elem?-lt xs i e)

-- An element of a list, by its index.
abbrev pub At {ℓ} : {A : Type ℓ} → A → List A → Type ℓ
At {A} a xs = (i : ℕ) × (get_elem? xs i ≡ some a)

module _ {ℓ} {A : Type ℓ} where
  At-cons : (x : A) {a : A} (xs : List A) → At a xs → At a (x ∷ xs)
  At-cons x xs h = (suc h.0, h.1)

module _ {ℓ} {A : Type ℓ} (test : A → Bool) where
  pub keep-At :
      (xs : List A) (i : ℕ) {a : A}
      → get_elem? (keep test xs) i ≡ some a
      → At a xs × (test a ≡ true)
  keep-At [] i e = absurd (cc)
  keep-At (x ∷ xs) i {a} e = go (test x) refl i e (λ j. keep-At xs j)
    where
      go :
          (b : Bool)
          → test x ≡ b
          → (i : ℕ) → get_elem? (if b then x ∷ keep test xs else keep test xs) i ≡ some a
          → ((j : ℕ) → get_elem? (keep test xs) j ≡ some a → At a xs × (test a ≡ true))
          → At a (x ∷ xs) × (test a ≡ true)
      go true t zero e ih = ((0, e), ground arith)
      go true t (suc i) e ih = (At-cons x xs (ih i e).0, (ih i e).1)
      go false t i e ih = (At-cons x xs (ih i e).0, (ih i e).1)

  pub keep-eq-nil : (xs : List A) → keep test xs ≡ [] → All (λ x. test x ≡ false) xs
  keep-eq-nil [] e = tt
  keep-eq-nil (x ∷ xs) e = ground (arith, keep-eq-nil xs)

-- Every element of a list stands in it.
pub All-At {ℓ} : {A : Type ℓ} (xs : List A) → All (λ x. At x xs) xs
All-At [] = tt
All-At {A} (x ∷ xs) = ((0, refl), later xs (All-At xs))
  where
    later : (ys : List A) → All (λ y. At y xs) ys → All (λ y. At y (x ∷ xs)) ys
    later [] all = tt
    later (y ∷ ys) all = ((suc all.0.0, all.0.1), later ys all.1)

pub All-keep {ℓ κ} :
    {A : Type ℓ} (P : A → Type κ) (test : A → Bool) (xs : List A)
    → All P xs
    → All (λ x. P x × (test x ≡ true)) (keep test xs)
All-keep P test [] all = tt
All-keep P test (x ∷ xs) all = elim (Bool-cases (test x)) [
  | inl passes ↦ rw passes ((all.0, passes), All-keep P test xs all.1)
  | inr fails ↦ rw fails (All-keep P test xs all.1)
]
