-- ===== src/Base/Slices.antt =====
-- Parts of a list by their bounds.
use Prim.Native.Nat.{ℕ, zero, suc, ◌+◌, ◌≤◌}
use mathlib.Core.Path.{◌≡◌, refl, ap, ◌∙◌}
use mathlib.Core.List.{List, [], ◌∷◌, ◌++◌}
use mathlib.Core.Option.{some}
use native.Mathlib.Omega.{arith}
use cc_relay.Base.Lists.{length, take, drop, get_elem?, All}

module _ {ℓ} {A : Type ℓ} where
  pub take-append : (xs ys : List A) → take (length xs) (xs ++ ys) ≡ xs
  take-append [] ys = refl
  take-append (x ∷ xs) ys = ap (λ zs. x ∷ zs) (take-append xs ys)

  pub drop-append : (xs ys : List A) → drop (length xs) (xs ++ ys) ≡ ys
  drop-append [] ys = refl
  drop-append (x ∷ xs) ys = drop-append xs ys

  drop_cong : (xs : List A) (n m : ℕ) → n ≡ m → drop n xs ≡ drop m xs
  drop_cong xs n m e = ap (λ k. drop k xs) e

  pub drop-drop : (n m : ℕ) (xs : List A) → drop (n + m) xs ≡ drop m (drop n xs)
  drop-drop zero m xs = drop_cong xs (0 + m) m (omega arith)
  drop-drop (suc n) zero [] = drop_cong [] (suc n + 0) (suc n) (omega arith)
  drop-drop (suc n) (suc m) [] = drop_cong [] (suc n + suc m) (suc (n + suc m)) (omega arith)
  drop-drop (suc n) m (x ∷ xs) =
      drop_cong (x ∷ xs) (suc n + m) (suc (n + m)) (omega arith) ∙ drop-drop n m xs

  pub get_elem?-drop :
      (n : ℕ) (x : A) (xs ys : List A) → drop n xs ≡ x ∷ ys → get_elem? xs n ≡ some x
  get_elem?-drop zero x [] ys e = absurd (cc)
  get_elem?-drop (suc n) x [] ys e = absurd (cc)
  get_elem?-drop zero x (y ∷ xs) ys e = ground arith
  get_elem?-drop (suc n) x (y ∷ xs) ys e = get_elem?-drop n x xs ys e

  pub drop-append_left :
      (n : ℕ) (xs ys : List A) → n ≤ length xs → drop n (xs ++ ys) ≡ drop n xs ++ ys
  drop-append_left zero xs ys h = refl
  drop-append_left (suc n) [] ys h = absurd (omega arith)
  drop-append_left (suc n) (x ∷ xs) ys h = drop-append_left n xs ys (omega arith)

  pub take-append_left : (n : ℕ) (xs ys : List A) → n ≤ length xs → take n (xs ++ ys) ≡ take n xs
  take-append_left zero xs ys h = refl
  take-append_left (suc n) [] ys h = absurd (omega arith)
  take-append_left (suc n) (x ∷ xs) ys h =
      ap (λ zs. x ∷ zs) (take-append_left n xs ys (omega arith))

  pub length-drop : (n : ℕ) (xs : List A) → n ≤ length xs → n + length (drop n xs) ≡ length xs
  length-drop zero xs h = omega arith
  length-drop (suc n) [] h = absurd (omega arith)
  length-drop (suc n) (x ∷ xs) h = omega (arith, length-drop n xs (omega arith))

  pub length-take : (n : ℕ) (xs : List A) → n ≤ length xs → length (take n xs) ≡ n
  length-take zero xs h = refl
  length-take (suc n) [] h = absurd (omega arith)
  length-take (suc n) (x ∷ xs) h = ap suc (length-take n xs (omega arith))

  -- A part of a list does not depend on what follows it.
  pub part-append :
      (lo n : ℕ) (xs ys : List A)
      → lo + n ≤ length xs
      → take n (drop lo (xs ++ ys)) ≡ take n (drop lo xs)
  part-append lo n xs ys h =
      ap (take n) (drop-append_left lo xs ys (omega arith))
      ∙ take-append_left n (drop lo xs) ys (omega (arith, length-drop lo xs (omega arith)))

  pub take-append_drop : (n : ℕ) (xs : List A) → take n xs ++ drop n xs ≡ xs
  take-append_drop zero xs = refl
  take-append_drop (suc n) [] = refl
  take-append_drop (suc n) (x ∷ xs) = ap (λ zs. x ∷ zs) (take-append_drop n xs)

  pub append_assoc : (xs ys zs : List A) → (xs ++ ys) ++ zs ≡ xs ++ (ys ++ zs)
  append_assoc [] ys zs = refl
  append_assoc (x ∷ xs) ys zs = ap (λ l. x ∷ l) (append_assoc xs ys zs)

  pub append-nil : (xs : List A) → xs ++ [] ≡ xs
  append-nil [] = refl
  append-nil (x ∷ xs) = ap (λ l. x ∷ l) (append-nil xs)

  pub All-drop {κ} : (P : A → Type κ) (n : ℕ) (xs : List A) → All P xs → All P (drop n xs)
  All-drop P zero xs all = all
  All-drop P (suc n) [] all = tt
  All-drop P (suc n) (x ∷ xs) all = All-drop P n xs all.1
