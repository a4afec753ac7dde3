-- ===== src/EventStream/Parsed.antt =====
-- The outcomes of the parsers.
use cc_relay.Base.{
  ◌<◌, ◌++◌, ◌∙◌, false, if_false, part-append, length-append, ℕ, ◌-◌, ◌≤◌, ◌≡◌, refl, ap, true,
  ◌&&◌, List, length, take, drop, leb, if◌then◌else◌, if_true, arith,
}

-- Go's (value, error) pair, a panic, and `stuck`, which is no Go value: a loop ran out of fuel.
pub data Parsed {ℓ κ} (E : Type ℓ) (A : Type κ) : Type (ℓ ⊔ κ) where
  ok : A → Parsed E A
  err : E → Parsed E A
  panic stuck : Parsed E A

infixl 5 ◌>>=◌
abbrev pub ◌>>=◌ {ℓ κ ι} :
    {E : Type ℓ} {A : Type κ} {B : Type ι} → Parsed E A → (A → Parsed E B) → Parsed E B
ok a >>= f = f a
err e >>= f = err e
panic >>= f = panic
stuck >>= f = stuck

-- `if err != nil { return ..., other }`
abbrev pub with_error {ℓ ι κ} :
    {E : Type ℓ} {F : Type ι} {A : Type κ} → (E → F) → Parsed E A → Parsed F A
with_error other (ok a) = ok a
with_error other (err e) = err (other e)
with_error other panic = panic
with_error other stuck = stuck

-- The code returned a value or an error.
abbrev pub Returns {ℓ κ} : {E : Type ℓ} {A : Type κ} → Parsed E A → Type 0
Returns (ok a) = Unit
Returns (err e) = Unit
Returns panic = ⊥
Returns stuck = ⊥

pub bind-ok {ℓ κ ι} :
    {E : Type ℓ} {A : Type κ} {B : Type ι} (r : Parsed E A) (f : A → Parsed E B) {a : A}
    → r ≡ ok a
    → (r >>= f) ≡ f a
bind-ok r f e = ap (λ r. r >>= f) e

pub bind-err {ℓ κ ι} :
    {E : Type ℓ} {A : Type κ} {B : Type ι} (r : Parsed E A) (f : A → Parsed E B) {e : E}
    → r ≡ err e
    → (r >>= f) ≡ err e
bind-err r f e = ap (λ r. r >>= f) e

pub err≢ok {ℓ κ} : {E : Type ℓ} {A : Type κ} {e : E} {a : A} → Path (Parsed E A) (err e) (ok a) → ⊥
err≢ok p = absurd (cc)

pub panic≢ok {ℓ κ} : {E : Type ℓ} {A : Type κ} {a : A} → Path (Parsed E A) panic (ok a) → ⊥
panic≢ok p = absurd (cc)

pub with_error-ok {ℓ ι κ} :
    {E : Type ℓ} {F : Type ι} {A : Type κ} (other : E → F) (r : Parsed E A) {a : A}
    → r ≡ ok a
    → with_error other r ≡ ok a
with_error-ok other r e = ap (with_error other) e

pub ok_cong {ℓ κ} :
    {E : Type ℓ} {A : Type κ} (a : A) (n m : ℕ)
    → n ≡ m
    → Path (Parsed E (A × ℕ)) (ok (a, n)) (ok (a, m))
ok_cong a n m e = ap (λ k. ok (a, k)) e

both : (lo hi n : ℕ) → lo ≤ hi → hi ≤ n → (leb lo hi && leb hi n) ≡ true
both lo hi n h k = ground arith

outside : (lo hi n : ℕ) → n < hi → (leb lo hi && leb hi n) ≡ false
outside lo hi n h = ground arith

-- `s[lo:hi]` of a slice whose array is `array`, from its start to its capacity.
unfoldable pub slice {ℓ κ} : {E : Type ℓ} {A : Type κ} → List A → ℕ → ℕ → Parsed E (List A)
slice array lo hi =
    if leb lo hi && leb hi (length array) then ok (take (hi - lo) (drop lo array)) else panic

pub slice-inside {ℓ κ} :
    {E : Type ℓ} {A : Type κ} (array : List A) (lo hi : ℕ)
    → lo ≤ hi
    → hi ≤ length array
    → Path (Parsed E (List A)) (slice array lo hi) (ok (take (hi - lo) (drop lo array)))
unfolding slice
slice-inside array lo hi le fits =
    if_true (leb lo hi && leb hi (length array)) _ _ (both lo hi (length array) le fits)

pub slice-within {ℓ κ} :
    {E : Type ℓ} {A : Type κ} (xs ys : List A) (lo hi : ℕ)
    → lo ≤ hi
    → hi ≤ length xs
    → Path (Parsed E (List A)) (slice (xs ++ ys) lo hi) (ok (take (hi - lo) (drop lo xs)))
slice-within xs ys lo hi le fits =
    slice-inside (xs ++ ys) lo hi le (omega (arith, length-append xs ys))
    ∙ ap ok (part-append lo (hi - lo) xs ys (omega arith))

pub slice-outside {ℓ κ} :
    {E : Type ℓ} {A : Type κ} (array : List A) (lo hi : ℕ)
    → length array < hi
    → Path (Parsed E (List A)) (slice array lo hi) panic
unfolding slice
slice-outside array lo hi over =
    if_false (leb lo hi && leb hi (length array)) _ _ (outside lo hi (length array) over)

pub slice-bounds {ℓ κ} :
    {E : Type ℓ} {A : Type κ} (array : List A) (lo hi : ℕ) {xs : List A}
    → Path (Parsed E (List A)) (slice array lo hi) (ok xs)
    → (lo ≤ hi) × (hi ≤ length array)
unfolding slice
slice-bounds array lo hi e = ground arith

-- What a sequence of steps returned, its first step returned something.
pub bind-inv {ℓ κ ι} :
    {E : Type ℓ} {A : Type κ} {B : Type ι} (r : Parsed E A) (f : A → Parsed E B) {b : B}
    → (r >>= f) ≡ ok b
    → (a : A) × (r ≡ ok a) × (f a ≡ ok b)
bind-inv (ok a) f e = (a, refl, e)
bind-inv (err x) f e = absurd (cc)
bind-inv panic f e = absurd (cc)
bind-inv stuck f e = absurd (cc)

pub ok-inj {ℓ κ} : {E : Type ℓ} {A : Type κ} {a b : A} → Path (Parsed E A) (ok a) (ok b) → a ≡ b
ok-inj e = cc

pub with_error-inv {ℓ ι κ} :
    {E : Type ℓ} {F : Type ι} {A : Type κ} (other : E → F) (r : Parsed E A) {a : A}
    → with_error other r ≡ ok a
    → r ≡ ok a
with_error-inv other (ok a) e = ap ok (ok-inj e)
with_error-inv other (err x) e = absurd (cc)
with_error-inv other panic e = absurd (cc)
with_error-inv other stuck e = absurd (cc)
