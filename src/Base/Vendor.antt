-- ===== src/Base/Vendor.antt =====
-- github.com/samber/lo and lo/mutable, as an interface: what the program calls, with the documented
-- behaviour as laws.
use Prim.Native.Nat.{ℕ}
use mathlib.Core.Path.{◌≡◌}
use mathlib.Core.Bool.{Bool}
use mathlib.Core.List.{List, foldl, Permᴰ}
use cc_relay.Base.Tests.{if◌then◌else◌}
use cc_relay.Base.Lists.{keep, keep_map}
use mathlib.Core.Option.{Option}
use cc_relay.Base.Int.{ℤ, pos, ◌+ℤ◌}

pub record Lo : Type 1 where
  -- `lo.Filter`: the elements for which the predicate holds, in order.
  pub filter : {A : Type 0} → (A → Bool) → List A → List A
  pub filter_lem : {A : Type 0} (p : A → Bool) (xs : List A) → filter p xs ≡ keep p xs
  -- `lo.SumBy` at `int`: the sum of the values, from the first element on.
  pub sum_by : {A : Type 0} → (A → ℤ) → List A → ℤ
  pub sum_by_lem :
      {A : Type 0} (f : A → ℤ) (xs : List A) → sum_by f xs ≡ foldl (λ s x. s +ℤ f x) (pos 0) xs
  -- `lo.Reduce`: a left fold.
  pub reduce : {A B : Type 0} → (B → A → B) → B → List A → B
  pub reduce_lem :
      {A B : Type 0} (f : B → A → B) (b : B) (xs : List A) → reduce f b xs ≡ foldl f b xs
  -- `lo.MaxBy` on a slice that is not empty: the last element that beats the best one before it.
  pub max_by : {A : Type 0} → (A → A → Bool) → A → List A → A
  pub max_by_lem :
      {A : Type 0} (gt : A → A → Bool) (x : A) (xs : List A)
      → max_by gt x xs ≡ foldl (λ m y. if gt y m then y else m) x xs
  -- `lo.FilterMap`: the results that the function gives, in order.
  pub filter_map : {A B : Type 0} → (A → Option B) → List A → List B
  pub filter_map_lem :
      {A B : Type 0} (f : A → Option B) (xs : List A) → filter_map f xs ≡ keep_map f xs
  -- `lo.MinBy` on a slice that is not empty: the last element that beats the best one before it.
  pub min_by : {A : Type 0} → (A → A → Bool) → A → List A → A
  pub min_by_lem :
      {A : Type 0} (lt : A → A → Bool) (x : A) (xs : List A)
      → min_by lt x xs ≡ foldl (λ m y. if lt y m then y else m) x xs
  -- `lom.Shuffle`: some reordering, which a seed of the random source picks.
  pub shuffle : ℕ → List ℕ → List ℕ
  pub shuffle-perm : (seed : ℕ) (xs : List ℕ) → Permᴰ (shuffle seed xs) xs
