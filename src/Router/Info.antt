-- ===== src/Router/Info.antt =====
-- internal/router/router.go: a provider with its routing metadata, and the health filter.
use native.Mathlib.Nat.{zero-add, suc-add}
use cc_relay.Base.{
  At, keep-At, keep-eq-nil, ◌+◌, ◌++◌, ℕ, ◌≡◌, refl, ap, ◌∙◌, Bool, true, false, Option, none, some,
  List, [], ◌∷◌, String, arith, Result, ok, err, no_providers, all_providers_unhealthy, ℤ, Lo, keep,
  All, get_elem?, suc, zero, is_empty, if◌then◌else◌,
}

-- What the router reads of the `Provider` interface.
pub record Provider : Type 0 where
  pub name : String
  pub owner : String

-- `provider` is `none` for a nil interface. `is_healthy` is `none` for a nil function, and otherwise
-- what the function answers during the call at hand.
pub record ProviderInfo : Type 0 where
  pub provider : Option Provider
  pub is_healthy : Option Bool
  pub weight : ℤ
  pub priority : ℤ

unfoldable pub healthy : ProviderInfo → Bool
healthy p = elim p.is_healthy [ none ↦ true | some answer ↦ answer ]

unfoldable pub filter_healthy : Lo → List ProviderInfo → List ProviderInfo
filter_healthy lo ps = lo.filter healthy ps

-- What a strategy's `Select` owes its caller, on each of its three ways out.
pub data Selects (ps : List ProviderInfo) (r : Result ProviderInfo) : Type 0 where
  nothing_configured : ps ≡ [] → r ≡ err no_providers → Selects ps r
  nothing_healthy :
      is_empty ps ≡ false
      → All (λ p. healthy p ≡ false) ps
      → r ≡ err all_providers_unhealthy
      → Selects ps r
  selected : (p : ProviderInfo) → r ≡ ok p → At p ps → healthy p ≡ true → Selects ps r

-- The guards that open the `Select` of every strategy: `choose` is the code below them, and `s` is
-- the router's state.
unfoldable pub with_healthy :
    {S : Type 0}
    → Lo
    → S
    → List ProviderInfo
    → (List ProviderInfo → Result ProviderInfo × S)
    → Result ProviderInfo × S
unfolding filter_healthy
with_healthy lo s providers choose =
    if is_empty providers
    then (err no_providers, s)
    else let healthy_ones = filter_healthy lo providers in
      if is_empty healthy_ones then (err all_providers_unhealthy, s) else choose healthy_ones

module _ {S : Type 0} (lo : Lo) (s : S) where
  -- With a healthy provider the guards pass.
  pub with_healthy-passes :
      (ps hs : List ProviderInfo) (choose : List ProviderInfo → Result ProviderInfo × S)
      → keep healthy ps ≡ hs
      → is_empty hs ≡ false
      → with_healthy lo s ps choose ≡ choose hs
  unfolding with_healthy
  with_healthy-passes [] hs choose e up = absurd (ground arith)
  with_healthy-passes (p ∷ ps) hs choose e up = rw (lo.filter_lem healthy (p ∷ ps), e, up) refl

  -- A strategy that picks some healthy provider keeps the contract of `Select`.
  pub with_healthy-Selects :
      (ps : List ProviderInfo) (choose : List ProviderInfo → Result ProviderInfo × S)
      → ((hs : List ProviderInfo)
          → is_empty hs ≡ false
          → (p : ProviderInfo) × ((choose hs).0 ≡ ok p) × At p hs)
      → Selects ps (with_healthy lo s ps choose).0
  unfolding with_healthy
  with_healthy-Selects [] choose picks = nothing_configured refl refl
  with_healthy-Selects (p ∷ ps) choose picks = go (keep healthy (p ∷ ps)) refl
    where
      go :
          (hs : List ProviderInfo)
          → keep healthy (p ∷ ps) ≡ hs
          → Selects (p ∷ ps) (with_healthy lo s (p ∷ ps) choose).0
      go [] e =
          nothing_healthy refl (keep-eq-nil healthy (p ∷ ps) e)
            (rw (lo.filter_lem healthy (p ∷ ps), e) refl)
      go (h ∷ hs) e =
          let (q, chosen, at_q) = picks (h ∷ hs) refl in
          let found = keep-At healthy (p ∷ ps) at_q.0 (ap (λ xs. get_elem? xs at_q.0) e ∙ at_q.1) in
          selected q
            (ap (λ (x : Result ProviderInfo × S). x.0)
                (with_healthy-passes (p ∷ ps) (h ∷ hs) choose e refl)
              ∙ chosen)
            found.0 found.1

-- `n` calls of a `Select` one after the other: the results, and the state at the end.
unfoldable pub repeat_select :
    {S : Type 0} → (S → Result ProviderInfo × S) → ℕ → S → List (Result ProviderInfo) × S
repeat_select select zero s = ([], s)
repeat_select select (suc n) s =
    let (chosen, s') = select s in
    let (later, s'') = repeat_select select n s' in (chosen ∷ later, s'')

module _ {S : Type 0} (select : S → Result ProviderInfo × S) where
  pub repeat_select-suc :
      (n : ℕ) (s : S) {r : Result ProviderInfo} {s' : S} {rs : List (Result ProviderInfo)} {s'' : S}
      → select s ≡ (r, s')
      → repeat_select select n s' ≡ (rs, s'')
      → repeat_select select (suc n) s ≡ (r ∷ rs, s'')
  unfolding repeat_select
  repeat_select-suc n s e later = rw (e, later) refl

  repeat_select-append :
      (m n : ℕ) (s : S)
      → repeat_select select (m + n) s ≡ (
          let (first, s') = repeat_select select m s in
          let (later, s'') = repeat_select select n s' in (first ++ later, s''))
  unfolding repeat_select
  repeat_select-append zero n s = rw zero-add refl
  repeat_select-append (suc m) n s = rw (suc-add, repeat_select-append m n (select s).1) refl

  pub repeat_select-add :
      (m n : ℕ) (s : S) {rs : List (Result ProviderInfo)} {s' : S}
      {rs' : List (Result ProviderInfo)} {s'' : S}
      → repeat_select select m s ≡ (rs, s')
      → repeat_select select n s' ≡ (rs', s'')
      → repeat_select select (m + n) s ≡ (rs ++ rs', s'')
  repeat_select-add m n s first later = repeat_select-append m n s ∙ rw (first, later) refl

  pub repeat_select-zero : (s : S) → repeat_select select 0 s ≡ ([], s)
  unfolding repeat_select
  repeat_select-zero s = refl
