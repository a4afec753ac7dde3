-- ===== src/Config/Lookup.antt =====
-- Lookups by name in a valid configuration: `FindProviderCooldownStrategy` and `IsZhipuProvider`.
use text.Mathlib.TextEquality.{eq_iff}
use cc_relay.Base.{
  zero, suc, ◌≡◌, ◌≢◌, refl, sym, ap, ◌∙◌, ◌↔◌, Bool, true, false, String, str_eq, List, [], ◌∷◌,
  map, At, if_true, if_false, Option, none, some,
}
use cc_relay.Config.{
  ProviderConfig, ProxyConfig, find_provider, get_cooldown_strategy,
  find_provider_cooldown_strategy, is_zhipu_provider,
}
use cc_relay.Config.Validator.{Net, validate}
use cc_relay.Config.Validator.Valid.{AreDistinct}
use cc_relay.Config.Validator.Exact.{validate-IsValidConfig}

name-At :
    (ps : List ProviderConfig) (p : ProviderConfig) → At p ps → At (p.name) (map (λ q. q.name) ps)
name-At [] p (i, e) = absurd (cc)
name-At (q ∷ qs) p (zero, e) =
    (0, ap (λ o. elim o as (λ x. Option String) [ none ↦ none | some q ↦ some (q.name) ]) e)
name-At (q ∷ qs) p (suc i, e) = let later = name-At qs p (i, e) in (suc later.0, later.1)

-- With distinct names, a provider is found by its own.
find_provider-own :
    (ps : List ProviderConfig) (p : ProviderConfig)
    → AreDistinct (map (λ q. q.name) ps)
    → At p ps
    → find_provider (p.name) ps ≡ some p
unfolding find_provider
find_provider-own [] p distinct (i, e) = absurd (cc)
find_provider-own (q ∷ qs) p distinct (zero, e) =
    if_true (str_eq (q.name) (p.name)) _ _
      ((eq_iff (q.name) (p.name)).1 (ap (λ q. q.name) (same e)))
    ∙ e
  where
    same : some q ≡ some p → q ≡ p
    same e = cc
find_provider-own (q ∷ qs) p distinct (suc i, e) =
    if_false (str_eq (q.name) (p.name)) _ _
      (apart (str_eq (q.name) (p.name)) (eq_iff (q.name) (p.name)))
    ∙ find_provider-own qs p distinct.1 (i, e)
  where
    differ : q.name ≢ p.name
    differ e' = distinct.0 (found.0, found.1 ∙ ap some (sym e'))
      where
        found : At (p.name) (map (λ q. q.name) qs)
        found = name-At qs p (i, e)

    apart : (b : Bool) → ((b ≡ true) ↔ (q.name ≡ p.name)) → b ≡ false
    apart true h = absurd (differ (h.0 refl))
    apart false h = refl

-- A name that no provider has is not found.
find_provider-none :
    (ps : List ProviderConfig) (name : String)
    → (At name (map (λ q. q.name) ps) → ⊥)
    → find_provider name ps ≡ none
unfolding find_provider
find_provider-none [] name absent = refl
find_provider-none (q ∷ qs) name absent =
    if_false (str_eq (q.name) name) _ _ (apart (str_eq (q.name) name) (eq_iff (q.name) name))
    ∙ find_provider-none qs name (λ at. absent (suc at.0, at.1))
  where
    apart : (b : Bool) → ((b ≡ true) ↔ (q.name ≡ name)) → b ≡ false
    apart true h = absurd (absent (0, ap some (h.0 refl)))
    apart false h = refl

module _ (net : Net) (cfg : ProxyConfig) (valid : validate net cfg ≡ []) where
  -- In a configuration in which `Validate` finds no error, `FindProviderCooldownStrategy` and
  -- `IsZhipuProvider` on the name of a provider of the first section give that provider's own
  -- cooldown strategy and its own mark.
  pub validated-lookup :
      (p : ProviderConfig)
      → At p (cfg.providers)
      → (find_provider_cooldown_strategy cfg (p.name) ≡ get_cooldown_strategy p)
        × (is_zhipu_provider cfg (p.name) ≡ p.zhipu)
  unfolding find_provider_cooldown_strategy is_zhipu_provider
  validated-lookup p at =
      let good = (validate-IsValidConfig net cfg).0 valid in
      let found = find_provider-own (cfg.providers) p good.1.0.1 at in
      (
        ap
            (λ o. elim o as (λ x. String) [
              | some p ↦ get_cooldown_strategy p
              | none ↦ elim (find_provider (p.name) (cfg.openai_providers)) [
                | some p ↦ get_cooldown_strategy p
                | none ↦ "generic"
              ]
            ])
            found,
        ap
            (λ o. elim o as (λ x. Bool) [
              | some p ↦ p.zhipu
              | none ↦ elim (find_provider (p.name) (cfg.openai_providers)) [
                | some p ↦ p.zhipu
                | none ↦ false
              ]
            ])
            found,
      )
