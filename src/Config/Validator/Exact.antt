-- ===== src/Config/Validator/Exact.antt =====
-- The validator finds no error exactly in a valid configuration.
use text.Mathlib.TextEquality.{eq_iff}
use cc_relay.Base.{
  ℕ, zero, suc, ◌≡◌, ◌≢◌, refl, sym, ap, subst, ◌↔◌, false, not, ◌&&◌, String, str_eq, List, [],
  ◌∷◌, is_empty, map, All, At, if_false, some,
}
use cc_relay.Config.{ProviderConfig, RoutingConfig, LoggingConfig, ProxyConfig, is_blank}
use cc_relay.Config.Validator.{
  Net, Section, ConfigError, add_if, member, valid_routing_strategies, valid_log_levels,
  valid_log_formats, validate_server, validate_name, validate_type, validate_provider,
  validate_openai_provider, validate_each, validate_providers, validate_openai_providers, add_name,
  place_of, validate_routing, validate_logging, validate, in_providers, in_openai_providers,
}
use cc_relay.Config.Validator.Valid.{
  IsValidProvider, IsValidOpenaiProvider, AreDistinct, AreValid, IsValidRouting, IsValidLogging,
  IsValidConfig,
}
use cc_relay.Config.Validator.Listen.{validate_server_iff}
use cc_relay.Config.Validator.Checks.{
  append_iff, add_if_iff, blank_iff, needs_iff, not_member_iff, not_seen_iff, negative_iff,
  field_iff, validate_settings_iff, validate_type_iff, implies_iff,
}

-- The names that are seen, as the checks read them.
abbrev AreFresh : List String → List ProviderConfig → Type 0
AreFresh seen [] = Unit
AreFresh seen (p ∷ ps) = (member (p.name) seen ≡ false) × AreFresh (p.name ∷ seen) ps

module _ (Valid : ProviderConfig → Type 0)
    (check : ProviderConfig → ℕ → List String → List ConfigError)
    (check_iff : (p : ProviderConfig) (index : ℕ) (seen : List String)
      → (check p index seen ≡ [])
        ↔ (((p.name ≢ "") × Valid p) × (member (p.name) seen ≡ false))) where
  add_name-eq :
      (p : ProviderConfig) (seen : List String) → p.name ≢ "" → add_name p seen ≡ p.name ∷ seen
  add_name-eq p seen named = if_false (is_blank (p.name)) _ _ ((blank_iff (p.name)).1 named)

  validate_each_iff :
      (index : ℕ) (seen : List String) (ps : List ProviderConfig)
      → (validate_each check index seen ps ≡ [])
        ↔ (All (λ p. (p.name ≢ "") × Valid p) ps × AreFresh seen ps)
  unfolding validate_each
  validate_each_iff index seen [] = ((λ e. (tt, tt)), (λ u. refl))
  validate_each_iff index seen (p ∷ ps) =
      let both =
        append_iff (check p index seen) (validate_each check (suc index) (add_name p seen) ps)
          (check_iff p index seen) (validate_each_iff (suc index) (add_name p seen) ps) in
      (
        (λ e.
            let found = both.0 e in
            (
              (found.0.0, found.1.0),
              (
                found.0.1,
                subst (λ names. AreFresh names ps) (add_name-eq p seen found.0.0.0) found.1.1,
              ),
            )),
        (λ good. both.1 (
          (good.0.0, good.1.0),
          (
            good.0.1,
            subst (λ names. AreFresh names ps) (sym (add_name-eq p seen good.0.0.0)) good.1.1,
          ),
        )),
      )

-- A name more that is seen is a name less to come.
seen_more :
    (name : String) (seen : List String) (ps : List ProviderConfig)
    → All (λ q. member (q.name) (name ∷ seen) ≡ false) ps
      ↔ ((At name (map (λ q. q.name) ps) → ⊥) × All (λ q. member (q.name) seen ≡ false) ps)
seen_more name seen [] = ((λ u. ((λ at. nowhere at), tt)), (λ u. tt))
  where
    nowhere : At name [] → ⊥
    nowhere (i, e) = absurd (cc)
seen_more name seen (q ∷ qs) =
    let later = seen_more name seen qs in
    (
      (λ all.
          let here = (not_seen_iff (q.name) name seen).0 (all.0) in
          let rest = later.0 (all.1) in (nowhere here.0 rest.0, (here.1, rest.1))),
      (λ both. (
        (not_seen_iff (q.name) name seen).1 ((λ e. both.0 (0, ap some e)), both.1.0),
        later.1 ((λ at. both.0 (suc at.0, at.1)), both.1.1),
      )),
    )
  where
    some_inj : {s t : String} → some s ≡ some t → s ≡ t
    some_inj e = cc

    nowhere :
        (q.name ≢ name)
        → (At name (map (λ q. q.name) qs) → ⊥)
        → At name (q.name ∷ map (λ q. q.name) qs)
        → ⊥
    nowhere apart later (zero, e) = apart (some_inj e)
    nowhere apart later (suc i, e) = later (i, e)

-- Fresh names differ from those seen and from each other.
fresh_iff :
    (seen : List String) (ps : List ProviderConfig)
    → AreFresh seen ps
      ↔ (AreDistinct (map (λ p. p.name) ps) × All (λ p. member (p.name) seen ≡ false) ps)
fresh_iff seen [] = ((λ u. (tt, tt)), (λ u. tt))
fresh_iff seen (p ∷ ps) =
    let later = fresh_iff (p.name ∷ seen) ps in
    let more = seen_more (p.name) seen ps in
    (
      (λ fresh.
          let rest = later.0 (fresh.1) in
          let apart = more.0 (rest.1) in ((apart.0, rest.0), (fresh.0, apart.1))),
      (λ both. (both.1.0, later.1 (both.0.1, more.1 (both.0.0, both.1.1)))),
    )

-- Nothing is seen at first.
all_fresh : (ps : List ProviderConfig) → All (λ p. member (p.name) [] ≡ false) ps
unfolding member
all_fresh [] = tt
all_fresh (p ∷ ps) = (refl, all_fresh ps)

module _ (Valid : ProviderConfig → Type 0)
    (check : ProviderConfig → ℕ → List String → List ConfigError)
    (check_iff : (p : ProviderConfig) (index : ℕ) (seen : List String)
      → (check p index seen ≡ [])
        ↔ (((p.name ≢ "") × Valid p) × (member (p.name) seen ≡ false))) where
  section_iff : (ps : List ProviderConfig) → (validate_each check 0 [] ps ≡ []) ↔ AreValid Valid ps
  section_iff ps =
      let each = validate_each_iff Valid check check_iff 0 [] ps in
      let fresh = fresh_iff [] ps in
      (
        (λ e. ((each.0 e).0, (fresh.0 (each.0 e).1).0)),
        (λ good. each.1 (good.0, fresh.1 (good.1, all_fresh ps))),
      )

validate_name_iff :
    (section : Section) (p : ProviderConfig) (index : ℕ) (seen : List String)
    → (validate_name section p index seen ≡ []) ↔ ((p.name ≢ "") × (member (p.name) seen ≡ false))
unfolding validate_name
validate_name_iff section p index seen =
    field_iff (p.name) _ _ (add_if_iff _ _ ((λ e. e), (λ e. e)))

validate_provider_iff :
    (p : ProviderConfig) (index : ℕ) (seen : List String)
    → (validate_provider p index seen ≡ [])
      ↔ (((p.name ≢ "") × IsValidProvider p) × (member (p.name) seen ≡ false))
unfolding validate_provider
validate_provider_iff p index seen =
    let both =
      append_iff (validate_name in_providers p index seen) _
        (validate_name_iff in_providers p index seen)
        (append_iff (validate_type in_providers (place_of p index) p) _
          (validate_type_iff in_providers (place_of p index) p)
          (validate_settings_iff in_providers (place_of p index) p)) in
    (
      (λ e. let found = both.0 e in ((found.0.0, found.1), found.0.1)),
      (λ good. both.1 ((good.0.0, good.1), good.0.1)),
    )

validate_openai_provider_iff :
    (p : ProviderConfig) (index : ℕ) (seen : List String)
    → (validate_openai_provider p index seen ≡ [])
      ↔ (((p.name ≢ "") × IsValidOpenaiProvider p) × (member (p.name) seen ≡ false))
unfolding validate_openai_provider
validate_openai_provider_iff p index seen =
    let both =
      append_iff (validate_name in_openai_providers p index seen) _
        (validate_name_iff in_openai_providers p index seen)
        (append_iff (validate_type in_openai_providers (place_of p index) p) _
          (validate_type_iff in_openai_providers (place_of p index) p)
          (append_iff (add_if (str_eq (p.provider_type) "openai" && is_blank (p.base_url)) _) _
            (add_if_iff _ _ (needs_iff (p.provider_type) "openai" (p.base_url)))
            (validate_settings_iff in_openai_providers (place_of p index) p))) in
    (
      (λ e. let found = both.0 e in ((found.0.0, found.1), found.0.1)),
      (λ good. both.1 ((good.0.0, good.1), good.0.1)),
    )

validate_routing_iff :
    (routing : RoutingConfig) → (validate_routing routing ≡ []) ↔ IsValidRouting routing
unfolding validate_routing
validate_routing_iff routing =
    append_iff (add_if (not (member (routing.strategy) valid_routing_strategies)) _) _
      (add_if_iff _ _ (not_member_iff (routing.strategy) valid_routing_strategies))
      (append_iff
        (add_if (str_eq (routing.strategy) "model_based" && is_empty (routing.model_mapping)) _) _
        (add_if_iff _ _ (
          implies_iff (str_eq (routing.strategy) "model_based") (is_empty (routing.model_mapping))
            (eq_iff (routing.strategy) "model_based") ((λ e. e), (λ e. e))))
        (add_if_iff _ _ (negative_iff (routing.failover_timeout))))

validate_logging_iff :
    (logging : LoggingConfig) → (validate_logging logging ≡ []) ↔ IsValidLogging logging
unfolding validate_logging
validate_logging_iff logging =
    append_iff (add_if (not (member (logging.level) valid_log_levels)) _) _
      (add_if_iff _ _ (not_member_iff (logging.level) valid_log_levels))
      (append_iff (add_if (not (member (logging.format) valid_log_formats)) _) _
        (add_if_iff _ _ (not_member_iff (logging.format) valid_log_formats))
        (add_if_iff _ _ (negative_iff (logging.max_body_log_size))))

pub validate-IsValidConfig :
    (net : Net) (cfg : ProxyConfig) → (validate net cfg ≡ []) ↔ IsValidConfig net cfg
unfolding validate validate_providers validate_openai_providers
validate-IsValidConfig net cfg =
    append_iff (validate_server net (cfg.server)) _ (validate_server_iff net (cfg.server)) (
      append_iff (validate_providers cfg) _
        (section_iff IsValidProvider validate_provider validate_provider_iff (cfg.providers))
        (append_iff (validate_openai_providers cfg) _
          (section_iff IsValidOpenaiProvider validate_openai_provider validate_openai_provider_iff
            (cfg.openai_providers))
          (append_iff (validate_routing (cfg.routing)) _ (validate_routing_iff (cfg.routing))
            (validate_logging_iff (cfg.logging)))))
