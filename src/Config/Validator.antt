-- ===== src/Config/Validator.antt =====
-- `Config.Validate` (config/validator.go). Each function gives the errors that the Go function adds,
-- in their order. `net` stands for the package net.
pub mod Valid
pub mod Checks
pub mod Listen
pub mod Exact
use cc_relay.Base.{
  ℕ, zero, suc, ◌≡◌, Bool, true, false, not, ◌&&◌, ◌||◌, String, str_eq, List, [], ◌∷◌, ◌++◌,
  is_empty, ◌==◌, if◌then◌else◌, Option, none, some, ℤ, pos, ltb_ℤ,
}
use cc_relay.EventStream.Bytes.{ascii}
use cc_relay.Config.{
  KeyConfig, PoolingConfig, ProviderConfig, RoutingConfig, ServerConfig, LoggingConfig, ProxyConfig,
  is_blank,
}

-- `net.SplitHostPort` (nothing for an error) and whether `net.ParseIP` gives an address.
pub record Net : Type 0 where
  pub split_host_port : String → Option (String × String)
  pub parse_ip : String → Bool

-- The sections with providers, and how a provider is named in a message.
pub data Section : Type 0 where
  in_providers in_openai_providers : Section

pub data Place : Type 0 where
  by_name : String → Place
  by_index : ℕ → Place

-- The messages.
pub data ConfigError : Type 0 where
  listen_required host_invalid port_required model_mapping_required : ConfigError
  listen_format strategy_invalid level_invalid log_format_invalid negative : String → ConfigError
  name_required : Section → ℕ → ConfigError
  duplicate_name : Section → String → ConfigError
  field_required : Section → Place → String → ConfigError
  field_invalid : Section → Place → String → String → ConfigError
  field_negative : Section → Place → String → ℤ → ConfigError
  key_required : Option String → ℕ → ConfigError

-- `if wrong { errs.Add(e) }`
abbrev pub add_if : Bool → ConfigError → List ConfigError
add_if wrong e = if wrong then e ∷ [] else []

-- A lookup in a Go map from texts to `true`.
unfoldable pub member : String → List String → Bool
member s [] = false
member s (known ∷ others) = let later = member s others in if str_eq s known then true else later

abbrev pub valid_routing_strategies : List String
valid_routing_strategies =
    "" ∷ "failover" ∷ "round_robin" ∷ "weighted_round_robin" ∷ "shuffle" ∷ "model_based"
    ∷ "least_loaded" ∷ "weighted_failover" ∷ "priority_weighted_failover" ∷ []

abbrev pub valid_pooling_strategies : List String
valid_pooling_strategies = "" ∷ "least_loaded" ∷ "round_robin" ∷ "random" ∷ "weighted" ∷ []

abbrev pub valid_cooldown_strategies : List String
valid_cooldown_strategies = "" ∷ "generic" ∷ "openai" ∷ "zai" ∷ []

abbrev pub valid_provider_types : List String
valid_provider_types =
    "anthropic" ∷ "openai" ∷ "zai" ∷ "minimax" ∷ "ollama" ∷ "bedrock" ∷ "vertex" ∷ "azure" ∷ []

abbrev pub valid_log_levels : List String
valid_log_levels = "" ∷ "debug" ∷ "info" ∷ "warn" ∷ "error" ∷ []

abbrev pub valid_log_formats : List String
valid_log_formats = "" ∷ "json" ∷ "console" ∷ "text" ∷ "pretty" ∷ []

-- `strings.ContainsAny(host, " \t\n")`
unfoldable pub has_space : List ℕ → Bool
has_space [] = false
has_space (c ∷ cs) = ((c == 32) || ((c == 9) || (c == 10))) || has_space cs

module _ (net : Net) where
  unfoldable pub validate_listen_address : String → List ConfigError
  validate_listen_address addr = elim (net.split_host_port addr) [
    | none ↦ listen_format addr ∷ []
    | some parts ↦
        add_if
          (not (is_blank (parts.0))
            && (not (net.parse_ip (parts.0)) && has_space (ascii (parts.0))))
          host_invalid
        ++ add_if (is_blank (parts.1)) port_required
  ]

  unfoldable pub validate_server : ServerConfig → List ConfigError
  validate_server server =
      (if is_blank (server.listen)
        then listen_required ∷ []
        else validate_listen_address (server.listen))
      ++ (add_if (ltb_ℤ (server.timeout_ms) (pos 0)) (negative "server.timeout_ms")
          ++ (add_if (ltb_ℤ (server.max_concurrent) (pos 0)) (negative "server.max_concurrent")
              ++ add_if (ltb_ℤ (server.max_body_bytes) (pos 0)) (negative "server.max_body_bytes")))

unfoldable pub validate_cloud_provider_config : Section → Place → ProviderConfig → List ConfigError
validate_cloud_provider_config section place p =
    add_if (str_eq (p.provider_type) "bedrock" && is_blank (p.aws_region))
      (field_required section place "aws_region")
    ++ (add_if (str_eq (p.provider_type) "vertex" && is_blank (p.gcp_project_id))
          (field_required section place "gcp_project_id")
        ++ (add_if (str_eq (p.provider_type) "vertex" && is_blank (p.gcp_region))
              (field_required section place "gcp_region")
            ++ add_if (str_eq (p.provider_type) "azure" && is_blank (p.azure_resource_name))
                (field_required section place "azure_resource_name")))

unfoldable pub validate_keys : String → ℕ → List KeyConfig → List ConfigError
validate_keys name index [] = []
validate_keys name index (key ∷ keys) =
    add_if (is_blank (key.key)) (key_required (if is_blank name then none else some name) index)
    ++ validate_keys name (suc index) keys

-- The checks that a provider of either section goes through, behind its type.
unfoldable pub validate_settings : Section → Place → ProviderConfig → List ConfigError
validate_settings section place p =
    validate_cloud_provider_config section place p
    ++ (validate_keys (p.name) 0 (p.keys)
        ++ (add_if
              (not (is_blank (p.pooling.strategy))
                && not (member (p.pooling.strategy) valid_pooling_strategies))
              (field_invalid section place "pooling.strategy" (p.pooling.strategy))
            ++ (add_if (not (member (p.cooldown_strategy) valid_cooldown_strategies))
                  (field_invalid section place "cooldown_strategy" (p.cooldown_strategy))
                ++ (add_if (ltb_ℤ (p.priority) (pos 0))
                      (field_negative section place "priority" (p.priority))
                    ++ add_if (ltb_ℤ (p.weight) (pos 0))
                        (field_negative section place "weight" (p.weight))))))

abbrev pub place_of : ProviderConfig → ℕ → Place
place_of p index = if not (is_blank (p.name)) then by_name (p.name) else by_index index

unfoldable pub validate_name : Section → ProviderConfig → ℕ → List String → List ConfigError
validate_name section p index seen =
    if is_blank (p.name)
    then name_required section index ∷ []
    else add_if (member (p.name) seen) (duplicate_name section (p.name))

unfoldable pub validate_type : Section → Place → ProviderConfig → List ConfigError
validate_type section place p =
    if is_blank (p.provider_type)
    then field_required section place "type" ∷ []
    else add_if (not (member (p.provider_type) valid_provider_types))
        (field_invalid section place "type" (p.provider_type))

unfoldable pub validate_provider : ProviderConfig → ℕ → List String → List ConfigError
validate_provider p index seen =
    validate_name in_providers p index seen
    ++ (validate_type in_providers (place_of p index) p
        ++ validate_settings in_providers (place_of p index) p)

unfoldable pub validate_openai_provider : ProviderConfig → ℕ → List String → List ConfigError
validate_openai_provider p index seen =
    validate_name in_openai_providers p index seen
    ++ (validate_type in_openai_providers (place_of p index) p
        ++ (add_if (str_eq (p.provider_type) "openai" && is_blank (p.base_url))
              (field_required in_openai_providers (place_of p index) "base_url")
            ++ validate_settings in_openai_providers (place_of p index) p))

-- `seenNames[provider.Name] = true`, for a provider with a name.
abbrev pub add_name : ProviderConfig → List String → List String
add_name p seen = if is_blank (p.name) then seen else p.name ∷ seen

-- The loop of `validateProviders` and `validateOpenAIProviders`, by the check of one provider.
unfoldable pub validate_each :
    (ProviderConfig → ℕ → List String → List ConfigError)
    → ℕ
    → List String
    → List ProviderConfig
    → List ConfigError
validate_each check index seen [] = []
validate_each check index seen (p ∷ ps) =
    check p index seen ++ validate_each check (suc index) (add_name p seen) ps

unfoldable pub validate_providers : ProxyConfig → List ConfigError
validate_providers cfg = validate_each validate_provider 0 [] (cfg.providers)

unfoldable pub validate_openai_providers : ProxyConfig → List ConfigError
validate_openai_providers cfg = validate_each validate_openai_provider 0 [] (cfg.openai_providers)

unfoldable pub validate_routing : RoutingConfig → List ConfigError
validate_routing routing =
    add_if (not (member (routing.strategy) valid_routing_strategies))
      (strategy_invalid (routing.strategy))
    ++ (add_if (str_eq (routing.strategy) "model_based" && is_empty (routing.model_mapping))
          model_mapping_required
        ++ add_if (ltb_ℤ (routing.failover_timeout) (pos 0)) (negative "routing.failover_timeout"))

unfoldable pub validate_logging : LoggingConfig → List ConfigError
validate_logging logging =
    add_if (not (member (logging.level) valid_log_levels)) (level_invalid (logging.level))
    ++ (add_if (not (member (logging.format) valid_log_formats))
          (log_format_invalid (logging.format))
        ++ add_if (ltb_ℤ (logging.max_body_log_size) (pos 0))
            (negative "logging.debug_options.max_body_log_size"))

-- All errors; `Validate` returns nil when there are none.
unfoldable pub validate : Net → ProxyConfig → List ConfigError
validate net cfg =
    validate_server net (cfg.server)
    ++ (validate_providers cfg
        ++ (validate_openai_providers cfg
            ++ (validate_routing (cfg.routing) ++ validate_logging (cfg.logging))))
