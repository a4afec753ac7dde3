-- ===== src/Config/Validator/Valid.antt =====
-- The configurations that `Config.Validate` accepts, described without the code.
use cc_relay.Base.{
  ◌≡◌, ◌≢◌, ◌⊎◌, true, false, String, List, [], ◌∷◌, is_empty, map, All, At, some, pos, ◌≤ℤ◌,
}
use cc_relay.EventStream.Bytes.{ascii}
use cc_relay.Config.{ProviderConfig, RoutingConfig, ServerConfig, LoggingConfig, ProxyConfig}
use cc_relay.Config.Validator.{
  Net, has_space, valid_routing_strategies, valid_pooling_strategies, valid_cooldown_strategies,
  valid_provider_types, valid_log_levels, valid_log_formats,
}

-- host:port, with a host that is empty, an address, or a text without white space.
abbrev pub IsListenAddress : Net → String → Type 0
IsListenAddress net addr =
    (parts : String × String) × (net.split_host_port addr ≡ some parts)
    × ((parts.0 ≡ "") ⊎ ((net.parse_ip (parts.0) ≡ true) ⊎ (has_space (ascii (parts.0)) ≡ false)))
    × (parts.1 ≢ "")

abbrev pub IsValidServer : Net → ServerConfig → Type 0
IsValidServer net server =
    ((server.listen ≢ "") × IsListenAddress net (server.listen))
    × ((pos 0 ≤ℤ server.timeout_ms)
        × ((pos 0 ≤ℤ server.max_concurrent) × (pos 0 ≤ℤ server.max_body_bytes)))

-- The fields that a cloud provider's type asks for.
abbrev pub HasCloudFields : ProviderConfig → Type 0
HasCloudFields p =
    (p.provider_type ≡ "bedrock" → p.aws_region ≢ "")
    × ((p.provider_type ≡ "vertex" → p.gcp_project_id ≢ "")
        × ((p.provider_type ≡ "vertex" → p.gcp_region ≢ "")
            × (p.provider_type ≡ "azure" → p.azure_resource_name ≢ "")))

abbrev pub HasValidSettings : ProviderConfig → Type 0
HasValidSettings p =
    HasCloudFields p
    × (All (λ key. key.key ≢ "") (p.keys)
        × (At (p.pooling.strategy) valid_pooling_strategies
            × (At (p.cooldown_strategy) valid_cooldown_strategies
                × ((pos 0 ≤ℤ p.priority) × (pos 0 ≤ℤ p.weight)))))

abbrev pub IsValidProvider : ProviderConfig → Type 0
IsValidProvider p = At (p.provider_type) valid_provider_types × HasValidSettings p

abbrev pub IsValidOpenaiProvider : ProviderConfig → Type 0
IsValidOpenaiProvider p =
    At (p.provider_type) valid_provider_types
    × ((p.provider_type ≡ "openai" → p.base_url ≢ "") × HasValidSettings p)

-- No two texts of a list are the same.
abbrev pub AreDistinct : List String → Type 0
AreDistinct [] = Unit
AreDistinct (s ∷ ss) = (At s ss → ⊥) × AreDistinct ss

-- Every provider has a name and is valid, and the names differ.
abbrev pub AreValid : (ProviderConfig → Type 0) → List ProviderConfig → Type 0
AreValid Valid ps = All (λ p. (p.name ≢ "") × Valid p) ps × AreDistinct (map (λ p. p.name) ps)

abbrev pub IsValidRouting : RoutingConfig → Type 0
IsValidRouting routing =
    At (routing.strategy) valid_routing_strategies
    × ((routing.strategy ≡ "model_based" → is_empty (routing.model_mapping) ≡ false)
        × (pos 0 ≤ℤ routing.failover_timeout))

abbrev pub IsValidLogging : LoggingConfig → Type 0
IsValidLogging logging =
    At (logging.level) valid_log_levels
    × (At (logging.format) valid_log_formats × (pos 0 ≤ℤ logging.max_body_log_size))

abbrev pub IsValidConfig : Net → ProxyConfig → Type 0
IsValidConfig net cfg =
    IsValidServer net (cfg.server)
    × (AreValid IsValidProvider (cfg.providers)
        × (AreValid IsValidOpenaiProvider (cfg.openai_providers)
            × (IsValidRouting (cfg.routing) × IsValidLogging (cfg.logging))))
