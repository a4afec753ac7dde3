-- ===== src/Examples/Configs.antt =====
-- A small configuration, with two providers of one section and one of the other.
use cc_relay.Base.{◌≡◌, refl, true, false, [], ◌∷◌, String, str_eq, none, some, pos, if◌then◌else◌}
use cc_relay.EventStream.Bytes.{ascii}
use cc_relay.Config.{
  KeyConfig, ProviderConfig, ProxyConfig, is_zhipu_provider, find_provider_cooldown_strategy,
  get_cooldown_strategy,
}
use cc_relay.Config.Validator.{
  Net, member, has_space, validate_listen_address, validate_server, validate_cloud_provider_config,
  validate_keys, validate_settings, validate_name, validate_type, validate_provider,
  validate_openai_provider, validate_each, validate_providers, validate_openai_providers,
  validate_routing, validate_logging, validate,
}
use cc_relay.Config.Lookup.{validated-lookup}

abbrev net_model : Net
net_model = record {
  split_host_port =
      λ addr. if str_eq addr "localhost:8787" then some ("localhost", "8787") else none;
  parse_ip = λ host. false;
}

abbrev key_config : KeyConfig
key_config = record {
  key = "sk-1";
  rpm_limit = pos 50;
  itpm_limit = pos 0;
  otpm_limit = pos 0;
  tpm_limit = pos 0;
  priority = pos 1;
  weight = pos 1;
  enabled = none;
}

abbrev provider_config : String → String → ProviderConfig
provider_config name provider_type = record {
  name = name;
  provider_type = provider_type;
  base_url = "https://example.com";
  aws_region = "";
  gcp_project_id = "";
  gcp_region = "";
  azure_resource_name = "";
  keys = key_config ∷ [];
  pooling = record { strategy = "round_robin"; enabled = true };
  zhipu = false;
  cooldown_strategy = "";
  priority = pos 0;
  weight = pos 3;
}

abbrev zai_provider : ProviderConfig
zai_provider = provider_config "second" "zai"

abbrev config : ProxyConfig
config = record {
  providers = provider_config "first" "anthropic" ∷ zai_provider ∷ [];
  openai_providers = provider_config "first" "openai" ∷ [];
  routing = record { strategy = "shuffle"; model_mapping = []; failover_timeout = pos 5000 };
  logging = record { level = "info"; format = ""; max_body_log_size = pos 0 };
  server = record {
    listen = "localhost:8787";
    timeout_ms = pos 0;
    max_concurrent = pos 0;
    max_body_bytes = pos 0;
  };
}

config-valid : validate net_model config ≡ []
unfolding ascii member has_space validate_listen_address validate_server
    validate_cloud_provider_config validate_keys validate_settings validate_name validate_type
    validate_provider validate_openai_provider validate_each validate_providers
    validate_openai_providers validate_routing validate_logging validate
config-valid = refl

validated-lookup_example :
    (find_provider_cooldown_strategy config "second" ≡ get_cooldown_strategy zai_provider)
    × (is_zhipu_provider config "second" ≡ false)
validated-lookup_example = validated-lookup net_model config config-valid zai_provider (1, refl)
