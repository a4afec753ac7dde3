-- ===== src/Config.antt =====
-- The configuration: config/config.go (the parts that choose and validate providers) and
-- config/validator.go. A Go string is a native text.
pub mod Validator
pub mod Lookup
use cc_relay.Base.{
  sub_ℕ, ℕ, suc, ◌<◌, ◌/◌, ◌≡◌, Bool, true, false, not, ◌&&◌, ◌||◌, String, str_eq, List, [], ◌∷◌,
  length, ltb, if◌then◌else◌, Option, none, some, ℤ, pos, negsuc, leb_ℤ, ltb_ℤ,
}

pub record KeyConfig : Type 0 where
  pub key : String
  pub rpm_limit : ℤ
  pub itpm_limit : ℤ
  pub otpm_limit : ℤ
  pub tpm_limit : ℤ
  pub priority : ℤ
  pub weight : ℤ
  pub enabled : Option Bool

pub record PoolingConfig : Type 0 where
  pub strategy : String
  pub enabled : Bool

-- The fields that the modelled functions read.
pub record ProviderConfig : Type 0 where
  pub name : String
  pub provider_type : String
  pub base_url : String
  pub aws_region : String
  pub gcp_project_id : String
  pub gcp_region : String
  pub azure_resource_name : String
  pub keys : List KeyConfig
  pub pooling : PoolingConfig
  pub zhipu : Bool
  pub cooldown_strategy : String
  pub priority : ℤ
  pub weight : ℤ

pub record RoutingConfig : Type 0 where
  pub strategy : String
  pub model_mapping : List (String × String)
  pub failover_timeout : ℤ

pub record ServerConfig : Type 0 where
  pub listen : String
  pub timeout_ms : ℤ
  pub max_concurrent : ℤ
  pub max_body_bytes : ℤ

pub record LoggingConfig : Type 0 where
  pub level : String
  pub format : String
  pub max_body_log_size : ℤ

pub record ProxyConfig : Type 0 where
  pub providers : List ProviderConfig
  pub openai_providers : List ProviderConfig
  pub routing : RoutingConfig
  pub logging : LoggingConfig
  pub server : ServerConfig

-- `s == ""`
abbrev pub is_blank : String → Bool
is_blank s = str_eq s ""

unfoldable pub get_effective_weight : ProviderConfig → ℤ
get_effective_weight p = if leb_ℤ (p.weight) (pos 0) then pos 1 else p.weight

unfoldable pub get_effective_strategy : ProviderConfig → String
get_effective_strategy p =
    if not (is_blank (p.pooling.strategy)) then p.pooling.strategy else "least_loaded"

unfoldable pub is_pooling_enabled : ProviderConfig → Bool
is_pooling_enabled p = if p.pooling.enabled then true else ltb 1 (length (p.keys))

unfoldable pub get_cooldown_strategy : ProviderConfig → String
get_cooldown_strategy p =
    if not (is_blank (p.cooldown_strategy))
    then p.cooldown_strategy
    else if str_eq (p.provider_type) "zai"
    then "zai"
    else "generic"

-- The loops of `IsZhipuProvider` and `FindProviderCooldownStrategy` over one list.
unfoldable pub find_provider : String → List ProviderConfig → Option ProviderConfig
find_provider name [] = none
find_provider name (p ∷ ps) =
    let later = find_provider name ps in if str_eq (p.name) name then some p else later

unfoldable pub is_zhipu_provider : ProxyConfig → String → Bool
is_zhipu_provider cfg name = elim (find_provider name (cfg.providers)) [
  | some p ↦ p.zhipu
  | none ↦ elim (find_provider name (cfg.openai_providers)) [ some p ↦ p.zhipu | none ↦ false ]
]

unfoldable pub find_provider_cooldown_strategy : ProxyConfig → String → String
find_provider_cooldown_strategy cfg name = elim (find_provider name (cfg.providers)) [
  | some p ↦ get_cooldown_strategy p
  | none ↦ elim (find_provider name (cfg.openai_providers)) [
    | some p ↦ get_cooldown_strategy p
    | none ↦ "generic"
  ]
]

unfoldable pub is_key_enabled : KeyConfig → Bool
is_key_enabled key = elim (key.enabled) [ none ↦ true | some enabled ↦ enabled ]

-- Go's `n / 2`, which rounds towards 0.
abbrev pub half : ℤ → ℤ
half (pos n) = pos (n / 2)
half (negsuc n) = sub_ℕ 0 (suc n / 2)

unfoldable pub get_effective_tpm : KeyConfig → ℤ × ℤ
get_effective_tpm key =
    if ltb_ℤ (pos 0) (key.itpm_limit) || ltb_ℤ (pos 0) (key.otpm_limit)
    then (key.itpm_limit, key.otpm_limit)
    else if ltb_ℤ (pos 0) (key.tpm_limit)
    then (half (key.tpm_limit), half (key.tpm_limit))
    else (pos 0, pos 0)

pub data KeyConfigError : Type 0 where
  key_required : KeyConfigError
  invalid_priority invalid_weight : ℤ → KeyConfigError

unfoldable pub validate_key_config : KeyConfig → Option KeyConfigError
validate_key_config key =
    if is_blank (key.key)
    then some key_required
    else if ltb_ℤ (key.priority) (pos 0) || ltb_ℤ (pos 2) (key.priority)
    then some (invalid_priority (key.priority))
    else if ltb_ℤ (key.weight) (pos 0)
    then some (invalid_weight (key.weight))
    else none
