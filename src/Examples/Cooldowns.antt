-- ===== src/Examples/Cooldowns.antt =====
-- Responses with a ZAI error, without one, and with a long Retry-After.
use cc_relay.Base.{◌≡◌, ◌⊎◌, String, str_eq, none, some, pos, if◌then◌else◌}
use cc_relay.Cooldown.{
  ErrorBody, no_zai_error, Response, Clock, new_cooldown_resolver, rest_for,
  parse_retry_after_header,
}
use cc_relay.Cooldown.Capped.{IsCapped, FallsBack, new_cooldown_resolver-IsCapped}

abbrev clock_model : Clock
clock_model = record {
  atoi = λ s. if str_eq s "86400" then some (pos 86400) else none;
  until_http_time = λ s. none;
  until_rfc3339 = λ s. none;
  until_reset = λ s. none;
}

abbrev response : ErrorBody → Response
response body = record {
  status_code = 429;
  header = λ key. if str_eq key "Retry-After" then "86400" else "";
  body = body;
}

new_cooldown_resolver-IsCapped_example :
    IsCapped (new_cooldown_resolver "zai" clock_model (response no_zai_error))
    ⊎ (Path String "zai" "zai"
        × FallsBack clock_model (response no_zai_error)
        × (new_cooldown_resolver "zai" clock_model (response no_zai_error)
            ≡ rest_for (parse_retry_after_header clock_model ((response no_zai_error).header))))
new_cooldown_resolver-IsCapped_example =
    new_cooldown_resolver-IsCapped "zai" clock_model (response no_zai_error)
