-- ===== src/Config/Validator/Listen.antt =====
-- The checks of the server's section: the listen address and the sizes.
use text.Mathlib.TextEquality.{eq_iff}
use cc_relay.Base.{
  ◌≡◌, ◌≢◌, refl, sym, ◌∙◌, subst, ◌↔◌, ◌⊎◌, inl, inr, Bool, true, false, not, ◌&&◌, String, List,
  [], ◌∷◌, ◌++◌, if◌then◌else◌, Option, none, some, pos, ltb_ℤ,
}
use cc_relay.EventStream.Bytes.{ascii}
use cc_relay.Config.{ServerConfig, is_blank}
use cc_relay.Config.Validator.{
  host_invalid, port_required, Net, ConfigError, listen_required, listen_format, add_if, has_space,
  validate_listen_address, validate_server,
}
use cc_relay.Config.Validator.Valid.{IsListenAddress, IsValidServer}
use cc_relay.Config.Validator.Checks.{append_iff, add_if_iff, blank_iff, negative_iff, field_iff}

host_iff :
    (net : Net) (host : String)
    → ((not (is_blank host) && (not (net.parse_ip host) && has_space (ascii host))) ≡ false)
      ↔ ((host ≡ "") ⊎ ((net.parse_ip host ≡ true) ⊎ (has_space (ascii host) ≡ false)))
host_iff net host = go (is_blank host) (net.parse_ip host) (has_space (ascii host)) (eq_iff host "")
  where
    apart : false ≡ true → ⊥
    apart e = absurd (cc)

    go :
        (b ip space : Bool)
        → ((b ≡ true) ↔ (host ≡ ""))
        → ((not b && (not ip && space)) ≡ false) ↔ ((host ≡ "") ⊎ ((ip ≡ true) ⊎ (space ≡ false)))
    go true ip space h = ((λ e. inl (h.0 refl)), (λ u. refl))
    go false true space h = ((λ e. inr (inl refl)), (λ u. refl))
    go false false false h = ((λ e. inr (inr refl)), (λ u. refl))
    go false false true h = (
      (λ e. absurd (apart (sym e))),
      (λ u. elim u [
        | inl blank ↦ absurd (apart (h.1 blank))
        | inr (inl ip) ↦ absurd (apart ip)
        | inr (inr space) ↦ absurd (apart (sym space))
      ]),
    )

validate_listen_address_iff :
    (net : Net) (addr : String) → (validate_listen_address net addr ≡ []) ↔ IsListenAddress net addr
unfolding validate_listen_address
validate_listen_address_iff net addr = go (net.split_host_port addr) refl
  where
    errors_of : Option (String × String) → List ConfigError
    errors_of o = elim o [
      | none ↦ listen_format addr ∷ []
      | some parts ↦
          add_if
            (not (is_blank (parts.0))
              && (not (net.parse_ip (parts.0)) && has_space (ascii (parts.0))))
            host_invalid
          ++ add_if (is_blank (parts.1)) port_required
    ]

    IsGood : String × String → Type 0
    IsGood parts =
        ((parts.0 ≡ "") ⊎ ((net.parse_ip (parts.0) ≡ true) ⊎ (has_space (ascii (parts.0)) ≡ false)))
        × (parts.1 ≢ "")

    apart : {parts : String × String} → none ≡ some parts → ⊥
    apart e = absurd (cc)

    same : {parts parts' : String × String} → some parts ≡ some parts' → parts ≡ parts'
    same e = cc

    refused : listen_format addr ∷ [] ≡ [] → ⊥
    refused e = absurd (cc)

    parts_iff : (parts : String × String) → (errors_of (some parts) ≡ []) ↔ IsGood parts
    parts_iff parts =
        append_iff
          (add_if
            (not (is_blank (parts.0))
              && (not (net.parse_ip (parts.0)) && has_space (ascii (parts.0))))
            _)
          _ (add_if_iff _ _ (host_iff net (parts.0)))
          (add_if_iff (is_blank (parts.1)) _ (blank_iff (parts.1)))

    go :
        (o : Option (String × String))
        → net.split_host_port addr ≡ o
        → (errors_of o ≡ []) ↔ IsListenAddress net addr
    go none e = ((λ f. absurd (refused f)), (λ found. absurd (apart (sym e ∙ found.1))))
    go (some parts) e = (
      (λ f. (parts, e, ((parts_iff parts).0 f).0, ((parts_iff parts).0 f).1)),
      (λ found. (parts_iff parts).1 (subst IsGood (same (sym found.1 ∙ e)) (found.2, found.3))),
    )

pub validate_server_iff :
    (net : Net) (server : ServerConfig)
    → (validate_server net server ≡ []) ↔ IsValidServer net server
unfolding validate_server
validate_server_iff net server =
    append_iff
      (if is_blank (server.listen)
        then listen_required ∷ []
        else validate_listen_address net (server.listen))
      _
      (field_iff (server.listen) listen_required (validate_listen_address net (server.listen))
        (validate_listen_address_iff net (server.listen)))
      (append_iff (add_if (ltb_ℤ (server.timeout_ms) (pos 0)) _) _
        (add_if_iff _ _ (negative_iff (server.timeout_ms)))
        (append_iff (add_if (ltb_ℤ (server.max_concurrent) (pos 0)) _) _
          (add_if_iff _ _ (negative_iff (server.max_concurrent)))
          (add_if_iff _ _ (negative_iff (server.max_body_bytes)))))
