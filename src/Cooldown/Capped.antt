-- ===== src/Cooldown/Capped.antt =====
-- What the resolvers decide, whatever the headers and the clock say.
use text.Mathlib.TextEquality.{eq_iff}
use cc_relay.Base.{
  ==_iff, ◌≡◌, refl, sym, ◌∙◌, subst, ◌↔◌, ◌⊎◌, inl, inr, Bool, true, false, not, Bool-cases,
  String, str_eq, ◌==◌, if◌then◌else◌, if_true, if_false, Option, none, some, ℤ, pos, ltb_ℤ, ◌≤ℤ◌,
  arith,
}
use cc_relay.Cooldown.{
  Response, Clock, CooldownDecision, max_cooldown_cap, capped, no_decision, rest_for,
  parse_retry_after_header, resolve_generic, parse_reset_headers, resolve_openai, reset_headers,
  ZaiErrorInfo, is_permanent_category, is_transient_category, parse_zai_429_error, resolve_429,
  resolve_400, is_zai_retryable_400_code, resolve_zai, new_cooldown_resolver,
}

abbrev pub IsCapped : CooldownDecision → Type 0
IsCapped d = d.cooldown ≤ℤ max_cooldown_cap

capped-le : (cd : ℤ) → capped cd ≤ℤ max_cooldown_cap
capped-le cd = ground arith

if-IsCapped :
    (b : Bool) (d d' : CooldownDecision) → IsCapped d → IsCapped d' → IsCapped (if b then d else d')
if-IsCapped true d d' h k = h
if-IsCapped false d d' h k = k

resolve_generic-IsCapped : (clock : Clock) (resp : Response) → IsCapped (resolve_generic clock resp)
unfolding resolve_generic
resolve_generic-IsCapped clock resp =
    if-IsCapped (not (resp.status_code == 429)) no_decision _ (omega arith)
      (capped-le (parse_retry_after_header clock (resp.header)))

resolve_openai-IsCapped : (clock : Clock) (resp : Response) → IsCapped (resolve_openai clock resp)
unfolding resolve_openai
resolve_openai-IsCapped clock resp =
    let cd = parse_reset_headers clock (resp.header) reset_headers in
    if-IsCapped (not (resp.status_code == 429)) no_decision _ (omega arith) (
      if-IsCapped (ltb_ℤ (pos 0) cd) (rest_for (capped cd)) _ (capped-le cd)
        (capped-le (parse_retry_after_header clock (resp.header))))

-- The response is one of status 429 in which the ZAI resolver finds no error code.
abbrev pub FallsBack : Clock → Response → Type 0
FallsBack clock resp = (resp.status_code ≡ 429) × (parse_zai_429_error clock (resp.body) ≡ none)

resolve_429-cases :
    (clock : Clock) (resp : Response)
    → IsCapped (resolve_429 clock resp)
      ⊎ ((parse_zai_429_error clock (resp.body) ≡ none)
          × (resolve_429 clock resp ≡ rest_for (parse_retry_after_header clock (resp.header))))
unfolding resolve_429
resolve_429-cases clock resp = go (parse_zai_429_error clock (resp.body)) refl
  where
    decide : Option ZaiErrorInfo → CooldownDecision
    decide o = elim o [
      | none ↦ rest_for (parse_retry_after_header clock (resp.header))
      | some info ↦
          if is_permanent_category (info.category)
          then record { cooldown = pos 0; is_permanent = true; skip_cb = true }
          else record {
            cooldown = capped (info.cooldown);
            is_permanent = false;
            skip_cb = is_transient_category (info.category);
          }
    ]

    go :
        (o : Option ZaiErrorInfo)
        → parse_zai_429_error clock (resp.body) ≡ o
        → IsCapped (decide o)
          ⊎ ((parse_zai_429_error clock (resp.body) ≡ none)
              × (decide o ≡ rest_for (parse_retry_after_header clock (resp.header))))
    go none e = inr (e, refl)
    go (some info) e = inl (
        if-IsCapped (is_permanent_category (info.category))
          (record { cooldown = pos 0; is_permanent = true; skip_cb = true })
          (record {
            cooldown = capped (info.cooldown);
            is_permanent = false;
            skip_cb = is_transient_category (info.category);
          })
          (omega arith) (capped-le (info.cooldown)))

resolve_400-IsCapped : (clock : Clock) (resp : Response) → IsCapped (resolve_400 clock resp)
unfolding resolve_400
resolve_400-IsCapped clock resp = go (parse_zai_429_error clock (resp.body))
  where
    go :
        (o : Option ZaiErrorInfo)
        → IsCapped (elim o as (λ x. CooldownDecision) [
          | none ↦ no_decision
          | some info ↦
              if not (is_zai_retryable_400_code (info.code))
              then no_decision
              else record { cooldown = pos 30000000000; is_permanent = false; skip_cb = true }
        ])
    go none = omega arith
    go (some info) =
        if-IsCapped (not (is_zai_retryable_400_code (info.code))) no_decision
          (record { cooldown = pos 30000000000; is_permanent = false; skip_cb = true })
          (omega arith) (omega arith)

resolve_zai-cases :
    (clock : Clock) (resp : Response)
    → IsCapped (resolve_zai clock resp)
      ⊎ (FallsBack clock resp
          × (resolve_zai clock resp ≡ rest_for (parse_retry_after_header clock (resp.header))))
unfolding resolve_zai
resolve_zai-cases clock resp = elim (Bool-cases (resp.status_code == 429)) [
  | inl too_many ↦
      let same =
        if_true (resp.status_code == 429) (resolve_429 clock resp)
          (if resp.status_code == 400 then resolve_400 clock resp else no_decision) too_many in
      elim (resolve_429-cases clock resp) [
        | inl small ↦ inl (subst IsCapped (sym same) small)
        | inr back ↦ inr (((==_iff (resp.status_code) 429).0 too_many, back.0), same ∙ back.1)
      ]
  | inr other ↦
      let same =
        if_false (resp.status_code == 429) (resolve_429 clock resp)
          (if resp.status_code == 400 then resolve_400 clock resp else no_decision) other in
      inl (
        subst IsCapped (sym same) (
          if-IsCapped (resp.status_code == 400) (resolve_400 clock resp) no_decision
            (resolve_400-IsCapped clock resp) (omega arith)))
]

-- For every strategy, response and clock, the cooldown that the resolver decides on is at most
-- MaxCooldownCap (six hours), except when the strategy is zai, the status is 429 and no ZAI
-- error code is found in the body; then it is what the Retry-After header says, without a cap.
pub new_cooldown_resolver-IsCapped :
    (strategy : String) (clock : Clock) (resp : Response)
    → IsCapped (new_cooldown_resolver strategy clock resp)
      ⊎ ((strategy ≡ "zai")
          × FallsBack clock resp
          × (new_cooldown_resolver strategy clock resp
              ≡ rest_for (parse_retry_after_header clock (resp.header))))
unfolding new_cooldown_resolver
new_cooldown_resolver-IsCapped strategy clock resp =
    go (str_eq strategy "zai") (str_eq strategy "openai") (eq_iff strategy "zai")
  where
    go :
        (zai openai : Bool)
        → ((zai ≡ true) ↔ (strategy ≡ "zai"))
        → IsCapped (
            (if zai then resolve_zai else if openai then resolve_openai else resolve_generic) clock
              resp)
          ⊎ ((strategy ≡ "zai")
              × FallsBack clock resp
              × ((if zai then resolve_zai else if openai then resolve_openai else resolve_generic)
                    clock resp
                  ≡ rest_for (parse_retry_after_header clock (resp.header))))
    go true openai h = elim (resolve_zai-cases clock resp) [
      | inl small ↦ inl small
      | inr back ↦ inr (h.0 refl, back.0, back.1)
    ]
    go false true h = inl (resolve_openai-IsCapped clock resp)
    go false false h = inl (resolve_generic-IsCapped clock resp)
