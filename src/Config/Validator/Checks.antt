-- ===== src/Config/Validator/Checks.antt =====
-- Each check of the validator adds no error exactly when its condition holds.
use text.Mathlib.TextEquality.{eq_iff}
use cc_relay.Base.{
  ℕ, zero, suc, ◌≡◌, ◌≢◌, refl, sym, ap, subst, ◌↔◌, Bool, true, false, not, ◌&&◌, String, str_eq,
  List, [], ◌∷◌, ◌++◌, All, At, if◌then◌else◌, some, ℤ, pos, ltb_ℤ, ◌≤ℤ◌, arith,
}
use cc_relay.Config.{KeyConfig, ProviderConfig, is_blank}
use cc_relay.Config.Validator.{
  Section, Place, ConfigError, add_if, member, valid_pooling_strategies, valid_cooldown_strategies,
  valid_provider_types, validate_cloud_provider_config, validate_keys, validate_settings,
  validate_type,
}
use cc_relay.Config.Validator.Valid.{HasCloudFields, HasValidSettings}

pub append_iff {ℓ κ ι} :
    {A : Type ℓ} {P : Type κ} {Q : Type ι} (xs ys : List A)
    → ((xs ≡ []) ↔ P)
    → ((ys ≡ []) ↔ Q)
    → ((xs ++ ys) ≡ []) ↔ (P × Q)
append_iff [] ys h k = ((λ e. (h.0 refl, k.0 e)), (λ pq. k.1 (pq.1)))
append_iff (x ∷ xs) ys h k = ((λ e. absurd (cc)), (λ pq. absurd (cons_not_nil (h.1 (pq.0)))))
  where
    cons_not_nil : (x ∷ xs) ≡ [] → ⊥
    cons_not_nil e = absurd (cc)

pub add_if_iff {κ} :
    {P : Type κ} (b : Bool) (e : ConfigError) → ((b ≡ false) ↔ P) → (add_if b e ≡ []) ↔ P
add_if_iff true e h = ((λ f. absurd (cc)), (λ p. absurd (true_not_false (h.1 p))))
  where
    true_not_false : true ≡ false → ⊥
    true_not_false e = absurd (cc)
add_if_iff false e h = ((λ f. h.0 refl), (λ p. refl))

pub false_iff {κ} : {P : Type κ} (b : Bool) → ((b ≡ true) ↔ P) → (b ≡ false) ↔ (P → ⊥)
false_iff true h = ((λ e. absurd (cc)), (λ k. absurd (k (h.0 refl))))
false_iff false h = ((λ e p. apart (h.1 p)), (λ k. refl))
  where
    apart : false ≡ true → ⊥
    apart e = absurd (cc)

pub blank_iff : (s : String) → (is_blank s ≡ false) ↔ (s ≢ "")
blank_iff s = false_iff (is_blank s) (eq_iff s "")

pub implies_iff {κ ι} :
    {P : Type κ} {Q : Type ι} (b c : Bool)
    → ((b ≡ true) ↔ P)
    → ((c ≡ false) ↔ Q)
    → ((b && c) ≡ false) ↔ (P → Q)
implies_iff true c h k = ((λ e p. k.0 e), (λ f. k.1 (f (h.0 refl))))
implies_iff false c h k = ((λ e p. absurd (apart (h.1 p))), (λ f. refl))
  where
    apart : false ≡ true → ⊥
    apart e = absurd (cc)

pub needs_iff : (s t f : String) → ((str_eq s t && is_blank f) ≡ false) ↔ (s ≡ t → f ≢ "")
needs_iff s t f = implies_iff (str_eq s t) (is_blank f) (eq_iff s t) (blank_iff f)

some_inj : {s t : String} → some s ≡ some t → s ≡ t
some_inj e = cc

pub member_iff : (s : String) (xs : List String) → (member s xs ≡ true) ↔ At s xs
unfolding member
member_iff s [] = ((λ e. absurd (cc)), (λ h. absurd (nothing h)))
  where
    nothing : At s [] → ⊥
    nothing (i, e) = absurd (cc)
member_iff s (x ∷ xs) = go (str_eq s x) (eq_iff s x) (member_iff s xs)
  where
    there : At s xs → At s (x ∷ xs)
    there (i, e) = (suc i, e)

    back : (s ≡ x → ⊥) → At s (x ∷ xs) → At s xs
    back apart (zero, e) = absurd (apart (sym (some_inj e)))
    back apart (suc i, e) = (i, e)

    apart : false ≡ true → ⊥
    apart e = absurd (cc)

    go :
        (b : Bool)
        → ((b ≡ true) ↔ (s ≡ x))
        → ((member s xs ≡ true) ↔ At s xs)
        → ((if b then true else member s xs) ≡ true) ↔ At s (x ∷ xs)
    go true h ih = ((λ e. (0, ap some (sym (h.0 refl)))), (λ at. refl))
    go false h ih = ((λ e. there (ih.0 e)), (λ at. ih.1 (back (λ e. apart (h.1 e)) at)))

pub not_iff {κ} : {P : Type κ} (b : Bool) → ((b ≡ true) ↔ P) → (not b ≡ false) ↔ P
not_iff true h = ((λ e. h.0 refl), (λ p. refl))
not_iff false h = ((λ e. absurd (cc)), (λ p. absurd (apart (h.1 p))))
  where
    apart : false ≡ true → ⊥
    apart e = absurd (cc)

pub not_member_iff : (s : String) (xs : List String) → (not (member s xs) ≡ false) ↔ At s xs
not_member_iff s xs = not_iff (member s xs) (member_iff s xs)

pub negative_iff : (z : ℤ) → (ltb_ℤ z (pos 0) ≡ false) ↔ (pos 0 ≤ℤ z)
negative_iff z = ground arith

if_blank_iff {κ ι} :
    {P : Type κ} {Q : Type ι} (b : Bool) (e : ConfigError) (xs : List ConfigError)
    → ((b ≡ false) ↔ Q)
    → ((xs ≡ []) ↔ P)
    → ((if b then e ∷ [] else xs) ≡ []) ↔ (Q × P)
if_blank_iff true e xs k h = ((λ f. absurd (cc)), (λ p. absurd (apart (k.1 (p.0)))))
  where
    apart : true ≡ false → ⊥
    apart e = absurd (cc)
if_blank_iff false e xs k h = ((λ f. (k.0 refl, h.0 f)), (λ p. h.1 (p.1)))

-- A text that must not be blank and must be one of a list that the blank one is not on.
pub field_iff {κ} :
    {P : Type κ} (s : String) (e : ConfigError) (xs : List ConfigError)
    → ((xs ≡ []) ↔ P)
    → ((if is_blank s then e ∷ [] else xs) ≡ []) ↔ ((s ≢ "") × P)
field_iff s e xs h = if_blank_iff (is_blank s) e xs (blank_iff s) h

validate_keys_iff :
    (name : String) (index : ℕ) (keys : List KeyConfig)
    → (validate_keys name index keys ≡ []) ↔ All (λ key. key.key ≢ "") keys
unfolding validate_keys
validate_keys_iff name index [] = ((λ e. tt), (λ u. refl))
validate_keys_iff name index (key ∷ keys) =
    append_iff (add_if (is_blank (key.key)) _) (validate_keys name (suc index) keys)
      (add_if_iff (is_blank (key.key)) _ (blank_iff (key.key)))
      (validate_keys_iff name (suc index) keys)

validate_cloud_provider_config_iff :
    (section : Section) (place : Place) (p : ProviderConfig)
    → (validate_cloud_provider_config section place p ≡ []) ↔ HasCloudFields p
unfolding validate_cloud_provider_config
validate_cloud_provider_config_iff section place p =
    append_iff (add_if (str_eq (p.provider_type) "bedrock" && is_blank (p.aws_region)) _) _
      (add_if_iff _ _ (needs_iff (p.provider_type) "bedrock" (p.aws_region)))
      (append_iff (add_if (str_eq (p.provider_type) "vertex" && is_blank (p.gcp_project_id)) _) _
        (add_if_iff _ _ (needs_iff (p.provider_type) "vertex" (p.gcp_project_id)))
        (append_iff (add_if (str_eq (p.provider_type) "vertex" && is_blank (p.gcp_region)) _) _
          (add_if_iff _ _ (needs_iff (p.provider_type) "vertex" (p.gcp_region)))
          (add_if_iff _ _ (needs_iff (p.provider_type) "azure" (p.azure_resource_name)))))

-- The blank strategy is one of the valid ones, so that the test for it changes nothing.
pooling_iff :
    (s : String)
    → ((not (is_blank s) && not (member s valid_pooling_strategies)) ≡ false)
      ↔ At s valid_pooling_strategies
pooling_iff s =
    go (is_blank s) (member s valid_pooling_strategies) (eq_iff s "")
      (member_iff s valid_pooling_strategies)
  where
    apart : true ≡ false → ⊥
    apart e = absurd (cc)

    go :
        (b c : Bool)
        → ((b ≡ true) ↔ (s ≡ ""))
        → ((c ≡ true) ↔ At s valid_pooling_strategies)
        → ((not b && not c) ≡ false) ↔ At s valid_pooling_strategies
    go true c h k = ((λ e. (0, ap some (sym (h.0 refl)))), (λ at. refl))
    go false true h k = ((λ e. k.0 refl), (λ at. refl))
    go false false h k = ((λ e. absurd (apart e)), (λ at. absurd (apart (sym (k.1 at)))))

pub validate_settings_iff :
    (section : Section) (place : Place) (p : ProviderConfig)
    → (validate_settings section place p ≡ []) ↔ HasValidSettings p
unfolding validate_settings
validate_settings_iff section place p =
    append_iff (validate_cloud_provider_config section place p) _
      (validate_cloud_provider_config_iff section place p)
      (append_iff (validate_keys (p.name) 0 (p.keys)) _ (validate_keys_iff (p.name) 0 (p.keys)) (
        append_iff
          (add_if
            (not (is_blank (p.pooling.strategy))
              && not (member (p.pooling.strategy) valid_pooling_strategies))
            _)
          _ (add_if_iff _ _ (pooling_iff (p.pooling.strategy)))
          (append_iff (add_if (not (member (p.cooldown_strategy) valid_cooldown_strategies)) _) _
            (add_if_iff _ _ (not_member_iff (p.cooldown_strategy) valid_cooldown_strategies))
            (append_iff (add_if (ltb_ℤ (p.priority) (pos 0)) _) _
              (add_if_iff _ _ (negative_iff (p.priority)))
              (add_if_iff _ _ (negative_iff (p.weight)))))))

not_blank_type : (s : String) → At s valid_provider_types → s ≢ ""
unfolding member
not_blank_type s at e =
    apart (
      subst (λ s. member s valid_provider_types ≡ true) e
        ((member_iff s valid_provider_types).1 at))
  where
    apart : member "" valid_provider_types ≡ true → ⊥
    apart e = absurd (cc)

pub validate_type_iff :
    (section : Section) (place : Place) (p : ProviderConfig)
    → (validate_type section place p ≡ []) ↔ At (p.provider_type) valid_provider_types
unfolding validate_type
validate_type_iff section place p =
    let both =
      field_iff (p.provider_type) _ _
        (add_if_iff _ _ (not_member_iff (p.provider_type) valid_provider_types)) in
    ((λ e. (both.0 e).1), (λ at. both.1 (not_blank_type (p.provider_type) at, at)))

pub not_seen_iff :
    (s name : String) (seen : List String)
    → (member s (name ∷ seen) ≡ false) ↔ ((s ≢ name) × (member s seen ≡ false))
unfolding member
not_seen_iff s name seen = go (str_eq s name) (member s seen) (eq_iff s name)
  where
    apart : true ≡ false → ⊥
    apart e = absurd (cc)

    go :
        (b later : Bool)
        → ((b ≡ true) ↔ (s ≡ name))
        → ((if b then true else later) ≡ false) ↔ ((s ≢ name) × (later ≡ false))
    go true later h = ((λ e. absurd (apart e)), (λ both. absurd (both.0 (h.0 refl))))
    go false later h = ((λ e. ((λ same. apart (sym (h.1 same))), e)), (λ both. both.1))
