-- ===== src/Router/Triggers.antt =====
-- internal/router/triggers.go: the conditions on which a failed attempt moves to another provider.
use cc_relay.Base.{
  ◌≡◌, refl, ap, Bool, true, false, ◌||◌, Option, none, some, List, [], ◌∷◌, ◌++◌, Err,
  is_deadline_exceeded, is_net_error, ℤ, pos, eqb_ℤ, All, Bool-cases, inl, inr, if◌then◌else◌,
}

-- The three implementations of the interface. `nil` is no error.
pub data FailoverTrigger : Type 0 where
  status_code_trigger : List ℤ → FailoverTrigger
  timeout_trigger connection_trigger : FailoverTrigger

-- `slices.Contains`.
unfoldable pub contains : List ℤ → ℤ → Bool
contains [] code = false
contains (c ∷ cs) code = eqb_ℤ c code || contains cs code

-- The method `ShouldFailover` of each trigger.
unfoldable pub fires : FailoverTrigger → Option Err → ℤ → Bool
unfolding contains
fires (status_code_trigger codes) error status_code = contains codes status_code
fires timeout_trigger none status_code = false
fires timeout_trigger (some e) status_code = is_deadline_exceeded e
fires connection_trigger none status_code = false
fires connection_trigger (some e) status_code = is_net_error e

abbrev pub default_triggers : List FailoverTrigger
default_triggers =
    status_code_trigger (pos 403 ∷ pos 429 ∷ pos 500 ∷ pos 502 ∷ pos 503 ∷ pos 504 ∷ [])
    ∷ timeout_trigger
    ∷ connection_trigger
    ∷ []

unfoldable pub should_failover : List FailoverTrigger → Option Err → ℤ → Bool
should_failover [] error status_code = false
should_failover (t ∷ ts) error status_code =
    let rest = should_failover ts error status_code in
    if fires t error status_code then true else rest

unfoldable pub find_matching_trigger :
    List FailoverTrigger → Option Err → ℤ → Option FailoverTrigger
find_matching_trigger [] error status_code = none
find_matching_trigger (t ∷ ts) error status_code =
    let rest = find_matching_trigger ts error status_code in
    if fires t error status_code then some t else rest

-- What the two loops find, together.
pub data Search (ts : List FailoverTrigger) (error : Option Err) (code : ℤ) : Type 0 where
  no_match :
      All (λ t. fires t error code ≡ false) ts
      → should_failover ts error code ≡ false
      → find_matching_trigger ts error code ≡ none
      → Search ts error code
  first_match :
      (before after : List FailoverTrigger) (t : FailoverTrigger)
      → ts ≡ before ++ (t ∷ after)
      → All (λ u. fires u error code ≡ false) before
      → fires t error code ≡ true
      → should_failover ts error code ≡ true
      → find_matching_trigger ts error code ≡ some t
      → Search ts error code

-- For all triggers, errors and status codes: either no trigger fires, `ShouldFailover` says no
-- and `FindMatchingTrigger` finds nothing, or the two agree on the first trigger that fires.
pub should_failover-Search :
    (ts : List FailoverTrigger) (error : Option Err) (code : ℤ) → Search ts error code
unfolding should_failover find_matching_trigger
should_failover-Search [] error code = no_match tt refl refl
should_failover-Search (t ∷ ts) error code = elim (Bool-cases (fires t error code)) [
  | inl hit ↦
      first_match [] ts t refl tt hit (rw (hit, should_failover)) (rw (hit, find_matching_trigger))
  | inr miss ↦ elim (should_failover-Search ts error code) [
    | no_match all a b ↦
        no_match (miss, all) (rw (miss, should_failover) a) (rw (miss, find_matching_trigger) b)
    | first_match before after u split all hit a b ↦
        first_match (t ∷ before) after u (ap (◌∷◌ t) split) (miss, all) hit
          (rw (miss, should_failover) a) (rw (miss, find_matching_trigger) b)
  ]
]
