-- ===== src/Mandate/Bounds.antt =====
-- That the terms of a mandate that src/mox_adv/mandate_store.py validated are complete, and within the
-- limits of the policy.
use mox_adv.Prelude.{
  ℕ, ◌≤◌, ◌≡◌, refl, subst, true, Option, none, some, List, inl, inr, String, arith, Option-cases,
}
use mox_adv.Prelude.Json.{Json, Fields, int, negative, object, array, items_of}
use mox_adv.Commands.{lookup, is_text}
use mox_adv.Control.Principal.{AuthenticatedPrincipal}
use mox_adv.Control.Reason.{ReasonCode, boundary_rejected}
use mox_adv.Policy.Approval.{Step}
use mox_adv.Mandate.{MandatePolicy}
use mox_adv.Mandate.Results.{and-true, ok-injective, with_ok-Returned, at-Returned, check-passes}
use mox_adv.Mandate.State.{ok, check}
use mox_adv.Mandate.Terms.{MandateTerms, at, terms_of, time_of, natural_of, list_of, fields_of}
use mox_adv.Mandate.Validate.{
  is_scope, are_targets, validate_allowed, validate_prohibited, validate_times, validate_terms,
  validate_canonical, validate_payload, validate_issuer, fields_in, is_issuer, time_at, or_invalid,
}
use mox_adv.Mandate.Validate.Limits.{limit_within, is_cooldown, are_quotas, validate_limits}

-- The limits of a mandate keep to those of the policy.
abbrev pub IsWithin : MandatePolicy → MandateTerms → Type 0
IsWithin policy terms =
    (terms.total_monetary_limit ≤ policy.mandate_total_exposure_rub)
    × (terms.daily_monetary_limit ≤ policy.mandate_daily_exposure_rub)
    × (terms.maximum_step_change ≤ policy.maximum_step_percent)
    × (terms.maximum_daily_change ≤ policy.maximum_daily_cumulative_change_percent)
    × (terms.actions_per_24h ≤ policy.mandate_actions_per_24h)
    × (policy.observation_window_hours ≤ terms.observation_window_hours)

abbrev NaturalAt : String → Fields → ℕ → Type 0
NaturalAt name c maximum = (n : ℕ) × (lookup name c ≡ some (int n)) × (n ≤ maximum)

limit-NaturalAt :
    (name : String) (c : Fields) (maximum : ℕ)
    → at name c (limit_within maximum) ≡ ok tt
    → NaturalAt name c maximum
unfolding limit_within
limit-NaturalAt name c maximum h = elim (Option-cases (lookup name c)) [
  | inl e ↦ ground arith
  | inr (int n, e) ↦ (n, e, ground arith)
  | inr (negative n, e) ↦ ground arith
  | inr (_, e) ↦ ground arith
]

-- What the tests of the limits found.
abbrev LimitFacts : MandatePolicy → Fields → Type 0
LimitFacts policy c =
    NaturalAt "total_monetary_limit" c policy.mandate_total_exposure_rub
    × NaturalAt "daily_monetary_limit" c policy.mandate_daily_exposure_rub
    × NaturalAt "maximum_step_change" c policy.maximum_step_percent
    × NaturalAt "maximum_daily_change" c policy.maximum_daily_cumulative_change_percent
    × ((n : ℕ) × (natural_of (lookup "actions_per_24h" (fields_of (lookup "action_quotas" c)))
          ≡ some n)
        × (n ≤ policy.mandate_actions_per_24h))
    × ((n : ℕ) × (natural_of (lookup "observation_window_hours" (fields_of (lookup "cooldown" c)))
          ≡ some n)
        × (policy.observation_window_hours ≤ n))

quota-natural :
    (policy : MandatePolicy) (value : Json)
    → are_quotas policy value ≡ true
    → (n : ℕ) × (natural_of (lookup "actions_per_24h" (fields_of (some value))) ≡ some n)
      × (n ≤ policy.mandate_actions_per_24h)
unfolding are_quotas
quota-natural policy (object fields) h = elim (Option-cases (lookup "actions_per_24h" fields)) [
  | inl e ↦ ground arith
  | inr (int n, e) ↦ (n, ground arith, ground arith)
  | inr (_, e) ↦ ground arith
]
quota-natural policy _ h = ground arith

cooldown-natural :
    (policy : MandatePolicy) (value : Json)
    → is_cooldown policy value ≡ true
    → (n : ℕ) × (natural_of (lookup "observation_window_hours" (fields_of (some value))) ≡ some n)
      × (policy.observation_window_hours ≤ n)
unfolding is_cooldown
cooldown-natural policy (object fields) h =
    elim (Option-cases (lookup "observation_window_hours" fields)) [
      | inl e ↦ ground arith
      | inr (int n, e) ↦ (n, ground arith, ground arith)
      | inr (_, e) ↦ ground arith
    ]
cooldown-natural policy _ h = ground arith

validate_limits-facts :
    (policy : MandatePolicy) (c : Fields) → validate_limits policy c ≡ ok tt → LimitFacts policy c
unfolding validate_limits
validate_limits-facts policy c h =
    let (_, numeric, rest) = with_ok-Returned _ _ tt h in
    let (_, total, numeric_2) = with_ok-Returned _ _ tt numeric in
    let (_, daily, numeric_3) = with_ok-Returned _ _ tt numeric_2 in
    let (_, step, numeric_4) = with_ok-Returned _ _ tt numeric_3 in
    let (_, change, _) = with_ok-Returned _ _ tt numeric_4 in
    let (cooldown, has_cooldown, rest_2) = at-Returned "cooldown" c _ tt rest in
    let (_, is_long, rest_3) = with_ok-Returned _ _ tt rest_2 in
    let (quotas, has_quotas, are_few) = at-Returned "action_quotas" c _ tt rest_3 in
    (
      limit-NaturalAt "total_monetary_limit" c policy.mandate_total_exposure_rub total,
      limit-NaturalAt "daily_monetary_limit" c policy.mandate_daily_exposure_rub daily,
      limit-NaturalAt "maximum_step_change" c policy.maximum_step_percent step,
      limit-NaturalAt "maximum_daily_change" c policy.maximum_daily_cumulative_change_percent
          change,
      rw has_quotas (quota-natural policy quotas (check-passes _ _ tt are_few)),
      rw has_cooldown (cooldown-natural policy cooldown (check-passes _ _ tt is_long)),
    )

abbrev Present : Fields → String → Type 0
Present c name = (value : Json) × (lookup name c ≡ some value)

abbrev IsListed : Fields → String → Type 0
IsListed c name = (values : List Json) × (list_of (lookup name c) ≡ some values)

is_text-Present : (s name : String) (c : Fields) → is_text s (lookup name c) ≡ true → Present c name
is_text-Present s name c h = elim (Option-cases (lookup name c)) [
  | inl e ↦ ground arith
  | inr found ↦ found
]

targets-list :
    (value : Json) → are_targets value ≡ true → (js : List Json) × (list_of (some value) ≡ some js)
unfolding are_targets
targets-list (array items) h = (items_of items, refl)
targets-list _ h = ground arith

allowed-list :
    (policy : MandatePolicy) (value : Json) (names : List String)
    → validate_allowed policy value ≡ ok names
    → (js : List Json) × (list_of (some value) ≡ some js)
unfolding validate_allowed
allowed-list policy (array items) names h = (items_of items, refl)
allowed-list policy _ names h = ground arith

prohibited-list :
    (policy : MandatePolicy) (names : List String) (value : Json)
    → validate_prohibited policy names value ≡ ok tt
    → (js : List Json) × (list_of (some value) ≡ some js)
unfolding validate_prohibited
prohibited-list policy names (array items) h = (items_of items, refl)
prohibited-list policy names _ h = ground arith

scope-Present :
    (policy : MandatePolicy) (c : Fields)
    → is_scope policy c ≡ true
    → Present c "organization"
      × Present c "connection"
      × Present c "account"
      × Present c "policy_version"
unfolding is_scope
scope-Present policy c h =
    let (organization, rest) = and-true _ _ h in
    let (connection, rest_2) = and-true _ _ rest in
    let (account, rest_3) = and-true _ _ rest_2 in
    let (_, rest_4) = and-true _ _ rest_3 in
    let (_, version) = and-true _ _ rest_4 in
    (
      is_text-Present policy.organization "organization" c organization,
      is_text-Present policy.connection "connection" c connection,
      is_text-Present policy.direct_account "account" c account,
      is_text-Present policy.policy_id "policy_version" c version,
    )

-- What the tests of the scope and of the actions found.
abbrev TermFacts : MandatePolicy → Fields → Type 0
TermFacts policy c =
    Present c "organization"
    × Present c "connection"
    × Present c "account"
    × Present c "policy_version"
    × IsListed c "targets"
    × IsListed c "allowed_action_classes"
    × IsListed c "prohibited_action_classes"
    × LimitFacts policy c

validate_terms-facts :
    (parse_int : String → Option Step) (policy : MandatePolicy) (c : Fields)
    → validate_terms parse_int policy c ≡ ok tt
    → TermFacts policy c
unfolding validate_terms
validate_terms-facts parse_int policy c h =
    let (_, scope, rest) = with_ok-Returned _ _ tt h in
    let (organization, connection, account, version) =
      scope-Present policy c (check-passes _ _ tt scope) in
    let (targets, has_targets, rest_2) = at-Returned "targets" c _ tt rest in
    let (_, are_ok, rest_3) = with_ok-Returned _ _ tt rest_2 in
    let (allowed, has_allowed, rest_4) = at-Returned "allowed_action_classes" c _ tt rest_3 in
    let (names, allows, rest_5) = with_ok-Returned _ _ tt rest_4 in
    let (prohibited, has_prohibited, rest_6) =
      at-Returned "prohibited_action_classes" c _ tt rest_5 in
    let (_, prohibits, rest_7) = with_ok-Returned _ _ tt rest_6 in
    let (_, limits, _) = with_ok-Returned _ _ tt rest_7 in
    (
      organization,
      connection,
      account,
      version,
      rw has_targets (targets-list targets (check-passes _ _ tt are_ok)),
      rw has_allowed (allowed-list policy allowed names allows),
      rw has_prohibited (prohibited-list policy names prohibited prohibits),
      validate_limits-facts policy c limits,
    )

-- The terms are complete, and within the policy.
abbrev pub HasTerms : (String → Option ℕ) → MandatePolicy → Fields → Type 0
HasTerms parse_time policy c =
    (terms : MandateTerms) × (terms_of parse_time c ≡ some terms) × IsWithin policy terms

facts-HasTerms :
    (parse_time : String → Option ℕ) (policy : MandatePolicy) (c : Fields) (expiry : ℕ)
    → time_of parse_time (lookup "expiry" c) ≡ some expiry
    → TermFacts policy c
    → HasTerms parse_time policy c
unfolding terms_of
facts-HasTerms parse_time policy c expiry e
      (
        (_, organization),
        (_, connection),
        (_, account),
        (_, version),
        (_, targets),
        (_, allowed),
        (_, prohibited),
        (
          (_, total, a),
          (_, daily, b),
          (_, step, d),
          (_, change, f),
          (_, actions, g),
          (_, hours, k),
        ),
      ) =
    rw
      (
        terms_of, organization, connection, account, version, targets, allowed, prohibited, e,
        total, daily, step, change, actions, hours,
      )
      (_, refl, (a, b, d, f, g, k))

or_invalid-some : (o : Option ℕ) (n : ℕ) → or_invalid o ≡ ok n → o ≡ some n
or_invalid-some none n h = ground arith
or_invalid-some (some m) n h = ground arith

times-expiry :
    (parse_time : String → Option ℕ) (policy : MandatePolicy) (c : Fields) (now : ℕ)
    → validate_times parse_time policy c now ≡ ok tt
    → (expiry : ℕ) × (time_of parse_time (lookup "expiry" c) ≡ some expiry)
unfolding validate_times time_at time_of
times-expiry parse_time policy c now h =
    let (issued_at, _, rest) = with_ok-Returned (time_at parse_time "issued_at" c) _ tt h in
    let (expiry, found, _) = with_ok-Returned (time_at parse_time "expiry" c) _ tt rest in
    let (value, has_expiry, parses) = at-Returned "expiry" c _ expiry found in
    (expiry, rw has_expiry (or_invalid-some _ expiry parses))

abbrev mismatch : ReasonCode
mismatch = boundary_rejected "MANDATE_ISSUER_MISMATCH"

-- What `_validate_payload` accepts it returns unchanged.
pub validate_canonical-HasTerms :
    (canonicalize : Fields → Option Fields) (parse_time : String → Option ℕ)
    (parse_int : String → Option Step) (policy : MandatePolicy) (c accepted : Fields)
    (principal : AuthenticatedPrincipal) (now : ℕ)
    → validate_canonical canonicalize parse_time parse_int policy c principal now ≡ ok accepted
    → HasTerms parse_time policy accepted
unfolding validate_canonical
validate_canonical-HasTerms canonicalize parse_time parse_int policy c accepted principal now h =
    let (issuer, _, rest) = at-Returned "issuer" c _ accepted h in
    let (_, _, rest_2) =
      with_ok-Returned (check mismatch (is_issuer principal issuer)) _ accepted rest in
    let (_, times, rest_3) =
      with_ok-Returned (validate_times parse_time policy c now) _ accepted rest_2 in
    let (_, terms, same) =
      with_ok-Returned (validate_terms parse_int policy c) (λ _. ok c) accepted rest_3 in
    let (expiry, e) = times-expiry parse_time policy c now times in
    let has_terms : HasTerms parse_time policy c =
      facts-HasTerms parse_time policy c expiry e (validate_terms-facts parse_int policy c terms) in
    subst (HasTerms parse_time policy) (ok-injective c accepted same) has_terms

pub validate_payload-HasTerms :
    (canonicalize : Fields → Option Fields) (parse_time : String → Option ℕ)
    (parse_int : String → Option Step) (policy : MandatePolicy) (payload : Json) (accepted : Fields)
    (principal : AuthenticatedPrincipal) (now : ℕ)
    → validate_payload canonicalize parse_time parse_int policy payload principal now ≡ ok accepted
    → HasTerms parse_time policy accepted
unfolding validate_payload validate_issuer
validate_payload-HasTerms canonicalize parse_time parse_int policy payload accepted principal now
      h =
    let (_, _, rest) = with_ok-Returned (validate_issuer policy principal) _ accepted h in
    let (fields, _, rest_2) = with_ok-Returned (fields_in policy payload) _ accepted rest in
    elim (Option-cases (canonicalize fields)) [
      | inl e ↦ ground arith
      | inr (c, e) ↦
          validate_canonical-HasTerms canonicalize parse_time parse_int policy c accepted principal
            now (ground arith)
    ]

-- The document that is accepted is the one that was parsed.
pub validate_canonical-same :
    (canonicalize : Fields → Option Fields) (parse_time : String → Option ℕ)
    (parse_int : String → Option Step) (policy : MandatePolicy) (c accepted : Fields)
    (principal : AuthenticatedPrincipal) (now : ℕ)
    → validate_canonical canonicalize parse_time parse_int policy c principal now ≡ ok accepted
    → c ≡ accepted
unfolding validate_canonical
validate_canonical-same canonicalize parse_time parse_int policy c accepted principal now h =
    let (issuer, _, rest) = at-Returned "issuer" c _ accepted h in
    let (_, _, rest_2) =
      with_ok-Returned (check mismatch (is_issuer principal issuer)) _ accepted rest in
    let (_, _, rest_3) =
      with_ok-Returned (validate_times parse_time policy c now) _ accepted rest_2 in
    let (_, _, same) =
      with_ok-Returned (validate_terms parse_int policy c) (λ _. ok c) accepted rest_3 in
    ok-injective c accepted same

pub validate_payload-parsed :
    (canonicalize : Fields → Option Fields) (parse_time : String → Option ℕ)
    (parse_int : String → Option Step) (policy : MandatePolicy) (payload : Json) (accepted : Fields)
    (principal : AuthenticatedPrincipal) (now : ℕ)
    → validate_payload canonicalize parse_time parse_int policy payload principal now ≡ ok accepted
    → (fields : Fields) × (canonicalize fields ≡ some accepted)
unfolding validate_payload validate_issuer
validate_payload-parsed canonicalize parse_time parse_int policy payload accepted principal now h =
    let (_, _, rest) = with_ok-Returned (validate_issuer policy principal) _ accepted h in
    let (fields, _, rest_2) = with_ok-Returned (fields_in policy payload) _ accepted rest in
    elim (Option-cases (canonicalize fields)) [
      | inl e ↦ ground arith
      | inr (c, e) ↦ (
        fields,
        subst (λ d. canonicalize fields ≡ some d)
            (validate_canonical-same canonicalize parse_time parse_int policy c accepted principal
              now (ground arith))
            e,
      )
    ]
