-- ===== src/Mandate/Terms.antt =====
-- What src/mox_adv/mandate_store.py reads of the canonical object of a mandate, and the exposure and the
-- step of a prepared change (src/mox_adv/autonomy_contracts.py).
use mox_adv.Prelude.{
  ℕ, ◌+◌, ◌-◌, ◌/◌, String, Bool, false, ◌||◌, Option, none, some, List, [], ◌∷◌, ltb,
  if◌then◌else◌,
}
use mox_adv.Prelude.Json.{Json, Fields, int, negative, text, instant, object, array, items_of, end}
use mox_adv.Commands.{action_spec, lookup, is_text}
use mox_adv.Control.Reason.{invalid_input}
use mox_adv.Control.Rows.{PreparedChange}
use mox_adv.Mandate.State.{MandateResult, ok, rejected, raises}

pub record MandateTerms : Type 0 where
  pub organization : Json
  pub connection : Json
  pub account : Json
  pub policy_version : Json
  pub targets : List Json
  pub allowed : List Json
  pub prohibited : List Json
  pub expiry : ℕ
  pub total_monetary_limit : ℕ
  pub daily_monetary_limit : ℕ
  pub maximum_step_change : ℕ
  pub maximum_daily_change : ℕ
  pub actions_per_24h : ℕ
  pub observation_window_hours : ℕ

-- `_parse_utc` of a field: `parse_time` is `datetime.fromisoformat`, for zoned texts. `none` is
-- `ControlRejected`, or a field that is missing.
unfoldable pub time_of : (String → Option ℕ) → Option Json → Option ℕ
time_of parse_time (some (instant n)) = some n
time_of parse_time (some (text s)) = parse_time s
time_of parse_time _ = none

abbrev pub natural_of : Option Json → Option ℕ
natural_of (some (int n)) = some n
natural_of _ = none

abbrev pub list_of : Option Json → Option (List Json)
list_of (some (array items)) = some (items_of items)
list_of _ = none

abbrev pub fields_of : Option Json → Fields
fields_of (some (object fields)) = fields
fields_of _ = end

-- text `in` list
abbrev pub has_text : String → List Json → Bool
has_text s [] = false
has_text s (j ∷ js) = is_text s (some j) || has_text s js

abbrev pub with_value : {A B : Type 0} → Option A → (A → Option B) → Option B
with_value none f = none
with_value (some a) f = f a

-- The fields that the methods read, all at once; `none` where one is missing or of another type.
unfoldable pub terms_of : (String → Option ℕ) → Fields → Option MandateTerms
unfolding time_of
terms_of parse_time c = with_value (lookup "organization" c) λ organization.
    with_value (lookup "connection" c) λ connection. with_value (lookup "account" c) λ account.
      with_value (lookup "policy_version" c) λ policy_version.
        with_value (list_of (lookup "targets" c)) λ targets.
          with_value (list_of (lookup "allowed_action_classes" c)) λ allowed.
            with_value (list_of (lookup "prohibited_action_classes" c)) λ prohibited.
              with_value (time_of parse_time (lookup "expiry" c)) λ expiry.
                with_value (natural_of (lookup "total_monetary_limit" c)) λ total.
                  with_value (natural_of (lookup "daily_monetary_limit" c)) λ daily.
                    with_value (natural_of (lookup "maximum_step_change" c)) λ step.
                      with_value (natural_of (lookup "maximum_daily_change" c)) λ change.
                        with_value
                          (natural_of
                            (lookup "actions_per_24h" (fields_of (lookup "action_quotas" c))))
                          λ actions.
                            with_value
                              (natural_of (
                                lookup "observation_window_hours"
                                  (fields_of (lookup "cooldown" c))))
                              λ hours. some (record {
                                organization = organization;
                                connection = connection;
                                account = account;
                                policy_version = policy_version;
                                targets = targets;
                                allowed = allowed;
                                prohibited = prohibited;
                                expiry = expiry;
                                total_monetary_limit = total;
                                daily_monetary_limit = daily;
                                maximum_step_change = step;
                                maximum_daily_change = change;
                                actions_per_24h = actions;
                                observation_window_hours = hours;
                              })

-- |m - n|
abbrev pub distance : ℕ → ℕ → ℕ
distance m n = if ltb m n then n - m else m - n

-- The micros of a budget or a bid to whole roubles, rounded half up.
abbrev pub whole_roubles : ℕ → ℕ
whole_roubles micros = (micros + 500_000) / 1_000_000

-- The difference of two integers.
abbrev pub json_distance : Json → Json → Option ℕ
json_distance (int m) (int n) = some (distance m n)
json_distance (negative m) (negative n) = some (distance m n)
json_distance (int m) (negative n) = some (m + n + 1)
json_distance (negative m) (int n) = some (m + n + 1)
json_distance _ _ = none

unfoldable pub monetary_exposure_rub : PreparedChange → MandateResult ℕ
monetary_exposure_rub p = elim (action_spec p.action).relative_percent [
  | none ↦ ok 0
  | some _ ↦ elim (json_distance p.current_value p.target_value) [
    | none ↦ rejected invalid_input
    | some micros ↦ ok (whole_roubles micros)
  ]
]

-- `_step_percent`
unfoldable pub step_percent : PreparedChange → MandateResult ℕ
step_percent p = elim (action_spec p.action).relative_percent [
  | none ↦ ok 0
  | some _ ↦ elim (lookup "relative_step_percent" p.expected_diff) [
    | some (int n) ↦ ok n
    | some (negative n) ↦ ok (n + 1)
    | _ ↦ rejected invalid_input
  ]
]

-- `canonical[name]`, a KeyError where it is missing.
abbrev pub at : {A : Type 0} → String → Fields → (Json → MandateResult A) → MandateResult A
at name fields f = elim (lookup name fields) [ none ↦ raises | some value ↦ f value ]
