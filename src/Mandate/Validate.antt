-- ===== src/Mandate/Validate.antt =====
-- `_validate_issuer`, `_validate_payload` and `_validate_limits` of src/mox_adv/mandate_store.py.
-- A number with a fraction is not among the JSON values; a field that must be an integer refuses it.
pub mod Limits
use mox_adv.Prelude.{
  ℕ, ◌+◌, ◌*◌, String, Bool, true, false, not, ◌&&◌, ◌||◌, Option, none, some, List, [], ◌∷◌, ◌==◌,
  ltb, leb, map, if◌then◌else◌,
}
use mox_adv.Prelude.Json.{Json, Fields, int, text, object, array, items_of, end, field}
use mox_adv.Prelude.Text.{characters}
use mox_adv.Commands.{lookup, has_exactly, is_text, equals_int, member}
use mox_adv.Control.Principal.{AuthenticatedPrincipal}
use mox_adv.Control.Reason.{ReasonCode, boundary_rejected, invalid_input, unauthenticated_principal}
use mox_adv.Policy.Approval.{Step, plus, minus, int_of}
use mox_adv.Mandate.{MandatePolicy}
use mox_adv.Mandate.State.{MandateResult, ok, rejected, raises, check, with_ok}
use mox_adv.Mandate.Terms.{at, list_of, has_text, time_of}
use mox_adv.Mandate.Validate.Limits.{validate_limits}

abbrev pub microseconds_per_hour : ℕ
microseconds_per_hour = 3_600_000_000

unfoldable pub validate_issuer : MandatePolicy → AuthenticatedPrincipal → MandateResult (Unit {0})
validate_issuer policy principal = check unauthenticated_principal (
    principal.identity == policy.issuer_identity
    && principal.authentication == policy.issuer_authentication)

-- `dict(issuer) == asdict(principal)`
abbrev pub is_issuer : AuthenticatedPrincipal → Json → Bool
is_issuer principal (object fields) =
    has_exactly ("identity" ∷ "authentication" ∷ []) fields
    && (is_text principal.identity (lookup "identity" fields)
        && is_text principal.authentication (lookup "authentication" fields))
is_issuer principal _ = false

abbrev pub or_invalid : Option ℕ → MandateResult ℕ
or_invalid none = rejected invalid_input
or_invalid (some n) = ok n

-- `_parse_utc` of a field that is there.
unfoldable pub time_at : (String → Option ℕ) → String → Fields → MandateResult ℕ
unfolding time_of
time_at parse_time name fields =
    at name fields λ value. or_invalid (time_of parse_time (some value))

-- A list or an object is in no set.
abbrev is_hashable : Json → Bool
is_hashable (object _) = false
is_hashable (array _) = false
is_hashable _ = true

abbrev all_hashable : List Json → Bool
all_hashable [] = true
all_hashable (j ∷ js) = is_hashable j && all_hashable js

-- The texts of a list, where it has nothing else.
abbrev pub names_of : List Json → Option (List String)
names_of [] = some []
names_of (text s ∷ js) = elim (names_of js) [ none ↦ none | some names ↦ some (s ∷ names) ]
names_of (_ ∷ js) = none

abbrev distinct : List String → Bool
distinct [] = true
distinct (name ∷ names) = not (member name names) && distinct names

abbrev all_within : List String → List String → Bool
all_within keys [] = true
all_within keys (name ∷ names) = member name keys && all_within keys names

abbrev none_empty : List String → Bool
none_empty [] = true
none_empty (name ∷ names) = not (name == "") && none_empty names

unfoldable pub are_targets : Json → Bool
are_targets (array items) = elim (names_of (items_of items)) [
  | none ↦ false
  | some [] ↦ false
  | some (name ∷ names) ↦ none_empty (name ∷ names) && distinct (name ∷ names)
]
are_targets _ = false

abbrev widened : ReasonCode
widened = boundary_rejected "MANDATE_ACTION_WIDENED"

unfoldable pub validate_allowed : MandatePolicy → Json → MandateResult (List String)
validate_allowed policy (array items) =
    if all_hashable (items_of items)
    then elim (names_of (items_of items)) [
      | none ↦ rejected widened
      | some [] ↦ rejected widened
      | some (name ∷ names) ↦
          if all_within policy.allowed_action_classes (name ∷ names) && distinct (name ∷ names)
          then ok (name ∷ names)
          else rejected widened
    ]
    else raises
validate_allowed policy _ = rejected widened

abbrev keys_of : Fields → List String
keys_of end = []
keys_of (field name value rest) = name ∷ keys_of rest

abbrev all_in : List String → List Json → Bool
all_in [] values = true
all_in (name ∷ names) values = has_text name values && all_in names values

abbrev none_in : List String → List Json → Bool
none_in [] values = true
none_in (name ∷ names) values = not (has_text name values) && none_in names values

abbrev is_name_in : List String → Json → Bool
is_name_in names (text s) = member s names
is_name_in names _ = false

abbrev within_names : List String → List Json → Bool
within_names names [] = true
within_names names (j ∷ js) = is_name_in names j && within_names names js

-- The prohibited classes keep those of the policy and have none of the allowed ones.
unfoldable pub validate_prohibited : MandatePolicy → List String → Json → MandateResult (Unit {0})
validate_prohibited policy allowed (array items) =
    if all_hashable (items_of items)
    then check widened (
        all_in policy.prohibited_action_classes (items_of items)
        && none_in allowed (items_of items))
    else raises
validate_prohibited policy allowed _ = rejected widened

-- `set(value)`: `none` is a TypeError.
unfoldable pub set_of : Json → Option (List Json)
unfolding characters
set_of (array items) = if all_hashable (items_of items) then some (items_of items) else none
set_of (object fields) = some (map text (keys_of fields))
set_of (text s) = some (map text (characters s))
set_of _ = none

-- `set(values) == set(names)`
abbrev same_set : List String → List Json → Bool
same_set names values = all_in names values && within_names names values

unfoldable pub validate_stop_conditions : MandatePolicy → Json → MandateResult (Unit {0})
unfolding set_of
validate_stop_conditions policy value = elim (set_of value) [
  | none ↦ raises
  | some values ↦
      check (boundary_rejected "MANDATE_STOP_CONDITION_MISMATCH")
        (same_set policy.stop_conditions values)
]

abbrev equals : ℕ → Option Json → Bool
equals n none = false
equals n (some value) = equals_int value (int n)

-- The KPI of the policy is a name and a maximum.
unfoldable pub is_kpi : MandatePolicy → Json → Bool
is_kpi policy (object fields) =
    has_exactly ("name" ∷ "target_maximum" ∷ []) fields
    && (is_text policy.kpi_name (lookup "name" fields)
        && equals policy.kpi_target_maximum (lookup "target_maximum" fields))
is_kpi policy _ = false

abbrev is_below : Step → ℕ → Bool
is_below (plus n) minimum = ltb n minimum
is_below (minus n) minimum = ltb 0 (n + minimum)

abbrev sample_widened : ReasonCode
sample_widened = boundary_rejected "MANDATE_SAMPLE_WIDENED"

-- `int(minimum[name]) < int(policy_minimum[name])`
unfoldable pub at_least_sample :
    (String → Option Step) → String → ℕ → Fields → MandateResult (Unit {0})
at_least_sample parse_int name minimum fields = elim (int_of parse_int (lookup name fields)) [
  | none ↦ raises
  | some step ↦ check sample_widened (not (is_below step minimum))
]

unfoldable pub validate_sample :
    (String → Option Step) → MandatePolicy → Json → MandateResult (Unit {0})
unfolding at_least_sample
validate_sample parse_int policy (object fields) =
    with_ok (check sample_widened (has_exactly ("clicks" ∷ "conversions" ∷ []) fields)) λ _.
      with_ok (at_least_sample parse_int "clicks" policy.minimum_clicks fields)
        λ _. at_least_sample parse_int "conversions" policy.minimum_conversions fields
validate_sample parse_int policy _ = rejected sample_widened

-- The scope is that of the simulation binding.
unfoldable pub is_scope : MandatePolicy → Fields → Bool
is_scope policy c =
    is_text policy.organization (lookup "organization" c)
    && (is_text policy.connection (lookup "connection" c)
        && (is_text policy.direct_account (lookup "account" c)
            && (is_text "SIMULATION" (lookup "environment" c)
                && (is_text "DIRECT_PILOT_WRITE" (lookup "credential_profile" c)
                    && is_text policy.policy_id (lookup "policy_version" c)))))

-- `issued_at` is not in the future, `expiry` is, and their distance is within the TTL.
unfoldable pub validate_times :
    (String → Option ℕ) → MandatePolicy → Fields → ℕ → MandateResult (Unit {0})
unfolding time_at
validate_times parse_time policy c now = with_ok (time_at parse_time "issued_at" c) λ issued_at.
    with_ok (time_at parse_time "expiry" c) λ expiry.
      with_ok (check (boundary_rejected "MANDATE_EXPIRED") (leb issued_at now && ltb now expiry))
        λ _.
          check (boundary_rejected "MANDATE_TTL_EXCEEDED")
            (leb expiry (issued_at + policy.mandate_ttl_hours * microseconds_per_hour))

-- The actions, the limits and the conditions, in the order of the code.
unfoldable pub validate_terms :
    (String → Option Step) → MandatePolicy → Fields → MandateResult (Unit {0})
unfolding is_scope are_targets validate_allowed validate_prohibited validate_limits
    validate_stop_conditions is_kpi validate_sample
validate_terms parse_int policy c =
    with_ok (check (boundary_rejected "MANDATE_SCOPE_MISMATCH") (is_scope policy c)) λ _.
      at "targets" c λ targets.
        with_ok (check (boundary_rejected "UNKNOWN_TARGET") (are_targets targets)) λ _.
          at "allowed_action_classes" c λ allowed.
            with_ok (validate_allowed policy allowed) λ names.
              at "prohibited_action_classes" c λ prohibited.
                with_ok (validate_prohibited policy names prohibited) λ _.
                  with_ok (validate_limits policy c) λ _. at "stop_conditions" c λ stops.
                    with_ok (validate_stop_conditions policy stops) λ _. at "kpi" c λ kpi.
                      with_ok (check (boundary_rejected "MANDATE_KPI_MISMATCH") (is_kpi policy kpi))
                        λ _. at "minimum_sample" c λ sample. validate_sample parse_int policy sample

-- The payload is an object with exactly the canonical fields.
abbrev pub fields_in : MandatePolicy → Json → MandateResult Fields
fields_in policy (object fields) =
    if has_exactly policy.canonical_fields fields then ok fields else rejected invalid_input
fields_in policy _ = rejected invalid_input

-- What `json.loads(canonical_json(payload))` gives; `none` is its TypeError or ValueError.
module _ (canonicalize : Fields → Option Fields) (parse_time : String → Option ℕ)
    (parse_int : String → Option Step) (policy : MandatePolicy) where
  unfoldable pub validate_canonical : Fields → AuthenticatedPrincipal → ℕ → MandateResult Fields
  unfolding validate_times validate_terms
  validate_canonical c principal now = at "issuer" c λ issuer.
      with_ok (check (boundary_rejected "MANDATE_ISSUER_MISMATCH") (is_issuer principal issuer))
        λ _.
          with_ok (validate_times parse_time policy c now)
            λ _. with_ok (validate_terms parse_int policy c) λ _. ok c

  unfoldable pub validate_payload : Json → AuthenticatedPrincipal → ℕ → MandateResult Fields
  unfolding validate_issuer validate_canonical
  validate_payload payload principal now = with_ok (validate_issuer policy principal) λ _.
      with_ok (fields_in policy payload) λ fields. elim (canonicalize fields) [
        | none ↦ rejected invalid_input
        | some c ↦ validate_canonical c principal now
      ]
