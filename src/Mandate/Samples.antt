-- ===== src/Mandate/Samples.antt =====
-- A mandate and calls for the tests of src/mox_adv/mandate_store.py.
use mox_adv.Prelude.{
  ◌≡◌, refl, subst, arith, ℕ, ◌+◌, ◌*◌, String, true, Option, none, some, List, [], ◌∷◌, ◌==◌,
  concat_text, if◌then◌else◌,
}
use mox_adv.Prelude.Json.{Json, Fields, int, text, object, array, done, item, end, field}
use mox_adv.Commands.{lookup}
use mox_adv.Commands.Samples.{change, step_of}
use mox_adv.Control.Principal.{AuthenticatedPrincipal}
use mox_adv.Control.Rows.{PreparedChange, increase_weekly_budget}
use mox_adv.Control.State.{DurableControlState}
use mox_adv.Mandate.{MandatePolicy, object_of}
use mox_adv.Mandate.Results.{some-injective}
use mox_adv.Mandate.Quota.{microseconds_per_day}
use mox_adv.Mandate.Trace.{
  Environment, ReadsBack, Call, issuing, activating, reserving, claiming, elsewhere,
}

-- A hash that tells the proposals apart.
abbrev hash_of : Json → String
hash_of (object fields) = elim (lookup "proposal_id" fields) [
  | some (text s) ↦ concat_text "sha256:" s
  | _ ↦ "sha256:m"
]
hash_of _ = "sha256:"

abbrev times : String → Option ℕ
times s =
    if s == "start" then some 0 else if s == "end" then some (3 * microseconds_per_day) else none

abbrev pub policy : MandatePolicy
policy = record {
  policy_id = "v1";
  organization = "o";
  connection = "c";
  direct_account = "a";
  issuer_identity = "sviridov";
  issuer_authentication = "mac";
  canonical_fields =
      "issuer" ∷ "issued_at" ∷ "expiry" ∷ "organization" ∷ "connection" ∷ "account" ∷ "environment"
      ∷ "credential_profile" ∷ "policy_version" ∷ "targets" ∷ "allowed_action_classes"
      ∷ "prohibited_action_classes" ∷ "total_monetary_limit" ∷ "daily_monetary_limit"
      ∷ "maximum_step_change" ∷ "maximum_daily_change" ∷ "platform_side_spend_cap" ∷ "cooldown"
      ∷ "action_quotas" ∷ "stop_conditions" ∷ "kpi" ∷ "minimum_sample" ∷ [];
  allowed_action_classes = "INCREASE_WEEKLY_BUDGET" ∷ [];
  prohibited_action_classes = "DELETE" ∷ [];
  stop_conditions = "NO_CONVERSIONS" ∷ [];
  kpi_name = "CPA_RUB";
  kpi_target_maximum = 1000;
  minimum_clicks = 10;
  minimum_conversions = 1;
  mandate_ttl_hours = 72;
  mandate_total_exposure_rub = 500;
  mandate_daily_exposure_rub = 300;
  maximum_step_percent = 10;
  maximum_daily_cumulative_change_percent = 20;
  platform_weekly_spend_rub = 900;
  cooldown_hours = 24;
  observation_window_hours = 24;
  mandate_actions_per_24h = 2;
}

abbrev pub issuer : AuthenticatedPrincipal
issuer = record { identity = "sviridov"; authentication = "mac" }

abbrev one : String → Json
one s = array (item (text s) done)

abbrev conditions : Fields
conditions =
    field "cooldown"
      (object (field "hours" (int 24) (field "observation_window_hours" (int 24) end)))
      (field "action_quotas" (object (field "actions_per_24h" (int 2) end)) (
        field "stop_conditions" (one "NO_CONVERSIONS") (
          field "kpi"
            (object (field "name" (text "CPA_RUB") (field "target_maximum" (int 1000) end)))
            (field "minimum_sample"
              (object (field "clicks" (int 10) (field "conversions" (int 1) end))) end))))

abbrev pub terms : Fields
terms =
    field "issuer"
      (object (field "identity" (text "sviridov") (field "authentication" (text "mac") end)))
      (field "issued_at" (text "start") (
        field "expiry" (text "end") (
          field "organization" (text "o") (
            field "connection" (text "c") (
              field "account" (text "a") (
                field "environment" (text "SIMULATION") (
                  field "credential_profile" (text "DIRECT_PILOT_WRITE") (
                    field "policy_version" (text "v1") (
                      field "targets" (one "k") (
                        field "allowed_action_classes" (one "INCREASE_WEEKLY_BUDGET") (
                          field "prohibited_action_classes" (one "DELETE") (
                            field "total_monetary_limit" (int 400) (
                              field "daily_monetary_limit" (int 300) (
                                field "maximum_step_change" (int 10) (
                                  field "maximum_daily_change" (int 20) (
                                    field "platform_side_spend_cap" (int 900)
                                      conditions))))))))))))))))

-- A text for the mandate, and one for any other document.
abbrev text_of_issuer : Option Json → String
text_of_issuer none = "null"
text_of_issuer (some _) = "mandate"

abbrev text_for : Fields → String
text_for c = text_of_issuer (lookup "issuer" c)

abbrev read_text : String → Option Json
read_text s = if s == "mandate" then some (object terms) else none

abbrev pub env : Environment
env = record {
  canonical_hash = hash_of;
  sign = λ _. "signature";
  json = record { dumps = text_for; loads = read_text };
  parse_time = times;
  canonicalize = λ fields. object_of (read_text (text_for fields));
  parse_int = λ _. none;
  same_fields = λ _ _. true;
}

parsed-terms :
    (issuer : Option Json) (c : Fields)
    → object_of (read_text (text_of_issuer issuer)) ≡ some c
    → terms ≡ c
parsed-terms none c h = ground arith
parsed-terms (some _) c h = some-injective terms c h

pub env-ReadsBack : ReadsBack env
env-ReadsBack c (fields, e) =
    subst (λ d. read_text (text_for d) ≡ some (object d))
      (parsed-terms (lookup "issuer" fields) c e) refl

-- A budget of 1000 roubles grows by a tenth.
abbrev raise : String → PreparedChange
raise id =
    record (change increase_weekly_budget (int 1_000_000_000) (int 1_100_000_000)
      (step_of 10 increase_weekly_budget)) { proposal_id = id }

abbrev pub first_raise : PreparedChange
first_raise = raise "p1"

abbrev pub second_raise : PreparedChange
second_raise = raise "p2"

abbrev pub quiet : DurableControlState
quiet = record {
  approvals = [];
  executions = [];
  kill_switches = [];
  interrupts = record { signals = []; available = true };
}

-- One raise; the execution is settled elsewhere; the next raise comes too early, and then in time.
abbrev pub calls : List Call
calls =
    issuing (object terms) issuer 5
    ∷ activating "mandate-m" issuer 6
    ∷ reserving first_raise "mandate-m" 10
    ∷ claiming first_raise "mandate-m" 11
    ∷ elsewhere quiet
    ∷ reserving second_raise "mandate-m" 20
    ∷ reserving second_raise "mandate-m" (microseconds_per_day + 10)
    ∷ []
