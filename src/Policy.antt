-- ===== src/Policy.antt =====
-- The deterministic policies before a write: `ApprovalRequiredPolicy` of
-- src/mox_adv/approval_execution.py and `BoundedAutonomyPolicy` of src/mox_adv/autonomy_policy.py.
-- `none` is an exception that `Decimal` or `int` raises. `parse_int` is Python's `int` of a text.
pub mod Decimals
pub mod Safety
pub mod Approval
pub mod Autonomy
pub mod Laws
pub mod Exact
mod Tests
use mox_adv.Prelude.{
  ℕ, ◌+◌, ◌*◌, String, Bool, true, false, ◌&&◌, Option, none, some, List, [], ◌∷◌, ◌==◌, nat_eq,
  ltb, leb, if◌then◌else◌,
}
use mox_adv.Table.{any_row}
use mox_adv.Control.Rows.{OptimizationAction, action_text, TrustedScope}
use mox_adv.Commands.{ActionSpec, action_spec}

-- The entries of the policy file that the two policies read.
pub record ApiEntry : Type 0 where
  pub system : String
  pub environment : String
  pub host : String
  pub version : String
  pub service : String
  pub method : String
  pub http_verb : String

pub record PolicyFile : Type 0 where
  pub policy_id : String
  pub no_conversion_stop_spend_rub : ℕ
  pub direct_freshness_minutes : ℕ
  pub metrika_freshness_hours : ℕ
  pub maximum_watermark_skew_hours : ℕ
  pub mandate_actions_per_24h : ℕ
  pub maximum_daily_cumulative_change_percent : ℕ
  pub application_daily_spend_rub : ℕ
  pub single_writer : String
  pub organization : String
  pub connection : String
  pub direct_account : String
  pub controlled_pilot_reversible : List String
  pub bounded_autonomy : List String
  pub always_require_approval : List String
  pub api_matrix : List ApiEntry

pub record PolicyOutcome : Type 0 where
  pub allowed : Bool
  pub reason_code : Option String

-- The loop over the checks.
unfoldable pub first_failure : List (Bool × String) → PolicyOutcome
first_failure [] = record { allowed = true; reason_code = none }
first_failure ((passed, reason) ∷ checks) =
    if passed then first_failure checks else record { allowed = false; reason_code = some reason }

-- The fields of scopes are compared one by one.
abbrev pub same_scope : TrustedScope → TrustedScope → Bool
same_scope a b =
    a.organization == b.organization
    && (a.connection == b.connection
        && (a.account == b.account && (a.campaign == b.campaign && a.writer == b.writer)))

abbrev is_entry_for : ActionSpec → ApiEntry → Bool
is_entry_for spec item =
    item.system == "DIRECT"
    && (item.environment == "production"
        && (item.host == "api.direct.yandex.com"
            && (item.version == "v501"
                && (item.service == spec.service
                    && (item.method == spec.method && item.http_verb == "POST")))))

-- `_api_method_allowed`
unfoldable pub api_method_allowed : PolicyFile → OptimizationAction → Bool
api_method_allowed policy action = any_row (is_entry_for (action_spec action)) policy.api_matrix
