-- ===== src/Policy/Approval.antt =====
-- `ApprovalRequiredPolicy` of src/mox_adv/approval_execution.py. Ages and counts are not negative.
use mox_adv.Prelude.{
  ℕ, ◌+◌, ◌*◌, String, Bool, true, false, not, ◌&&◌, ◌||◌, Option, none, some, List, [], ◌∷◌, ◌==◌,
  nat_eq, ltb, leb,
}
use mox_adv.Prelude.Json.{Json, flag, int, negative, text}
use mox_adv.Control.Rows.{
  OptimizationAction, suspend_campaign, action_text, TrustedScope, PreparedChange, execution_key,
}
use mox_adv.Commands.{weekly_budget, action_spec, lookup, member}
use mox_adv.Policy.{PolicyFile, PolicyOutcome, first_failure, same_scope, api_method_allowed}
use mox_adv.Policy.Safety.{ExecutionFacts, action_is_safe}

pub record ExecutionRequest : Type 0 where
  pub proposal_id : String
  pub execution_key : String
  pub scope : TrustedScope
  pub facts : ExecutionFacts

-- `int(value)`, with a sign; `null`, a dict and a text that is no integer raise.
pub data Step : Type 0 where
  plus minus : ℕ → Step

abbrev pub int_of : (String → Option Step) → Option Json → Option Step
int_of parse_int none = some (plus 101)
int_of parse_int (some (int n)) = some (plus n)
int_of parse_int (some (negative n)) = some (minus (n + 1))
int_of parse_int (some (flag true)) = some (plus 1)
int_of parse_int (some (flag false)) = some (plus 0)
int_of parse_int (some (text s)) = parse_int s
int_of parse_int (some _) = none

-- `_step`
unfoldable pub step_percent : (String → Option Step) → PreparedChange → Option Step
step_percent parse_int prepared = elim (action_spec prepared.action).relative_percent [
  | none ↦ some (plus 0)
  | some _ ↦ int_of parse_int (lookup "relative_step_percent" prepared.expected_diff)
]

abbrev pub within : ℕ → Step → ℕ → Bool
within total (plus n) limit = leb (total + n) limit
within total (minus n) limit = leb total (limit + n)

abbrev pub is_suspend : OptimizationAction → Bool
is_suspend suspend_campaign = true
is_suspend _ = false

unfoldable pub no_conversion_safety_stop : PolicyFile → PreparedChange → ExecutionFacts → Bool
no_conversion_safety_stop policy prepared facts =
    is_suspend prepared.action
    && (facts.comparability_status == "COMPARABLE"
        && (nat_eq facts.conversions 0 && leb policy.no_conversion_stop_spend_rub facts.spend_rub))

-- `_scope_matches_simulation`
abbrev pub scope_matches_simulation : PolicyFile → TrustedScope → Bool
scope_matches_simulation policy scope =
    scope.organization == policy.organization
    && (scope.connection == policy.connection && scope.account == policy.direct_account)

module _ (canonical_hash : Json → String) (parse_int : String → Option Step)
    (policy : PolicyFile) where
  unfoldable pub checks : PreparedChange → ExecutionRequest → Step → Bool → List (Bool × String)
  unfolding no_conversion_safety_stop api_method_allowed execution_key action_text
  checks prepared request step safe =
      let facts = request.facts in
      (facts.mode == "APPROVAL_REQUIRED", "MODE_NOT_WRITE_CAPABLE")
      ∷ (facts.automation_enabled, "AUTOMATION_DISABLED")
      ∷ (same_scope request.scope prepared.scope, "TARGET_BINDING_MISMATCH")
      ∷ (request.execution_key == execution_key canonical_hash prepared, "EXECUTION_KEY_MISMATCH")
      ∷ (
        no_conversion_safety_stop policy prepared facts
            || (facts.comparability_status == "COMPARABLE"
                && (facts.confidence_status == "READY" && facts.financial_recommendations_allowed)),
        "SNAPSHOT_NOT_COMPARABLE",
      )
      ∷ (leb facts.direct_age_minutes policy.direct_freshness_minutes, "DIRECT_SNAPSHOT_STALE")
      ∷ (
        leb facts.metrika_age_minutes (policy.metrika_freshness_hours * 60),
        "METRIKA_SNAPSHOT_STALE",
      )
      ∷ (
        leb facts.watermark_skew_minutes (policy.maximum_watermark_skew_hours * 60),
        "WATERMARK_SKEW_EXCEEDED",
      )
      ∷ (facts.current_fingerprint == prepared.expected_fingerprint, "FINGERPRINT_MISMATCH")
      ∷ (not facts.cooldown_active, "COOLDOWN_ACTIVE")
      ∷ (ltb facts.actions_in_last_24h policy.mandate_actions_per_24h, "ACTION_QUOTA_REACHED")
      ∷ (
        within facts.cumulative_daily_change_percent step
            policy.maximum_daily_cumulative_change_percent,
        "DAILY_CHANGE_LIMIT_EXCEEDED",
      )
      ∷ (
        leb facts.monetary_exposure_rub policy.application_daily_spend_rub,
        "MONETARY_LIMIT_EXCEEDED",
      )
      ∷ (facts.kill_switch_available, "KILL_SWITCH_UNAVAILABLE")
      ∷ (prepared.scope.writer == policy.single_writer, "SINGLE_WRITER_MISMATCH")
      ∷ (scope_matches_simulation policy prepared.scope, "TRUSTED_SCOPE_MISMATCH")
      ∷ (prepared.policy_version == policy.policy_id, "POLICY_VERSION_MISMATCH")
      ∷ (
        member (action_text prepared.action) policy.controlled_pilot_reversible,
        "UNSUPPORTED_ACTION",
      )
      ∷ (api_method_allowed policy prepared.action, "API_METHOD_NOT_ALLOWLISTED")
      ∷ (safe, "ACTION_POLICY_REJECTED")
      ∷ []

  -- All checks are computed first; the step and the safety of the action are those that can raise.
  unfoldable pub evaluate : PreparedChange → ExecutionRequest → Option PolicyOutcome
  unfolding first_failure checks step_percent action_is_safe
  evaluate prepared request = elim (step_percent parse_int prepared) [
    | none ↦ none
    | some step ↦ elim (action_is_safe prepared.action request.facts) [
      | none ↦ none
      | some safe ↦ some (first_failure (checks prepared request step safe))
    ]
  ]

-- `numeric_bounds`
unfoldable pub numeric_bounds : ℕ → OptimizationAction → ℕ × ℕ
numeric_bounds platform_weekly_spend_rub action = elim (action_spec action).family [
  | weekly_budget ↦ (1, platform_weekly_spend_rub * 1_000_000)
  | _ ↦ (1, 9_223_372_036_854_775_807)
]
