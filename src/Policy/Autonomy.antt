-- ===== src/Policy/Autonomy.antt =====
-- `BoundedAutonomyPolicy` of src/mox_adv/autonomy_policy.py, and the request of
-- src/mox_adv/autonomy_contracts.py that it judges.
use mox_adv.Prelude.{
  ℕ, ◌*◌, String, Bool, false, not, ◌&&◌, Option, none, some, List, [], ◌∷◌, ◌==◌, nat_eq, leb,
  if◌then◌else◌,
}
use mox_adv.Prelude.Json.{Json}
use mox_adv.Control.Rows.{
  OptimizationAction, decrease_search_bid, suspend_campaign, action_text, TrustedScope,
  PreparedChange, execution_key,
}
use mox_adv.Commands.{member}
use mox_adv.Policy.{PolicyFile, PolicyOutcome, first_failure, same_scope, api_method_allowed}
use mox_adv.Policy.Decimals.{DecimalText, parses, above, at_most, below, and_then, and_also}

pub record BoundedAutonomyRequest : Type 0 where
  pub mandate_id : String
  pub proposal_id : String
  pub execution_key : String
  pub scope : TrustedScope
  pub mode : String
  pub automation_enabled : Bool
  pub comparability_status : String
  pub confidence_status : String
  pub financial_recommendations_allowed : Bool
  pub direct_age_minutes : ℕ
  pub metrika_age_minutes : ℕ
  pub watermark_skew_minutes : ℕ
  pub clicks : ℕ
  pub conversions : ℕ
  pub spend_rub : ℕ
  pub cpa_rub : DecimalText
  pub budget_utilization_percent : DecimalText
  pub campaign_state : String
  pub campaign_strategy : String
  pub current_fingerprint : String

-- `minimum_sample` of the mandate.
pub record MinimumSample : Type 0 where
  pub clicks : ℕ
  pub conversions : ℕ

unfoldable pub autonomous_action_is_safe :
    OptimizationAction → BoundedAutonomyRequest → MinimumSample → Option Bool
unfolding at_most below
autonomous_action_is_safe suspend_campaign r sample =
    some (r.campaign_state == "ON" && (nat_eq r.conversions 0 && leb 2000 r.spend_rub))
autonomous_action_is_safe decrease_search_bid r sample =
    if parses r.cpa_rub && parses r.budget_utilization_percent
    then and_then (r.campaign_state == "ON") (
        and_then (r.campaign_strategy == "HIGHEST_POSITION") (
          and_then (leb sample.clicks r.clicks) (
            and_then (leb sample.conversions r.conversions)
              (and_also (above 1000 r.cpa_rub) (below 90 r.budget_utilization_percent)))))
    else none
autonomous_action_is_safe action r sample =
    if parses r.cpa_rub && parses r.budget_utilization_percent then some false else none

module _ (canonical_hash : Json → String) (policy : PolicyFile) where
  unfoldable pub autonomy_checks :
      PreparedChange → BoundedAutonomyRequest → Bool → List (Bool × String)
  unfolding api_method_allowed execution_key action_text
  autonomy_checks prepared r safe =
      (r.mode == "BOUNDED_AUTONOMY", "MODE_NOT_WRITE_CAPABLE")
      ∷ (r.automation_enabled, "AUTOMATION_DISABLED")
      ∷ (same_scope r.scope prepared.scope, "TARGET_BINDING_MISMATCH")
      ∷ (r.execution_key == execution_key canonical_hash prepared, "EXECUTION_KEY_MISMATCH")
      ∷ (member (action_text prepared.action) policy.bounded_autonomy, "UNSUPPORTED_ACTION")
      ∷ (
        not (member (action_text prepared.action) policy.always_require_approval),
        "APPROVAL_REQUIRED",
      )
      ∷ (
        r.comparability_status == "COMPARABLE"
            && (r.confidence_status == "READY" && r.financial_recommendations_allowed),
        "SNAPSHOT_NOT_COMPARABLE",
      )
      ∷ (leb r.direct_age_minutes policy.direct_freshness_minutes, "DIRECT_SNAPSHOT_STALE")
      ∷ (leb r.metrika_age_minutes (policy.metrika_freshness_hours * 60), "METRIKA_SNAPSHOT_STALE")
      ∷ (
        leb r.watermark_skew_minutes (policy.maximum_watermark_skew_hours * 60),
        "WATERMARK_SKEW_EXCEEDED",
      )
      ∷ (r.current_fingerprint == prepared.expected_fingerprint, "FINGERPRINT_MISMATCH")
      ∷ (prepared.scope.writer == policy.single_writer, "SINGLE_WRITER_MISMATCH")
      ∷ (prepared.policy_version == policy.policy_id, "POLICY_VERSION_MISMATCH")
      ∷ (api_method_allowed policy prepared.action, "API_METHOD_NOT_ALLOWLISTED")
      ∷ (safe, "ACTION_POLICY_REJECTED")
      ∷ []

  unfoldable pub autonomy_evaluate :
      PreparedChange → BoundedAutonomyRequest → MinimumSample → Option PolicyOutcome
  unfolding first_failure autonomy_checks autonomous_action_is_safe
  autonomy_evaluate prepared r sample = elim (autonomous_action_is_safe prepared.action r sample) [
    | none ↦ none
    | some safe ↦ some (first_failure (autonomy_checks prepared r safe))
  ]
