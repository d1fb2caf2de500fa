-- ===== src/Control/Rows.antt =====
-- The records of src/mox_adv/control_state.py that its tables hold.
use mox_adv.Prelude.{ℕ, String, Bool, true, false, not, Option, ◌==◌, is_null, concat_text}
use mox_adv.Prelude.Json.{Json, Fields, text, object, field, end}

pub data ExecutionStatus : Type 0 where
  reserved in_flight applied no_change blocked already_processed unknown_result failed :
      ExecutionStatus

pub record TrustedScope : Type 0 where
  pub organization : String
  pub connection : String
  pub account : String
  pub campaign : String
  pub writer : String

-- src/mox_adv/commands.py
pub data OptimizationAction : Type 0 where
  increase_weekly_budget decrease_weekly_budget increase_search_bid : OptimizationAction
  decrease_search_bid set_ad_variant suspend_campaign resume_campaign : OptimizationAction

unfoldable pub action_text : OptimizationAction → String
action_text increase_weekly_budget = "INCREASE_WEEKLY_BUDGET"
action_text decrease_weekly_budget = "DECREASE_WEEKLY_BUDGET"
action_text increase_search_bid = "INCREASE_SEARCH_BID"
action_text decrease_search_bid = "DECREASE_SEARCH_BID"
action_text set_ad_variant = "SET_AD_VARIANT"
action_text suspend_campaign = "SUSPEND_CAMPAIGN"
action_text resume_campaign = "RESUME_CAMPAIGN"

pub record PreparedChange : Type 0 where
  pub proposal_id : String
  pub proposal_hash : String
  pub scope : TrustedScope
  pub action : OptimizationAction
  pub current_value : Json
  pub target_value : Json
  pub expected_diff : Fields
  pub snapshot_id : String
  pub snapshot_generated_at : String
  pub direct_watermark : String
  pub metrika_watermark : String
  pub policy_version : String
  pub expected_fingerprint : String
  pub risk : String

unfoldable pub as_dict : PreparedChange → Json
unfolding action_text
as_dict p = object (
    field "proposal_id" (text p.proposal_id) (
      field "proposal_hash" (text p.proposal_hash) (
        field "scope"
          (object (
            field "organization" (text p.scope.organization) (
              field "connection" (text p.scope.connection) (
                field "account" (text p.scope.account) (
                  field "campaign" (text p.scope.campaign)
                    (field "writer" (text p.scope.writer) end))))))
          (field "action" (text (action_text p.action)) (
            field "current_value" p.current_value (
              field "target_value" p.target_value (
                field "expected_diff" (object p.expected_diff) (
                  field "snapshot_id" (text p.snapshot_id) (
                    field "snapshot_generated_at" (text p.snapshot_generated_at) (
                      field "direct_watermark" (text p.direct_watermark) (
                        field "metrika_watermark" (text p.metrika_watermark) (
                          field "policy_version" (text p.policy_version) (
                            field "expected_fingerprint" (text p.expected_fingerprint)
                              (field "risk" (text p.risk) end))))))))))))))

unfoldable pub execution_identity : PreparedChange → Json
unfolding action_text
execution_identity p = object (
    field "organization" (text p.scope.organization) (
      field "connection" (text p.scope.connection) (
        field "campaign" (text p.scope.campaign) (
          field "proposal_id" (text p.proposal_id) (
            field "proposal_hash" (text p.proposal_hash) (
              field "action" (text (action_text p.action)) (
                field "target_value" p.target_value (
                  field "expected_fingerprint" (text p.expected_fingerprint)
                    (field "policy_version" (text p.policy_version) end)))))))))

unfoldable pub target_key : PreparedChange → String
unfolding action_text
target_key p = concat_text p.scope.organization (
    concat_text ":" (
      concat_text p.scope.connection (
        concat_text ":" (
          concat_text p.scope.account (
            concat_text ":"
              (concat_text p.scope.campaign (concat_text ":" (action_text p.action))))))))

-- `canonical_hash` of a document is the parameter: SHA-256 of its canonical JSON text.
module _ (canonical_hash : Json → String) where
  unfoldable pub binding_hash : PreparedChange → String
  binding_hash p = canonical_hash (as_dict p)

  unfoldable pub execution_key : PreparedChange → String
  execution_key p = canonical_hash (execution_identity p)

pub record ApprovalRecord : Type 0 where
  pub approval_id : String
  pub proposal_id : String
  pub binding_hash : String
  pub canonical_hash : String
  pub approver : String
  pub reason : String
  pub granted_at : ℕ
  pub expires_at : ℕ
  pub revoked_at : Option ℕ
  pub reserved_at : Option ℕ
  pub reserved_execution_key : Option String
  pub used_at : Option ℕ
  pub execution_key : Option String

abbrev pub used : ApprovalRecord → Bool
used approval = not (is_null approval.used_at)

pub record ExecutionRecord : Type 0 where
  pub execution_key : String
  pub proposal_id : String
  pub status : ExecutionStatus
  pub target_key : String
  pub current_value : Json
  pub target_value : Json
  pub detail : Option String
  pub created_at : ℕ
  pub updated_at : ℕ

pub record KillSwitch : Type 0 where
  pub scope : String
  pub active : Bool
  pub reason : String
  pub principal : String
  pub updated_at : ℕ

-- The WHERE clauses of the statements.
abbrev pub is_reserved : ExecutionStatus → Bool
is_reserved reserved = true
is_reserved _ = false

abbrev pub is_unresolved : ExecutionStatus → Bool
is_unresolved unknown_result = true
is_unresolved _ = false

-- status IN ('RESERVED', 'IN_FLIGHT')
abbrev pub is_active : ExecutionStatus → Bool
is_active reserved = true
is_active in_flight = true
is_active _ = false

abbrev pub has_key : String → ExecutionRecord → Bool
has_key key row = row.execution_key == key

abbrev pub is_approval : String → ApprovalRecord → Bool
is_approval id row = row.approval_id == id
