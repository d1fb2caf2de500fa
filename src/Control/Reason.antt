-- ===== src/Control/Reason.antt =====
-- The reason codes of `ControlRejected` in src/mox_adv/control_state.py, and operations that raise it.
use mox_adv.Prelude.{String, Bool, true, false}

pub data ReasonCode : Type 0 where
  unauthenticated_principal invalid_input approval_expired approval_not_found : ReasonCode
  approval_integrity_failure approval_revoked approval_already_used : ReasonCode
  approval_scope_mismatch approval_not_applicable unknown_result execution_conflict : ReasonCode
  kill_switch_active kill_switch_unavailable illegal_execution_transition : ReasonCode
  execution_not_found elevated_reauthentication_required immutable_proposal_conflict : ReasonCode
  boundary_rejected : String → ReasonCode

-- `boundary_rejected` carries the code that a callback of the caller raised.
unfoldable pub reason_text : ReasonCode → String
reason_text unauthenticated_principal = "UNAUTHENTICATED_PRINCIPAL"
reason_text invalid_input = "INVALID_INPUT"
reason_text approval_expired = "APPROVAL_EXPIRED"
reason_text approval_not_found = "APPROVAL_NOT_FOUND"
reason_text approval_integrity_failure = "APPROVAL_INTEGRITY_FAILURE"
reason_text approval_revoked = "APPROVAL_REVOKED"
reason_text approval_already_used = "APPROVAL_ALREADY_USED"
reason_text approval_scope_mismatch = "APPROVAL_SCOPE_MISMATCH"
reason_text approval_not_applicable = "APPROVAL_NOT_APPLICABLE"
reason_text unknown_result = "UNKNOWN_RESULT"
reason_text execution_conflict = "EXECUTION_CONFLICT"
reason_text kill_switch_active = "KILL_SWITCH_ACTIVE"
reason_text kill_switch_unavailable = "KILL_SWITCH_UNAVAILABLE"
reason_text illegal_execution_transition = "ILLEGAL_EXECUTION_TRANSITION"
reason_text execution_not_found = "EXECUTION_NOT_FOUND"
reason_text elevated_reauthentication_required = "ELEVATED_REAUTHENTICATION_REQUIRED"
reason_text immutable_proposal_conflict = "IMMUTABLE_PROPOSAL_CONFLICT"
reason_text (boundary_rejected code) = code

pub data Result {ℓ} (A : Type ℓ) : Type ℓ where
  ok : A → Result A
  rejected : ReasonCode → Result A

abbrev pub is_ok {ℓ} : {A : Type ℓ} → Result A → Bool
is_ok (ok _) = true
is_ok (rejected _) = false
