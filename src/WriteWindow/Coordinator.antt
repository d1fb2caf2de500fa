-- ===== src/WriteWindow/Coordinator.antt =====
-- src/mox_adv/write_window.py: the gate as the execution services see it.
use mox_adv.Prelude.{ℕ, String, ◌≡◌, Option, none, some, arith, ◌+◌, eq_refl, if◌then◌else◌}
use mox_adv.Control.Reason.{ReasonCode, boundary_rejected}
use mox_adv.Control.Rows.{
  ExecutionStatus, applied, blocked, failed, no_change, reserved, in_flight, already_processed,
  unknown_result,
}
use mox_adv.WriteWindow.{
  Gate, WriteWindowDecision, GateResult, done, monitoring_rejected, value_error, activate, release,
  reserve, claim, active,
}

-- What a method leaves to its caller: a result or `ControlRejected`, or another exception.
pub data Outcome : Type 0 where
  settled : Outcome
  control_rejected : ReasonCode → Outcome
  unexpected : Outcome

abbrev pub state_unavailable : Outcome
state_unavailable = control_rejected (boundary_rejected "WRITE_WINDOW_STATE_UNAVAILABLE")

-- `decision.reason_code or "COOLDOWN_AND_OBSERVATION_ACTIVE"`
abbrev reason_or_default : Option String → String
reason_or_default none = "COOLDOWN_AND_OBSERVATION_ACTIVE"
reason_or_default (some reason) = reason

abbrev judge : GateResult WriteWindowDecision → Outcome
judge (done decision) =
    if decision.allowed
    then settled
    else control_rejected (boundary_rejected (reason_or_default decision.reason_code))
judge monitoring_rejected = state_unavailable
judge value_error = unexpected

abbrev acknowledge : GateResult (Unit {0}) → Outcome
acknowledge (done _) = settled
acknowledge monitoring_rejected = state_unavailable
acknowledge value_error = unexpected

unfoldable pub reserve_window : String → ℕ → Gate → Outcome × Gate
unfolding reserve
reserve_window key now gate = let (r, g) = reserve key now gate in (judge r, g)

unfoldable pub settle : ℕ → String → ExecutionStatus → ℕ → Gate → Outcome × Gate
unfolding activate release
settle window key applied now gate = let (r, g) = activate window key now gate in (acknowledge r, g)
settle window key blocked now gate = (settled, release key gate)
settle window key failed now gate = (settled, release key gate)
settle window key no_change now gate = (settled, release key gate)
settle window key _ now gate = (settled, gate)

-- What the gate is after `settle` on the claim of the same key: the window after an applied write,
-- open after one that surely did not happen, and claimed still where the outcome is not known.
abbrev pub gate_after : ℕ → String → ℕ → ℕ → ExecutionStatus → Gate
gate_after window key at now applied =
    some (record (claim key at) { status = active; active_until = some (now + window) })
gate_after window key at now blocked = none
gate_after window key at now failed = none
gate_after window key at now no_change = none
gate_after window key at now _ = some (claim key at)

-- `settle` after a successful `reserve` on the open gate, for every execution status: an applied
-- write closes the gate for the window, BLOCKED, FAILED and NO_CHANGE open it again, and any other
-- status, UNKNOWN_RESULT included, leaves it claimed; settling raises nothing.
pub settle-reserve :
    (window : ℕ) (key : String) (at now : ℕ) (status : ExecutionStatus)
    → (reserve_window key at none).0 ≡ settled
    → settle window key status now (reserve_window key at none).1
      ≡ (settled, gate_after window key at now status)
unfolding settle reserve_window
settle-reserve window key at now applied h = ground (arith, eq_refl key)
settle-reserve window key at now blocked h = ground (arith, eq_refl key)
settle-reserve window key at now failed h = ground (arith, eq_refl key)
settle-reserve window key at now no_change h = ground (arith, eq_refl key)
settle-reserve window key at now reserved h = ground (arith, eq_refl key)
settle-reserve window key at now in_flight h = ground (arith, eq_refl key)
settle-reserve window key at now already_processed h = ground (arith, eq_refl key)
settle-reserve window key at now unknown_result h = ground (arith, eq_refl key)
