-- ===== src/WriteWindow.antt =====
-- src/mox_adv/monitoring.py (DurableWriteWindowGate) and src/mox_adv/write_window.py: one write at a
-- time, and a quiet window after each applied one.
pub mod Trace
pub mod Spacing
pub mod Coordinator
mod Tests
use mox_adv.Prelude.{
  ℕ, ◌+◌, ◌*◌, String, Bool, true, false, ◌&&◌, Option, none, some, ◌==◌, ltb, leb, if◌then◌else◌,
}

pub data WindowStatus : Type 0 where
  in_progress active : WindowStatus

-- The one row of `write_window_gate`.
pub record WindowRow : Type 0 where
  pub execution_key : String
  pub status : WindowStatus
  pub reserved_at : ℕ
  pub active_until : Option ℕ

abbrev pub Gate : Type 0
Gate = Option WindowRow

pub record WriteWindowDecision : Type 0 where
  pub allowed : Bool
  pub reason_code : Option String
  pub blocked_until : Option ℕ

-- `monitoring_rejected` is `MonitoringRejected`, `value_error` the `ValueError` that
-- `datetime.fromisoformat` raises on a missing end of the window.
pub data GateResult (A : Type 0) : Type 0 where
  done : A → GateResult A
  monitoring_rejected : GateResult A
  value_error : GateResult A

-- `policy["timing"]`, in hours; times are in microseconds.
pub record Timing : Type 0 where
  pub cooldown_hours : ℕ
  pub observation_window_hours : ℕ

unfoldable pub window_of : Timing → ℕ
window_of timing =
    (if leb timing.observation_window_hours timing.cooldown_hours
      then timing.cooldown_hours
      else timing.observation_window_hours)
    * 3_600_000_000

abbrev granted : WriteWindowDecision
granted = record { allowed = true; reason_code = none; blocked_until = none }

abbrev pub refused : String → Option ℕ → WriteWindowDecision
refused reason until = record { allowed = false; reason_code = some reason; blocked_until = until }

abbrev pub claim : String → ℕ → WindowRow
claim key now = record {
  execution_key = key;
  status = in_progress;
  reserved_at = now;
  active_until = none;
}

-- The test of an existing row.
unfoldable pub reserve_over :
    WindowRow → WindowStatus → String → ℕ → GateResult WriteWindowDecision × Gate
reserve_over row in_progress key now = (done (refused "WRITE_WINDOW_IN_PROGRESS" none), some row)
reserve_over row active key now = elim row.active_until [
  | none ↦ (value_error, some row)
  | some until ↦
      if ltb now until
      then (done (refused "COOLDOWN_AND_OBSERVATION_ACTIVE" (some until)), some row)
      else (done granted, some (claim key now))
]

unfoldable pub reserve : String → ℕ → Gate → GateResult WriteWindowDecision × Gate
unfolding reserve_over
reserve key now gate = if key == "" then (monitoring_rejected, gate) else elim gate [
  | none ↦ (done granted, some (claim key now))
  | some row ↦ reserve_over row row.status key now
]

abbrev is_in_progress : WindowStatus → Bool
is_in_progress in_progress = true
is_in_progress active = false

-- WHERE singleton = 1 AND execution_key = ? AND status = 'IN_PROGRESS'
abbrev pub is_claimed_by : String → WindowRow → Bool
is_claimed_by key row = row.execution_key == key && is_in_progress row.status

unfoldable pub activate : ℕ → String → ℕ → Gate → GateResult (Unit {0}) × Gate
activate window key applied_at none = (monitoring_rejected, none)
activate window key applied_at (some row) =
    if is_claimed_by key row
    then (done tt, some (record row { status = active; active_until = some (applied_at + window) }))
    else (monitoring_rejected, some row)

unfoldable pub release : String → Gate → Gate
release key none = none
release key (some row) = if is_claimed_by key row then none else some row
