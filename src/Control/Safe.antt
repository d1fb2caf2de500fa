-- ===== src/Control/Safe.antt =====
-- The ledger invariant of src/mox_adv/control_state.py, and the conditions it counts rows by.
pub mod Updates
pub mod Steps
use mox_adv.Prelude.{ℕ, ◌+◌, ◌≤◌, String, Bool, not, ◌&&◌, holds_text, is_null}
use mox_adv.Table.{count_rows}
use mox_adv.Control.Executions.{is_active_row, is_reserved_key}
use mox_adv.Control.Rows.{ApprovalRecord, is_approval, has_key, used}
use mox_adv.Control.State.{DurableControlState}

abbrev pub holds : String → ApprovalRecord → Bool
holds key row = holds_text row.reserved_execution_key key

abbrev pub spent : String → ApprovalRecord → Bool
spent key row = holds_text row.reserved_execution_key key && used row

-- Ids and keys are unique; an execution has at most one approval reserved for it, none while it is
-- RESERVED, and none without its row; at most one execution is active.
pub record Safe (s : DurableControlState) : Type 0 where
  pub ids : (id : String) → count_rows (is_approval id) s.approvals ≤ 1
  pub keys : (k : String) → count_rows (has_key k) s.executions ≤ 1
  pub held :
      (k : String)
      → count_rows (holds k) s.approvals + count_rows (is_reserved_key k) s.executions
        ≤ count_rows (has_key k) s.executions
  pub single : count_rows is_active_row s.executions ≤ 1
