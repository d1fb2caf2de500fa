-- ===== src/Control.antt =====
-- src/mox_adv/control_state.py: approvals, executions and kill switches, and the one dispatch.
pub mod Reason
pub mod Rows
pub mod State
pub mod Principal
pub mod Approvals
pub mod Executions
pub mod KillSwitches
pub mod Dispatch
pub mod Trace
pub mod Effects
pub mod Safe
mod Tests
