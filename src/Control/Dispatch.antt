-- ===== src/Control/Dispatch.antt =====
-- `send_once` of src/mox_adv/control_state.py: authority is taken in one transaction, consumed in
-- another right before the transport, and given back where the second fails.
pub mod Effects
use mox_adv.Prelude.{
  ℕ, String, Bool, true, false, not, ◌&&◌, Option, none, some, List, ◌∷◌, ◌==◌, nat_eq, is_null,
  holds_text, ltb, if◌then◌else◌,
}
use mox_adv.Prelude.Json.{Json}
use mox_adv.Table.{first_row, any_row, count_rows, update_rows}
use mox_adv.Control.Approvals.{set_used, release_approval_reservation}
use mox_adv.Control.Executions.{
  is_unresolved_row, is_active_row, new_execution, check_approval, take_approval, load_execution,
  finish_execution,
}
use mox_adv.Control.KillSwitches.{require_no_interrupt, refuse_engaged}
use mox_adv.Control.Reason.{
  ReasonCode, Result, ok, rejected, unknown_result, approval_not_applicable, reason_text,
}
use mox_adv.Control.Rows.{
  ExecutionStatus, reserved, in_flight, applied, no_change, blocked, already_processed,
  PreparedChange, ApprovalRecord, ExecutionRecord, is_approval, has_key, execution_key,
}
use mox_adv.Control.State.{DurableControlState, Control, transaction, pure, reject, ◌>>=◌, ◌>>◌}

-- What the first transaction found: an earlier execution to report, or fresh authority.
pub data Authority : Type 0 where
  replayed : ExecutionStatus → ExecutionRecord → Authority
  granted : ExecutionRecord → Authority

abbrev pub resend_status : ExecutionStatus → ExecutionStatus
resend_status reserved = already_processed
resend_status in_flight = already_processed
resend_status applied = already_processed
resend_status no_change = already_processed
resend_status status = status

-- A callback of the caller: it returns a time or raises `ControlRejected`, and other writers may
-- have moved the state when it comes back. `none` is a callback that is not given.
abbrev pub Callback : Type 0
Callback = Option (Control ℕ)

abbrev pub call_or : ℕ → Callback → Control ℕ
call_or now none = pure now
call_or now (some callback) = callback

abbrev pub is_consumable : String → ℕ → ApprovalRecord → Bool
is_consumable key now row =
    holds_text row.reserved_execution_key key
    && (is_null row.used_at && (is_null row.revoked_at && ltb now row.expires_at))

-- UPDATE approvals … WHERE approval_id = ? AND reserved_execution_key = ? AND used_at IS NULL AND
-- revoked_at IS NULL
abbrev pub is_consumed_by : String → String → ApprovalRecord → Bool
is_consumed_by id key row =
    row.approval_id == id
    && (holds_text row.reserved_execution_key key
        && (is_null row.used_at && is_null row.revoked_at))

-- What a call leaves: its result or exception, the state, and whether `sender` was called.
pub record SendOutcome : Type 0 where
  pub result : Result (ExecutionStatus × ExecutionRecord)
  pub state : DurableControlState
  pub sent : Bool

module _ (canonical_hash : Json → String) where
  -- INSERT INTO executions … 'RESERVED'.
  unfoldable pub insert_execution : PreparedChange → ℕ → Control (Unit {0})
  unfolding new_execution
  insert_execution prepared now s =
      (ok tt, record s { executions = new_execution canonical_hash prepared now ∷ s.executions })

  -- What follows once no execution stands in the way.
  unfoldable pub take_authority : PreparedChange → String → ℕ → Control Authority
  unfolding refuse_engaged require_no_interrupt check_approval insert_execution take_approval
      load_execution execution_key
  take_authority prepared approval_id now = do
    refuse_engaged prepared.scope
    require_no_interrupt prepared.scope
    check_approval canonical_hash prepared approval_id now
    insert_execution prepared now
    take_approval canonical_hash prepared approval_id now
    refuse_engaged prepared.scope
    require_no_interrupt prepared.scope
    record_ ← load_execution (execution_key canonical_hash prepared)
    pure (granted record_)

  -- The first transaction of `send_once`.
  unfoldable pub authorize_dispatch : PreparedChange → String → ℕ → Control Authority
  authorize_dispatch prepared approval_id now s =
      if any_row is_unresolved_row s.executions
      then (rejected unknown_result, s)
      else elim (first_row (has_key (execution_key canonical_hash prepared)) s.executions) [
        | some row ↦ (ok (replayed (resend_status row.status) row), s)
        | none ↦ elim (first_row is_active_row s.executions) [
          | some row ↦ (ok (replayed blocked row), s)
          | none ↦ transaction (take_authority prepared approval_id now) s
        ]
      ]

  -- The SELECT, the test and the UPDATE of the consuming transaction.
  unfoldable pub consume_row : PreparedChange → String → ℕ → Control (Unit {0})
  unfolding execution_key
  consume_row prepared approval_id now s =
      let key = execution_key canonical_hash prepared in
      elim (first_row (is_approval approval_id) s.approvals) [
        | none ↦ (rejected approval_not_applicable, s)
        | some row ↦
            if is_consumable key now row
            then (if nat_eq (count_rows (is_consumed_by approval_id key) s.approvals) 1
                then (
                  ok tt,
                  record s {
                    approvals =
                        update_rows (is_consumed_by approval_id key) (set_used now key) s.approvals;
                  },
                )
                else (rejected approval_not_applicable, s))
            else (rejected approval_not_applicable, s)
      ]

  unfoldable pub consume_reserved_approval : PreparedChange → String → ℕ → Control (Unit {0})
  unfolding require_no_interrupt refuse_engaged consume_row
  consume_reserved_approval prepared approval_id now = do
    require_no_interrupt prepared.scope
    refuse_engaged prepared.scope
    consume_row prepared approval_id now

  -- The second `try` block of `send_once`, up to the call of `sender`.
  unfoldable pub cross_boundary :
      PreparedChange → String → ℕ → Callback → Callback → Control (Unit {0})
  unfolding require_no_interrupt refuse_engaged consume_reserved_approval
  cross_boundary prepared approval_id now at_dispatch_boundary immediate_pre_transport = do
    require_no_interrupt prepared.scope
    refuse_engaged prepared.scope
    dispatch_at ← call_or now at_dispatch_boundary
    immediate_at ← call_or dispatch_at immediate_pre_transport
    consume_reserved_approval prepared approval_id immediate_at

  -- The `except ControlRejected` handler: the reservation is given back, the execution is blocked,
  -- and the error is raised again.
  unfoldable pub abort_dispatch :
      PreparedChange → String → ℕ → ReasonCode → Control (ExecutionStatus × ExecutionRecord)
  unfolding release_approval_reservation finish_execution execution_key reason_text
  abort_dispatch prepared approval_id now reason = do
    release_approval_reservation approval_id (execution_key canonical_hash prepared)
    finish_execution (execution_key canonical_hash prepared) blocked (some (reason_text reason)) now
    reject reason

  unfoldable pub conclude :
      PreparedChange
      → String
      → ℕ
      → ExecutionRecord
      → Result (Unit {0}) × DurableControlState
      → SendOutcome
  unfolding abort_dispatch
  conclude prepared approval_id now row (ok _, s) = record {
    result = ok (in_flight, row);
    state = s;
    sent = true;
  }
  conclude prepared approval_id now row (rejected reason, s) =
      let (r, t) = abort_dispatch prepared approval_id now reason s in
      record { result = r; state = t; sent = false }

  unfoldable pub dispatch :
      PreparedChange
      → String
      → ℕ
      → Callback
      → Callback
      → Result Authority × DurableControlState
      → SendOutcome
  unfolding cross_boundary conclude
  dispatch prepared approval_id now boundary immediate (rejected reason, s) = record {
    result = rejected reason;
    state = s;
    sent = false;
  }
  dispatch prepared approval_id now boundary immediate (ok (replayed status row), s) = record {
    result = ok (status, row);
    state = s;
    sent = false;
  }
  dispatch prepared approval_id now boundary immediate (ok (granted row), s) =
      conclude prepared approval_id now row
        (cross_boundary prepared approval_id now boundary immediate s)

  unfoldable pub send_once :
      PreparedChange → String → ℕ → Callback → Callback → DurableControlState → SendOutcome
  unfolding authorize_dispatch dispatch
  send_once prepared approval_id now boundary immediate s =
      dispatch prepared approval_id now boundary immediate
        (authorize_dispatch prepared approval_id now s)
