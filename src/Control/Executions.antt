-- ===== src/Control/Executions.antt =====
-- The execution ledger of src/mox_adv/control_state.py.
use mox_adv.Prelude.{
  ℕ, String, Bool, true, false, not, ◌&&◌, Option, none, some, ◌∷◌, ◌==◌, ltb, nat_eq, is_null,
  if◌then◌else◌,
}
use mox_adv.Prelude.Json.{Json}
use mox_adv.Table.{first_row, any_row, count_rows, update_rows}
use mox_adv.Control.Approvals.{approval_from_row, is_reservable, set_reserved}
use mox_adv.Control.Reason.{
  ok, rejected, invalid_input, approval_already_used, approval_not_applicable, unknown_result,
  execution_conflict, illegal_execution_transition, execution_not_found,
}
use mox_adv.Control.Rows.{
  ExecutionStatus, reserved, in_flight, applied, no_change, blocked, already_processed, failed,
  PreparedChange, ApprovalRecord, used, ExecutionRecord, is_approval, is_reserved, is_unresolved,
  is_active, has_key, target_key, binding_hash, execution_key,
}
use mox_adv.Control.State.{Control, transaction, continue, ◌>>◌}

abbrev pub status_eq : ExecutionStatus → ExecutionStatus → Bool
status_eq reserved reserved = true
status_eq in_flight in_flight = true
status_eq applied applied = true
status_eq no_change no_change = true
status_eq blocked blocked = true
status_eq already_processed already_processed = true
status_eq ExecutionStatus.unknown_result ExecutionStatus.unknown_result = true
status_eq failed failed = true
status_eq _ _ = false

-- The statuses that `finish_execution` accepts.
abbrev pub is_terminal : ExecutionStatus → Bool
is_terminal applied = true
is_terminal no_change = true
is_terminal blocked = true
is_terminal ExecutionStatus.unknown_result = true
is_terminal failed = true
is_terminal _ = false

-- What a repeated reservation reports.
abbrev pub replay_status : ExecutionStatus → ExecutionStatus
replay_status applied = already_processed
replay_status no_change = already_processed
replay_status status = status

abbrev pub is_unresolved_row : ExecutionRecord → Bool
is_unresolved_row row = is_unresolved row.status

abbrev pub is_active_row : ExecutionRecord → Bool
is_active_row row = is_active row.status

abbrev pub is_reserved_key : String → ExecutionRecord → Bool
is_reserved_key key row = row.execution_key == key && is_reserved row.status

abbrev pub is_active_key : String → ExecutionRecord → Bool
is_active_key key row = row.execution_key == key && is_active row.status

abbrev pub set_in_flight : ℕ → ExecutionRecord → ExecutionRecord
set_in_flight now row = record row { status = in_flight; updated_at = now }

abbrev pub set_finished : ExecutionStatus → Option String → ℕ → ExecutionRecord → ExecutionRecord
set_finished status detail now row = record row {
  status = status;
  detail = detail;
  updated_at = now;
}

unfoldable pub load_execution : String → Control ExecutionRecord
load_execution key s = elim (first_row (has_key key) s.executions) [
  | none ↦ (rejected execution_not_found, s)
  | some row ↦ (ok row, s)
]

-- `ExecutionStatus(status)` succeeds on every value of the type.
unfoldable pub finish_execution :
    String → ExecutionStatus → Option String → ℕ → Control ExecutionRecord
unfolding load_execution
finish_execution key status detail now s =
    if is_terminal status
    then (if nat_eq (count_rows (is_active_key key) s.executions) 1
        then load_execution key (record s {
          executions =
              update_rows (is_active_key key) (set_finished status detail now) s.executions;
        })
        else elim (first_row (has_key key) s.executions) [
          | none ↦ (rejected illegal_execution_transition, s)
          | some row ↦
              if status_eq row.status status
              then load_execution key s
              else (rejected illegal_execution_transition, s)
        ])
    else (rejected invalid_input, s)

module _ (canonical_hash : Json → String) where
  unfoldable pub new_execution : PreparedChange → ℕ → ExecutionRecord
  unfolding execution_key target_key
  new_execution prepared now = record {
    execution_key = execution_key canonical_hash prepared;
    proposal_id = prepared.proposal_id;
    status = reserved;
    target_key = target_key prepared;
    current_value = prepared.current_value;
    target_value = prepared.target_value;
    detail = none;
    created_at = now;
    updated_at = now;
  }

  unfoldable pub reserve_execution :
      PreparedChange → ℕ → Control (ExecutionStatus × ExecutionRecord)
  unfolding new_execution execution_key
  reserve_execution prepared now s =
      if any_row is_unresolved_row s.executions
      then (rejected unknown_result, s)
      else elim (first_row (has_key (execution_key canonical_hash prepared)) s.executions) [
        | some row ↦ (ok (replay_status row.status, row), s)
        | none ↦ elim (first_row is_active_row s.executions) [
          | some row ↦ (ok (blocked, row), s)
          | none ↦
              let row = new_execution prepared now in
              (ok (reserved, row), record s { executions = row ∷ s.executions })
        ]
      ]

  -- The approval row that a dispatch may take: present, intact, unused, unrevoked, unreserved,
  -- bound to this exact change and unexpired.
  unfoldable pub is_applicable : PreparedChange → ℕ → ApprovalRecord → Bool
  unfolding binding_hash
  is_applicable prepared now approval =
      not (used approval)
      && (is_null approval.revoked_at
          && (is_null approval.reserved_at
              && (approval.binding_hash == binding_hash canonical_hash prepared
                  && ltb now approval.expires_at)))

  -- `none` where no row has the id, as in `current is None`.
  unfoldable pub check_approval : PreparedChange → String → ℕ → Control (Unit {0})
  unfolding approval_from_row is_applicable
  check_approval prepared approval_id now s =
      elim (first_row (is_approval approval_id) s.approvals) [
        | none ↦ (rejected approval_not_applicable, s)
        | some row ↦
            continue (approval_from_row canonical_hash row)
              (λ current t.
                if is_applicable prepared now current
                then (ok tt, t)
                else (rejected approval_not_applicable, t))
              s
      ]

  -- UPDATE approvals SET reserved_at …, then UPDATE executions SET status = 'IN_FLIGHT' ….
  unfoldable pub take_approval : PreparedChange → String → ℕ → Control (Unit {0})
  unfolding execution_key
  take_approval prepared approval_id now s =
      let key = execution_key canonical_hash prepared in
      if nat_eq (count_rows (is_reservable approval_id) s.approvals) 1
      then (if nat_eq (count_rows (is_reserved_key key) s.executions) 1
          then (
            ok tt,
            record s {
              approvals =
                  update_rows (is_reservable approval_id) (set_reserved now key) s.approvals;
              executions = update_rows (is_reserved_key key) (set_in_flight now) s.executions;
            },
          )
          else (rejected execution_conflict, s))
      else (rejected approval_already_used, s)

  unfoldable pub begin_execution : PreparedChange → String → ℕ → Control ExecutionRecord
  unfolding check_approval take_approval load_execution execution_key
  begin_execution prepared approval_id now = transaction do
    check_approval prepared approval_id now
    take_approval prepared approval_id now
    load_execution (execution_key canonical_hash prepared)
