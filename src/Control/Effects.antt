-- ===== src/Control/Effects.antt =====
-- What the operations of src/mox_adv/control_state.py outside `send_once` write, each in one equation.
use mox_adv.Prelude.{ℕ, String, ◌≡◌, ◌⊎◌, true, Option, some, ◌∷◌, arith}
use mox_adv.Prelude.Json.{Json}
use mox_adv.Table.{count_rows, update_rows}
use mox_adv.Table.Counts.{first_row-none}
use mox_adv.Control.Approvals.{
  is_reservable, set_reserved, is_held_unused, set_used, grant_approval, revoke_approval,
  mark_approval_used, new_approval, insert_approval, store_approval,
}
use mox_adv.Control.Executions.{
  is_active_row, is_reserved_key, is_active_key, set_in_flight, set_finished, is_terminal,
  new_execution, reserve_execution, begin_execution, finish_execution,
}
use mox_adv.Control.KillSwitches.{engage_kill_switch, release_kill_switch}
use mox_adv.Control.Principal.{is_gate0_principal, AuthenticatedPrincipal, Principal}
use mox_adv.Control.Reason.{ReasonCode, ok, rejected}
use mox_adv.Control.Rows.{
  PreparedChange, ApprovalRecord, ExecutionStatus, is_approval, has_key, execution_key,
}
use mox_adv.Control.State.{DurableControlState}

abbrev pub set_revoked : ℕ → ApprovalRecord → ApprovalRecord
set_revoked now row = record row { revoked_at = some now }

module _ (s : DurableControlState) where
  pub revoke-effect :
      (id : String) (principal : AuthenticatedPrincipal) (now : ℕ)
      → let out = (revoke_approval id principal now s).1 in
        (out ≡ s)
        ⊎ (out
            ≡ record s { approvals = update_rows (is_approval id) (set_revoked now) s.approvals })
  unfolding revoke_approval
  revoke-effect id principal now = ground arith

  pub mark-effect :
      (id key : String) (now : ℕ)
      → let out = (mark_approval_used id key now s).1 in
        (out ≡ s)
        ⊎ (out ≡ record s {
          approvals = update_rows (is_held_unused id key) (set_used now key) s.approvals;
        })
  unfolding mark_approval_used
  mark-effect id key now = ground arith

  pub finish-effect :
      (key : String) (status : ExecutionStatus) (detail : Option String) (now : ℕ)
      → let out = (finish_execution key status detail now s).1 in
        (out ≡ s)
        ⊎ ((is_terminal status ≡ true)
            × (count_rows (is_active_key key) s.executions ≡ 1)
            × (out ≡ record s {
              executions =
                  update_rows (is_active_key key) (set_finished status detail now) s.executions;
            }))
  unfolding finish_execution
  finish-effect key status detail now = ground arith

  pub engage-effect :
      (scope reason : String) (principal : AuthenticatedPrincipal) (now : ℕ)
      → let out = (engage_kill_switch scope reason principal now s).1 in
        (out.approvals ≡ s.approvals) × (out.executions ≡ s.executions)
  unfolding engage_kill_switch
  engage-effect scope reason principal now = ground arith

  pub disengage-effect :
      (scope reason : String) (principal : Principal) (now : ℕ)
      → let out = (release_kill_switch scope reason principal now s).1 in
        (out.approvals ≡ s.approvals) × (out.executions ≡ s.executions)
  unfolding release_kill_switch
  disengage-effect scope reason principal now = ground arith

module _ (canonical_hash : Json → String) (s : DurableControlState) where
  -- The row that `store_approval` was given is in the table or met one that is.
  store_approval-state :
      (new : ApprovalRecord)
      → (store_approval canonical_hash new s).1 ≡ insert_approval canonical_hash new s
  unfolding store_approval
  store_approval-state new = ground arith

  pub reserve-effect :
      (prepared : PreparedChange) (now : ℕ)
      → let out = (reserve_execution canonical_hash prepared now s).1 in
        (out ≡ s)
        ⊎ ((count_rows (has_key (execution_key canonical_hash prepared)) s.executions ≡ 0)
            × (count_rows is_active_row s.executions ≡ 0)
            × (out ≡ record s {
              executions = new_execution canonical_hash prepared now ∷ s.executions;
            }))
  unfolding reserve_execution
  reserve-effect prepared now = ground (
    arith,
    first_row-none (has_key (execution_key canonical_hash prepared)) s.executions,
    first_row-none is_active_row s.executions,
  )

  pub begin-effect :
      (prepared : PreparedChange) (id : String) (now : ℕ)
      → let key = execution_key canonical_hash prepared in
        let out = (begin_execution canonical_hash prepared id now s).1 in
        (out ≡ s)
        ⊎ ((count_rows (is_reservable id) s.approvals ≡ 1)
            × (count_rows (is_reserved_key key) s.executions ≡ 1)
            × (out ≡ record s {
              approvals = update_rows (is_reservable id) (set_reserved now key) s.approvals;
              executions = update_rows (is_reserved_key key) (set_in_flight now) s.executions;
            }))
  unfolding begin_execution
  begin-effect prepared id now = ground arith

  module _ (proposal_id : String) (expires_at : ℕ) (reason : String)
      (principal : AuthenticatedPrincipal) (now : ℕ) where
    abbrev pub issued : PreparedChange → ApprovalRecord
    issued prepared =
        new_approval canonical_hash prepared proposal_id expires_at reason principal now

    -- `grant_approval` changes nothing, or stores the approval of the principal that it admits.
    pub grant-effect :
        (prepared : PreparedChange)
        → let out =
            (grant_approval canonical_hash
              (ok prepared)
              proposal_id
              expires_at
              reason
              principal
              now
              s).1 in
          (out ≡ s)
          ⊎ ((is_gate0_principal principal ≡ true)
              × (out ≡ insert_approval canonical_hash (issued prepared) s))
    unfolding grant_approval
    grant-effect prepared = ground (arith, store_approval-state (issued prepared))

    pub grant-unprepared :
        (r : ReasonCode)
        → (grant_approval canonical_hash
            (rejected r)
            proposal_id
            expires_at
            reason
            principal
            now
            s).1
          ≡ s
    unfolding grant_approval
    grant-unprepared r = ground arith
