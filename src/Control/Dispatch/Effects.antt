-- ===== src/Control/Dispatch/Effects.antt =====
-- What the two transactions of `send_once` write, in one equation each.
use mox_adv.Prelude.{ℕ, String, true, false, ◌∷◌, ◌≡◌, ◌⊎◌, arith}
use mox_adv.Prelude.Json.{Json}
use mox_adv.Table.{count_rows, update_rows}
use mox_adv.Table.Counts.{first_row-none}
use mox_adv.Control.Approvals.{is_reservable, set_reserved, set_used}
use mox_adv.Control.Executions.{
  is_active_row, is_reserved_key, set_in_flight, new_execution, check_approval,
}
use mox_adv.Control.KillSwitches.{require_no_interrupt, refuse_engaged}
use mox_adv.Control.Dispatch.{
  is_consumed_by, authorize_dispatch, take_authority, consume_reserved_approval,
}
use mox_adv.Control.Reason.{is_ok}
use mox_adv.Control.Rows.{PreparedChange, TrustedScope, has_key, execution_key}
use mox_adv.Control.State.{DurableControlState}

pub refuse_engaged-state :
    (scope : TrustedScope) (s : DurableControlState) → (refuse_engaged scope s).1 ≡ s
unfolding refuse_engaged
refuse_engaged-state scope s = ground arith

pub require_no_interrupt-state :
    (scope : TrustedScope) (s : DurableControlState) → (require_no_interrupt scope s).1 ≡ s
unfolding require_no_interrupt
require_no_interrupt-state scope s = ground arith

module _ (canonical_hash : Json → String) (prepared : PreparedChange) (id : String) (now : ℕ)
    (s : DurableControlState) where
  check_approval-state : (check_approval canonical_hash prepared id now s).1 ≡ s
  unfolding check_approval
  check_approval-state = ground arith

  pub consume-effect :
      let key = execution_key canonical_hash prepared in
      let out = consume_reserved_approval canonical_hash prepared id now s in
      ((is_ok out.0 ≡ false) × (out.1 ≡ s))
      ⊎ ((is_ok out.0 ≡ true)
          × (count_rows (is_consumed_by id key) s.approvals ≡ 1)
          × (out.1 ≡ record s {
            approvals = update_rows (is_consumed_by id key) (set_used now key) s.approvals;
          }))
  unfolding consume_reserved_approval
  consume-effect = ground arith

  -- What `take_approval` leaves once the execution is inserted.
  abbrev pub taken : DurableControlState
  taken =
      let key = execution_key canonical_hash prepared in
      record s {
        approvals = update_rows (is_reservable id) (set_reserved now key) s.approvals;
        executions =
            update_rows (is_reserved_key key) (set_in_flight now)
              (new_execution canonical_hash prepared now ∷ s.executions);
      }

  take_authority-effect :
      let out = take_authority canonical_hash prepared id now s in
      (is_ok out.0 ≡ false) ⊎ ((count_rows (is_reservable id) s.approvals ≡ 1) × (out.1 ≡ taken))
  unfolding take_authority
  take_authority-effect = ground arith

  -- The first transaction writes nothing, or takes the approval for a new execution while no other
  -- execution is active.
  pub authorize-effect :
      let key = execution_key canonical_hash prepared in
      let out = (authorize_dispatch canonical_hash prepared id now s).1 in
      (out ≡ s)
      ⊎ ((count_rows (has_key key) s.executions ≡ 0)
          × (count_rows is_active_row s.executions ≡ 0)
          × (count_rows (is_reservable id) s.approvals ≡ 1)
          × (out ≡ taken))
  unfolding authorize_dispatch
  authorize-effect =
      let key = execution_key canonical_hash prepared in
      ground (
        arith,
        take_authority-effect,
        first_row-none (has_key key) s.executions,
        first_row-none is_active_row s.executions,
      )
