-- ===== src/Control/Safe/Steps.antt =====
-- Each write of src/mox_adv/control_state.py keeps the ledger invariant.
use mox_adv.Prelude.{
  ℕ, ◌≤◌, String, ◌≡◌, refl, inl, inr, Bool, true, Option, none, List, ◌∷◌, arith, eq_iff, eq_refl,
  Bool-cases,
}
use mox_adv.Prelude.Json.{Json}
use mox_adv.Table.{any_row, count_rows, update_rows}
use mox_adv.Table.Counts.{count-update, any_row-false, count_mono}
use mox_adv.Control.Approvals.{
  is_reservable, set_reserved, is_held_unused, set_used, clear_reservation, insert_approval,
  collides,
}
use mox_adv.Control.Dispatch.Effects.{taken}
use mox_adv.Control.Effects.{set_revoked}
use mox_adv.Control.Executions.{
  is_active_row, is_reserved_key, is_active_key, set_in_flight, set_finished, is_terminal,
  new_execution,
}
use mox_adv.Control.Rows.{
  PreparedChange, ApprovalRecord, ExecutionStatus, is_approval, has_key, execution_key,
}
use mox_adv.Control.Safe.{Safe, holds}
use mox_adv.Control.Safe.Updates.{
  holds-set_reserved, holds-clear, key-set_in_flight, reserved-set_in_flight, active-set_in_flight,
  key-set_finished, reserved-set_finished, active-set_finished,
}
use mox_adv.Control.State.{DurableControlState}

-- A table of approvals whose ids are as unique, with no more reservations.
pub approvals-Safe :
    (s : DurableControlState) (rows : List ApprovalRecord)
    → Safe s
    → ((id : String) → count_rows (is_approval id) rows ≤ count_rows (is_approval id) s.approvals)
    → ((k : String) → count_rows (holds k) rows ≤ count_rows (holds k) s.approvals)
    → Safe (record s { approvals = rows })
approvals-Safe s rows safe ids held = record {
  ids = λ id. omega (arith, safe.ids id, ids id);
  keys = λ k. safe.keys k;
  held = λ k. omega (arith, safe.held k, held k);
  single = safe.single;
}

module _ (s : DurableControlState) (safe : Safe s) where
  -- An update of rows that keeps their ids and reservations.
  pub set_revoked-Safe :
      (id : String) (now : ℕ)
      → Safe (record s { approvals = update_rows (is_approval id) (set_revoked now) s.approvals })
  set_revoked-Safe id now =
      approvals-Safe s _ safe
        (λ j. omega (
          arith,
          count-update (is_approval id) (is_approval j) (set_revoked now) s.approvals (λ x h. refl),
        ))
        (λ k. omega (
          arith,
          count-update (is_approval id) (holds k) (set_revoked now) s.approvals (λ x h. refl),
        ))

  pub set_used-Safe :
      (p : ApprovalRecord → Bool) (key : String) (now : ℕ)
      → Safe (record s { approvals = update_rows p (set_used now key) s.approvals })
  set_used-Safe p key now =
      approvals-Safe s _ safe
        (λ j.
          omega
            (arith, count-update p (is_approval j) (set_used now key) s.approvals (λ x h. refl)))
        (λ k. omega (arith, count-update p (holds k) (set_used now key) s.approvals (λ x h. refl)))

  pub clear-Safe :
      (id key : String)
      → Safe (record s {
        approvals = update_rows (is_held_unused id key) clear_reservation s.approvals;
      })
  clear-Safe id key =
      approvals-Safe s _ safe
        (λ j. omega (
          arith,
          count-update (is_held_unused id key) (is_approval j) clear_reservation s.approvals
              (λ x h. refl),
        ))
        (λ k. holds-clear s.approvals id key k 0)

  pub set_finished-Safe :
      (key : String) (status : ExecutionStatus) (detail : Option String) (now : ℕ)
      → is_terminal status ≡ true
      → Safe (record s {
        executions = update_rows (is_active_key key) (set_finished status detail now) s.executions;
      })
  set_finished-Safe key status detail now ends = record {
    ids = safe.ids;
    keys =
        λ k. omega (arith, safe.keys k, key-set_finished s.executions key k now status detail ends);
    held = λ k. omega (
      arith,
      safe.held k,
      key-set_finished s.executions key k now status detail ends,
      reserved-set_finished s.executions key k now status detail ends,
    );
    single =
        omega (arith, safe.single, active-set_finished s.executions key key now status detail ends);
  }

module _ (canonical_hash : Json → String) (prepared : PreparedChange)
    (s : DurableControlState) where
  abbrev key : String
  key = execution_key canonical_hash prepared

  -- Reserving an execution whose key is new while none is active.
  pub new_execution-Safe :
      (now : ℕ)
      → Safe s
      → count_rows (has_key key) s.executions ≡ 0
      → count_rows is_active_row s.executions ≡ 0
      → Safe (record s { executions = new_execution canonical_hash prepared now ∷ s.executions })
  unfolding new_execution
  new_execution-Safe now safe fresh idle = record {
    ids = safe.ids;
    keys = λ k. ground (arith, safe.keys k, eq_iff key k);
    held = λ k. ground (arith, safe.held k, eq_iff key k);
    single = ground arith;
  }

  -- Taking an approval for an execution that is RESERVED.
  pub take-Safe :
      (id : String) (now : ℕ)
      → Safe s
      → count_rows (is_reservable id) s.approvals ≡ 1
      → count_rows (is_reserved_key key) s.executions ≡ 1
      → Safe (record s {
        approvals = update_rows (is_reservable id) (set_reserved now key) s.approvals;
        executions = update_rows (is_reserved_key key) (set_in_flight now) s.executions;
      })
  take-Safe id now safe one held_ = record {
    ids = λ j. omega (
      arith,
      safe.ids j,
      count-update (is_reservable id) (is_approval j) (set_reserved now key) s.approvals
          (λ x h. refl),
    );
    keys = λ k. omega (arith, safe.keys k, key-set_in_flight s.executions key k now);
    held = λ k. ground (
      arith,
      safe.held k,
      key-set_in_flight s.executions key k now,
      reserved-set_in_flight s.executions key k now,
      holds-set_reserved s.approvals id key k now,
    );
    single = omega (arith, safe.single, active-set_in_flight s.executions key key now);
  }

  pub insert_approval-Safe :
      (new : ApprovalRecord)
      → Safe s
      → new.reserved_execution_key ≡ none
      → Safe (insert_approval canonical_hash new s)
  unfolding insert_approval
  insert_approval-Safe new safe bare =
      elim (Bool-cases (any_row (collides canonical_hash new) s.approvals)) [
        | inl e ↦ rw e safe
        | inr e ↦ rw e (record {
          ids = λ id. ground (
            arith,
            safe.ids id,
            eq_iff new.approval_id id,
            any_row-false (collides canonical_hash new) s.approvals,
            count_mono (is_approval new.approval_id) (collides canonical_hash new) s.approvals
                (λ x h. ground arith),
          );
          keys = safe.keys;
          held = λ k. ground (arith, safe.held k);
          single = safe.single;
        })
      ]

module _ (canonical_hash : Json → String) (prepared : PreparedChange)
    (s : DurableControlState) where
  own_reservation :
      (now : ℕ)
      → Safe s
      → count_rows (has_key (key canonical_hash prepared s)) s.executions ≡ 0
      → count_rows
          (is_reserved_key (key canonical_hash prepared s))
          (new_execution canonical_hash prepared now ∷ s.executions)
        ≡ 1
  unfolding new_execution
  own_reservation now safe fresh =
      ground
        (arith, safe.held (key canonical_hash prepared s), eq_refl (key canonical_hash prepared s))

  pub taken-Safe :
      (id : String) (now : ℕ)
      → Safe s
      → count_rows (has_key (execution_key canonical_hash prepared)) s.executions ≡ 0
      → count_rows is_active_row s.executions ≡ 0
      → count_rows (is_reservable id) s.approvals ≡ 1
      → Safe (taken canonical_hash prepared id now s)
  taken-Safe id now safe fresh idle one =
      take-Safe canonical_hash prepared
        (record s { executions = new_execution canonical_hash prepared now ∷ s.executions }) id now
        (new_execution-Safe canonical_hash prepared s now safe fresh idle) one
        (own_reservation now safe fresh)
