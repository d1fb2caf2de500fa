-- ===== src/Control/Trace/Finality.antt =====
-- A finished execution stays as it is, and an approval is the Gate 0 principal's, over all steps.
use mox_adv.Prelude.{
  ℕ, String, ◌≡◌, refl, inl, inr, Bool, false, some, List, [], ◌∷◌, arith, eq_iff,
}
use mox_adv.Prelude.Json.{Json}
use mox_adv.Table.{first_row, count_rows, update_rows}
use mox_adv.Table.Counts.{first_row-some}
use mox_adv.Control.Approvals.{insert_approval, release_approval_reservation}
use mox_adv.Control.Dispatch.Effects.{authorize-effect, consume-effect}
use mox_adv.Control.Effects.{
  revoke-effect, mark-effect, finish-effect, engage-effect, disengage-effect, reserve-effect,
  begin-effect, grant-effect, grant-unprepared,
}
use mox_adv.Control.Executions.{
  is_reserved_key, is_active_key, set_in_flight, set_finished, new_execution,
}
use mox_adv.Control.Reason.{ok, rejected}
use mox_adv.Control.Rows.{PreparedChange, ExecutionRecord, is_active, has_key, execution_key}
use mox_adv.Control.State.{DurableControlState}
use mox_adv.Control.Trace.{
  Op, grant, revoke, mark_used, give_back, reserve, begin, finish, engage, disengage, authorize,
  consume, send, sidecar, World, apply, step, run,
}

-- An update passes a row by whose condition it does not meet.
first_row-update :
    (p q : ExecutionRecord → Bool) (f : ExecutionRecord → ExecutionRecord)
    (rows : List ExecutionRecord) (row : ExecutionRecord)
    → ((x : ExecutionRecord) → q (f x) ≡ q x)
    → p row ≡ false
    → first_row q rows ≡ some row
    → first_row q (update_rows p f rows) ≡ some row
first_row-update p q f [] row same out h = ground arith
first_row-update p q f (x ∷ rows) row same out h =
    ground (arith, same x, first_row-update p q f rows row same out)

module _ (canonical_hash : Json → String) (k : String) (row : ExecutionRecord) where
  new_execution-final :
      (prepared : PreparedChange) (now : ℕ) (rows : List ExecutionRecord)
      → count_rows (has_key (execution_key canonical_hash prepared)) rows ≡ 0
      → first_row (has_key k) rows ≡ some row
      → first_row (has_key k) (new_execution canonical_hash prepared now ∷ rows) ≡ some row
  unfolding new_execution
  new_execution-final prepared now rows fresh h = ground (
    arith,
    eq_iff (execution_key canonical_hash prepared) k,
    first_row-some (has_key k) rows row h,
  )

  in_flight-final :
      (key : String) (now : ℕ) (rows : List ExecutionRecord)
      → is_active row.status ≡ false
      → first_row (has_key k) rows ≡ some row
      → first_row (has_key k) (update_rows (is_reserved_key key) (set_in_flight now) rows)
        ≡ some row
  in_flight-final key now rows done h =
      first_row-update (is_reserved_key key) (has_key k) (set_in_flight now) rows row (λ x. refl)
        (ground arith) h

  apply-final :
      (op : Op) (s : DurableControlState)
      → is_active row.status ≡ false
      → first_row (has_key k) s.executions ≡ some row
      → first_row (has_key k) (apply canonical_hash op s).executions ≡ some row
  unfolding apply release_approval_reservation
  apply-final (grant (rejected r) id expires_at reason principal now) s done h =
      rw (grant-unprepared canonical_hash s id expires_at reason principal now r) h
  apply-final (grant (ok prepared) id expires_at reason principal now) s done h =
      elim (grant-effect canonical_hash s id expires_at reason principal now prepared) [
        | inl e ↦ rw e h
        | inr e ↦ rw e.1 (unfold insert_approval in ground arith)
      ]
  apply-final (revoke id principal now) s done h = ground (arith, revoke-effect s id principal now)
  apply-final (mark_used id key now) s done h = ground (arith, mark-effect s id key now)
  apply-final (give_back id key) s done h = h
  apply-final (reserve prepared now) s done h =
      elim (reserve-effect canonical_hash s prepared now) [
        | inl e ↦ rw e h
        | inr e ↦ rw e.2 (new_execution-final prepared now s.executions e.0 h)
      ]
  apply-final (begin prepared id now) s done h =
      elim (begin-effect canonical_hash s prepared id now) [
        | inl e ↦ rw e h
        | inr e ↦
            rw e.2 (in_flight-final (execution_key canonical_hash prepared) now s.executions done h)
      ]
  apply-final (finish key status detail now) s done h =
      elim (finish-effect s key status detail now) [
        | inl e ↦ rw e h
        | inr e ↦ rw e.2 (
            first_row-update (is_active_key key) (has_key k) (set_finished status detail now)
              s.executions row (λ x. refl) (ground arith) h)
      ]
  apply-final (engage scope reason principal now) s done h =
      rw ((engage-effect s scope reason principal now).1) h
  apply-final (disengage scope reason principal now) s done h =
      rw ((disengage-effect s scope reason principal now).1) h
  apply-final (authorize prepared id now) s done h =
      elim (authorize-effect canonical_hash prepared id now s) [
        | inl e ↦ rw e h
        | inr e ↦ rw e.3 (
            in_flight-final (execution_key canonical_hash prepared) now
              (new_execution canonical_hash prepared now ∷ s.executions) done
              (new_execution-final prepared now s.executions e.0 h))
      ]
  apply-final (consume prepared id now) s done h =
      ground (arith, consume-effect canonical_hash prepared id now s)
  apply-final (send key) s done h = h
  apply-final (sidecar readable) s done h = h

  -- Once an execution is APPLIED, NO_CHANGE, BLOCKED, FAILED or UNKNOWN_RESULT, its row is never
  -- written again and never deleted, whatever the callers of `DurableControlState` do.
  pub finished_is_final :
      (ops : List Op) (w : World)
      → is_active row.status ≡ false
      → first_row (has_key k) w.control.executions ≡ some row
      → first_row (has_key k) (run canonical_hash ops w).control.executions ≡ some row
  unfolding run
  finished_is_final [] w done h = h
  finished_is_final (send key ∷ ops) w done h =
      finished_is_final ops (step canonical_hash (send key) w) done (ground arith)
  finished_is_final (op ∷ ops) w done h =
      finished_is_final ops (step canonical_hash op w) done (apply-final op w.control done h)
