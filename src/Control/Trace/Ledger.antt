-- ===== src/Control/Trace/Ledger.antt =====
-- Every step of control_state.py keeps the ledger invariant, in every order of steps.
use mox_adv.Prelude.{String, ◌≡◌, refl, inl, inr}
use mox_adv.Prelude.Json.{Json}
use mox_adv.Control.Approvals.{is_held_unused, new_approval, release_approval_reservation}
use mox_adv.Control.Dispatch.{is_consumed_by}
use mox_adv.Control.Dispatch.Effects.{authorize-effect, consume-effect}
use mox_adv.Control.Effects.{
  revoke-effect, mark-effect, finish-effect, engage-effect, disengage-effect, reserve-effect,
  begin-effect, grant-effect, grant-unprepared, issued,
}
use mox_adv.Control.Reason.{ok, rejected}
use mox_adv.Control.Rows.{execution_key}
use mox_adv.Control.Safe.{Safe}
use mox_adv.Control.Safe.Steps.{
  set_revoked-Safe, set_used-Safe, clear-Safe, set_finished-Safe, new_execution-Safe, take-Safe,
  insert_approval-Safe, taken-Safe,
}
use mox_adv.Control.State.{DurableControlState}
use mox_adv.Control.Trace.{
  Op, grant, revoke, mark_used, give_back, reserve, begin, finish, engage, disengage, authorize,
  consume, send, sidecar, apply,
}

-- The invariant reads the two ledgers alone.
same_ledgers-Safe :
    (s t : DurableControlState)
    → Safe s
    → t.approvals ≡ s.approvals
    → t.executions ≡ s.executions
    → Safe t
same_ledgers-Safe s t safe a e = record {
  ids = λ id. rw a (safe.ids id);
  keys = λ k. rw e (safe.keys k);
  held = λ k. rw (a, e) (safe.held k);
  single = rw e safe.single;
}

module _ (canonical_hash : Json → String) (s : DurableControlState) (safe : Safe s) where
  pub apply-Safe : (op : Op) → Safe (apply canonical_hash op s)
  unfolding apply release_approval_reservation
  apply-Safe (grant (rejected r) id expires_at reason principal now) =
      rw (grant-unprepared canonical_hash s id expires_at reason principal now r) safe
  apply-Safe (grant (ok prepared) id expires_at reason principal now) =
      elim (grant-effect canonical_hash s id expires_at reason principal now prepared) [
        | inl e ↦ rw e safe
        | inr e ↦ rw e.1 (
            insert_approval-Safe canonical_hash prepared s
              (issued canonical_hash s id expires_at reason principal now prepared) safe
              (unfold new_approval in refl))
      ]
  apply-Safe (revoke id principal now) = elim (revoke-effect s id principal now) [
    | inl e ↦ rw e safe
    | inr e ↦ rw e (set_revoked-Safe s safe id now)
  ]
  apply-Safe (mark_used id key now) = elim (mark-effect s id key now) [
    | inl e ↦ rw e safe
    | inr e ↦ rw e (set_used-Safe s safe (is_held_unused id key) key now)
  ]
  apply-Safe (give_back id key) = clear-Safe s safe id key
  apply-Safe (reserve prepared now) = elim (reserve-effect canonical_hash s prepared now) [
    | inl e ↦ rw e safe
    | inr e ↦ rw e.2 (new_execution-Safe canonical_hash prepared s now safe e.0 e.1)
  ]
  apply-Safe (begin prepared id now) = elim (begin-effect canonical_hash s prepared id now) [
    | inl e ↦ rw e safe
    | inr e ↦ rw e.2 (take-Safe canonical_hash prepared s id now safe e.0 e.1)
  ]
  apply-Safe (finish key status detail now) = elim (finish-effect s key status detail now) [
    | inl e ↦ rw e safe
    | inr e ↦ rw e.2 (set_finished-Safe s safe key status detail now e.0)
  ]
  apply-Safe (engage scope reason principal now) =
      let (a, e) = engage-effect s scope reason principal now in same_ledgers-Safe s _ safe a e
  apply-Safe (disengage scope reason principal now) =
      let (a, e) = disengage-effect s scope reason principal now in same_ledgers-Safe s _ safe a e
  apply-Safe (authorize prepared id now) =
      elim (authorize-effect canonical_hash prepared id now s) [
        | inl e ↦ rw e safe
        | inr e ↦ rw e.3 (taken-Safe canonical_hash prepared s id now safe e.0 e.1 e.2)
      ]
  apply-Safe (consume prepared id now) = elim (consume-effect canonical_hash prepared id now s) [
    | inl e ↦ rw e.1 safe
    | inr e ↦ rw e.2 (
        set_used-Safe s safe (is_consumed_by id (execution_key canonical_hash prepared))
          (execution_key canonical_hash prepared) now)
  ]
  apply-Safe (send key) = safe
  apply-Safe (sidecar readable) = same_ledgers-Safe s _ safe refl refl
