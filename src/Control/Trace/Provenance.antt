-- ===== src/Control/Trace/Provenance.antt =====
-- Every approval is the Gate 0 principal's, and every call of `sender` rests on one of them.
use mox_adv.Prelude.{
  ℕ, ◌≤◌, String, ◌≡◌, refl, inl, inr, Bool, true, not, ◌&&◌, List, [], ◌∷◌, arith, ◌==◌, ◌∙◌,
}
use mox_adv.Prelude.Json.{Json}
use mox_adv.Table.{count_rows, update_rows}
use mox_adv.Table.Counts.{count-update, count-split}
use mox_adv.Control.Approvals.{
  insert_approval, release_approval_reservation, clear_reservation, is_held_unused, is_reservable,
  set_reserved, set_used, new_approval,
}
use mox_adv.Control.Dispatch.{is_consumed_by}
use mox_adv.Control.Dispatch.Effects.{authorize-effect, consume-effect}
use mox_adv.Control.Effects.{
  set_revoked, revoke-effect, mark-effect, finish-effect, engage-effect, disengage-effect,
  reserve-effect, begin-effect, grant-effect, grant-unprepared, issued,
}
use mox_adv.Control.Principal.{AuthenticatedPrincipal, is_gate0_principal}
use mox_adv.Control.Reason.{ok, rejected}
use mox_adv.Control.Rows.{PreparedChange, ApprovalRecord, is_approval, execution_key}
use mox_adv.Control.Safe.{spent}
use mox_adv.Control.State.{DurableControlState}
use mox_adv.Control.Trace.{
  Op, grant, revoke, mark_used, give_back, reserve, begin, finish, engage, disengage, authorize,
  consume, send, sidecar, World, occurrences, apply, step, run,
}
use mox_adv.Control.Trace.Sends.{IsFresh, fresh-Accounted, run-Accounted}

abbrev pub is_foreign : ApprovalRecord → Bool
is_foreign row = not (row.approver == "sviridov")

-- Consumed for `k`, and granted by the Gate 0 principal.
abbrev pub backs : String → ApprovalRecord → Bool
backs k row = spent k row && row.approver == "sviridov"

abbrev IsNative : DurableControlState → Type 0
IsNative s = count_rows is_foreign s.approvals ≡ 0

-- An UPDATE that leaves the approver alone.
update-IsNative :
    (p : ApprovalRecord → Bool) (f : ApprovalRecord → ApprovalRecord) (rows : List ApprovalRecord)
    → ((x : ApprovalRecord) → (f x).approver ≡ x.approver)
    → count_rows is_foreign rows ≡ 0
    → count_rows is_foreign (update_rows p f rows) ≡ 0
update-IsNative p f rows same h =
    count-update p is_foreign f rows (λ x _. ground (arith, same x)) ∙ h

module _ (canonical_hash : Json → String) (s : DurableControlState) (native : IsNative s) where
  insert-IsNative :
      (new : ApprovalRecord)
      → (new.approver == "sviridov") ≡ true
      → IsNative (insert_approval canonical_hash new s)
  unfolding insert_approval
  insert-IsNative new h = ground arith

  issued-approver :
      (prepared : PreparedChange) (id : String) (expires_at : ℕ) (reason : String)
      (principal : AuthenticatedPrincipal) (now : ℕ)
      → is_gate0_principal principal ≡ true
      → ((issued canonical_hash s id expires_at reason principal now prepared).approver
          == "sviridov")
        ≡ true
  unfolding new_approval is_gate0_principal
  issued-approver prepared id expires_at reason principal now h = ground arith

  apply-IsNative : (op : Op) → IsNative (apply canonical_hash op s)
  unfolding apply release_approval_reservation
  apply-IsNative (grant (rejected r) id expires_at reason principal now) =
      rw (grant-unprepared canonical_hash s id expires_at reason principal now r) native
  apply-IsNative (grant (ok prepared) id expires_at reason principal now) =
      elim (grant-effect canonical_hash s id expires_at reason principal now prepared) [
        | inl e ↦ rw e native
        | inr e ↦ rw e.1 (
            insert-IsNative (issued canonical_hash s id expires_at reason principal now prepared)
              (issued-approver prepared id expires_at reason principal now e.0))
      ]
  apply-IsNative (revoke id principal now) = elim (revoke-effect s id principal now) [
    | inl e ↦ rw e native
    | inr e ↦
        rw e (update-IsNative (is_approval id) (set_revoked now) s.approvals (λ x. refl) native)
  ]
  apply-IsNative (mark_used id key now) = elim (mark-effect s id key now) [
    | inl e ↦ rw e native
    | inr e ↦
        rw e (
          update-IsNative (is_held_unused id key) (set_used now key) s.approvals (λ x. refl) native)
  ]
  apply-IsNative (give_back id key) =
      update-IsNative (is_held_unused id key) clear_reservation s.approvals (λ x. refl) native
  apply-IsNative (reserve prepared now) =
      ground (arith, reserve-effect canonical_hash s prepared now)
  apply-IsNative (begin prepared id now) = elim (begin-effect canonical_hash s prepared id now) [
    | inl e ↦ rw e native
    | inr e ↦ rw e.2 (
        update-IsNative (is_reservable id)
          (set_reserved now (execution_key canonical_hash prepared)) s.approvals (λ x. refl) native)
  ]
  apply-IsNative (finish key status detail now) =
      ground (arith, finish-effect s key status detail now)
  apply-IsNative (engage scope reason principal now) =
      rw ((engage-effect s scope reason principal now).0) native
  apply-IsNative (disengage scope reason principal now) =
      rw ((disengage-effect s scope reason principal now).0) native
  apply-IsNative (authorize prepared id now) =
      elim (authorize-effect canonical_hash prepared id now s) [
        | inl e ↦ rw e native
        | inr e ↦ rw e.3 (
            update-IsNative (is_reservable id)
              (set_reserved now (execution_key canonical_hash prepared)) s.approvals (λ x. refl)
              native)
      ]
  apply-IsNative (consume prepared id now) =
      elim (consume-effect canonical_hash prepared id now s) [
        | inl e ↦ rw e.1 native
        | inr e ↦
            let key = execution_key canonical_hash prepared in
            rw e.2 (
              update-IsNative (is_consumed_by id key) (set_used now key) s.approvals (λ x. refl)
                native)
      ]
  apply-IsNative (send key) = native
  apply-IsNative (sidecar readable) = native

module _ (canonical_hash : Json → String) where
  run-IsNative :
      (ops : List Op) (w : World) → IsNative w.control → IsNative (run canonical_hash ops w).control
  unfolding run
  run-IsNative [] w h = h
  run-IsNative (send key ∷ ops) w h =
      run-IsNative ops (step canonical_hash (send key) w) (ground arith)
  run-IsNative (op ∷ ops) w h =
      run-IsNative ops (step canonical_hash op w) (apply-IsNative canonical_hash w.control h op)

  -- From a fresh database, in every order of steps: each call of `sender` with a key is covered by
  -- an approval that the principal `sviridov` granted and that was consumed for this very key.
  pub sent_backed :
      (ops : List Op) (w : World) (k : String)
      → IsFresh w
      → occurrences k (run canonical_hash ops w).sent
        ≤ count_rows (backs k) (run canonical_hash ops w).control.approvals
  sent_backed ops w k fresh = omega (
    arith,
    (run-Accounted canonical_hash ops w (fresh-Accounted w fresh)).covered k,
    run-IsNative ops w (rw fresh.no_approvals refl),
    count-split (spent k) (backs k) is_foreign (run canonical_hash ops w).control.approvals
        (λ x h. ground arith),
  )
