-- ===== src/Control/Trace/Spending.antt =====
-- No step of control_state.py takes a consumed approval back, and consuming adds just one.
use mox_adv.Prelude.{
  ℕ, ◌+◌, ◌≤◌, String, ◌≡◌, refl, inl, inr, true, List, arith, ◌==◌, if◌then◌else◌,
}
use mox_adv.Prelude.Json.{Json}
use mox_adv.Table.{count_rows, update_rows}
use mox_adv.Table.Counts.{count-update}
use mox_adv.Control.Approvals.{
  is_reservable, set_reserved, insert_approval, release_approval_reservation,
}
use mox_adv.Control.Dispatch.{consume_reserved_approval}
use mox_adv.Control.Dispatch.Effects.{authorize-effect, consume-effect}
use mox_adv.Control.Effects.{
  set_revoked, revoke-effect, mark-effect, finish-effect, engage-effect, disengage-effect,
  reserve-effect, begin-effect, grant-effect, grant-unprepared, issued,
}
use mox_adv.Control.Reason.{is_ok, ok, rejected}
use mox_adv.Control.Rows.{ApprovalRecord, PreparedChange, is_approval, used, execution_key}
use mox_adv.Control.Safe.{spent}
use mox_adv.Control.Safe.Updates.{
  spent-set_reserved, used-set_reserved, spent-clear, used-clear, spent-consume, used-consume,
  spent-mark, used-mark,
}
use mox_adv.Control.State.{DurableControlState}
use mox_adv.Control.Trace.{
  Op, grant, revoke, mark_used, give_back, reserve, begin, finish, engage, disengage, authorize,
  consume, send, sidecar, apply,
}

-- `after` has every consumed approval that `before` has.
pub record Grows (before after : List ApprovalRecord) : Type 0 where
  pub spent_grows : (k : String) → count_rows (spent k) before ≤ count_rows (spent k) after
  pub used_grows : count_rows used before ≤ count_rows used after

Grows-refl : (rows : List ApprovalRecord) → Grows rows rows
Grows-refl rows = record { spent_grows = λ k. omega arith; used_grows = omega arith }

module _ (canonical_hash : Json → String) (s : DurableControlState) where
  insert-Grows :
      (new : ApprovalRecord) → Grows s.approvals (insert_approval canonical_hash new s).approvals
  unfolding insert_approval
  insert-Grows new = record { spent_grows = λ k. ground arith; used_grows = ground arith }

  set_reserved-Grows :
      (id key : String) (now : ℕ)
      → Grows s.approvals (update_rows (is_reservable id) (set_reserved now key) s.approvals)
  set_reserved-Grows id key now = record {
    spent_grows = λ k. omega (arith, spent-set_reserved s.approvals id key k now);
    used_grows = omega (arith, used-set_reserved s.approvals id key key now);
  }

  -- What a successful consumption adds: one approval, spent for its key.
  pub consume-spends :
      (prepared : PreparedChange) (id : String) (now : ℕ) (k : String)
      → is_ok (consume_reserved_approval canonical_hash prepared id now s).0 ≡ true
      → let after = (consume_reserved_approval canonical_hash prepared id now s).1 in
        (count_rows (spent k) after.approvals
          ≡ count_rows (spent k) s.approvals
            + (if execution_key canonical_hash prepared == k then 1 else 0))
        × (count_rows used after.approvals ≡ count_rows used s.approvals + 1)
  consume-spends prepared id now k good = elim (consume-effect canonical_hash prepared id now s) [
    | inl e ↦ cc
    | inr e ↦
        let key = execution_key canonical_hash prepared in
        rw e.2 (
          ground (arith, spent-consume s.approvals id key k now),
          omega (arith, used-consume s.approvals id key k now),
        )
  ]

  pub apply-Grows : (op : Op) → Grows s.approvals (apply canonical_hash op s).approvals
  unfolding apply release_approval_reservation
  apply-Grows (grant (rejected r) id expires_at reason principal now) =
      rw (grant-unprepared canonical_hash s id expires_at reason principal now r) (Grows-refl _)
  apply-Grows (grant (ok prepared) id expires_at reason principal now) =
      elim (grant-effect canonical_hash s id expires_at reason principal now prepared) [
        | inl e ↦ rw e (Grows-refl _)
        | inr e ↦
            rw e.1
              (insert-Grows (issued canonical_hash s id expires_at reason principal now prepared))
      ]
  apply-Grows (revoke id principal now) = elim (revoke-effect s id principal now) [
    | inl e ↦ rw e (Grows-refl _)
    | inr e ↦ rw e (record {
      spent_grows = λ k. omega (
        arith,
        count-update (is_approval id) (spent k) (set_revoked now) s.approvals (λ x h. refl),
      );
      used_grows =
          omega
            (arith, count-update (is_approval id) used (set_revoked now) s.approvals (λ x h. refl));
    })
  ]
  apply-Grows (mark_used id key now) = elim (mark-effect s id key now) [
    | inl e ↦ rw e (Grows-refl _)
    | inr e ↦ rw e (record {
      spent_grows = λ k. spent-mark s.approvals id key k now;
      used_grows = used-mark s.approvals id key key now;
    })
  ]
  apply-Grows (give_back id key) = record {
    spent_grows = λ k. omega (arith, spent-clear s.approvals id key k 0);
    used_grows = omega (arith, used-clear s.approvals id key key 0);
  }
  apply-Grows (reserve prepared now) = elim (reserve-effect canonical_hash s prepared now) [
    | inl e ↦ rw e (Grows-refl _)
    | inr e ↦ rw e.2 (Grows-refl _)
  ]
  apply-Grows (begin prepared id now) = elim (begin-effect canonical_hash s prepared id now) [
    | inl e ↦ rw e (Grows-refl _)
    | inr e ↦ rw e.2 (set_reserved-Grows id (execution_key canonical_hash prepared) now)
  ]
  apply-Grows (finish key status detail now) = elim (finish-effect s key status detail now) [
    | inl e ↦ rw e (Grows-refl _)
    | inr e ↦ rw e.2 (Grows-refl _)
  ]
  apply-Grows (engage scope reason principal now) =
      rw ((engage-effect s scope reason principal now).0) (Grows-refl _)
  apply-Grows (disengage scope reason principal now) =
      rw ((disengage-effect s scope reason principal now).0) (Grows-refl _)
  apply-Grows (authorize prepared id now) =
      elim (authorize-effect canonical_hash prepared id now s) [
        | inl e ↦ rw e (Grows-refl _)
        | inr e ↦ rw e.3 (set_reserved-Grows id (execution_key canonical_hash prepared) now)
      ]
  apply-Grows (consume prepared id now) = elim (consume-effect canonical_hash prepared id now s) [
    | inl e ↦ rw e.1 (Grows-refl _)
    | inr e ↦
        let key = execution_key canonical_hash prepared in
        rw e.2 (record {
          spent_grows = λ k. ground (arith, spent-consume s.approvals id key k now);
          used_grows = omega (arith, used-consume s.approvals id key key now);
        })
  ]
  apply-Grows (send key) = Grows-refl _
  apply-Grows (sidecar readable) = Grows-refl _
