-- ===== src/Control/Approvals.antt =====
-- The approval methods of src/mox_adv/control_state.py.
use mox_adv.Prelude.{
  ℕ, String, Bool, ◌&&◌, ◌||◌, Option, none, some, List, [], ◌∷◌, ◌==◌, ltb, leb, nat_eq, is_null,
  holds_text, concat_text, if◌then◌else◌,
}
use mox_adv.Prelude.Json.{Json, text, instant, object, field, end}
use mox_adv.Prelude.Text.{is_blank, take, remove_prefix}
use mox_adv.Table.{first_row, any_row, count_rows, update_rows}
use mox_adv.Control.Principal.{AuthenticatedPrincipal, is_gate0_principal}
use mox_adv.Control.Reason.{
  Result, ok, rejected, unauthenticated_principal, invalid_input, approval_expired,
  approval_not_found, approval_integrity_failure, approval_revoked, approval_already_used,
  approval_scope_mismatch, approval_not_applicable,
}
use mox_adv.Control.Rows.{PreparedChange, ApprovalRecord, used, is_approval, binding_hash}
use mox_adv.Control.State.{DurableControlState, Control, continue}

-- The fields that the canonical hash of an approval covers.
unfoldable pub immutable : String → String → String → String → String → ℕ → ℕ → Json
immutable proposal_id binding approver authentication reason granted_at expires_at = object (
    field "schema_version" (text "approval-v1") (
      field "proposal_id" (text proposal_id) (
        field "binding_hash" (text binding) (
          field "approver" (text approver) (
            field "authentication" (text authentication) (
              field "reason" (text reason) (
                field "granted_at" (instant granted_at)
                  (field "expires_at" (instant expires_at) end))))))))

unfoldable pub approval_id_of : String → String
unfolding take remove_prefix
approval_id_of digest = concat_text "approval-" (take 24 (remove_prefix "sha256:" digest))

-- ORDER BY granted_at DESC LIMIT 1
unfoldable pub latest_granted : String → List ApprovalRecord → Option ApprovalRecord
latest_granted proposal_id [] = none
latest_granted proposal_id (row ∷ rows) =
    let later = latest_granted proposal_id rows in
    if row.proposal_id == proposal_id
    then elim later [
      | none ↦ some row
      | some other ↦ if ltb row.granted_at other.granted_at then some other else some row
    ]
    else later

-- UPDATE approvals … WHERE approval_id = ? AND reserved_at IS NULL AND used_at IS NULL AND
-- revoked_at IS NULL
abbrev pub is_reservable : String → ApprovalRecord → Bool
is_reservable id row =
    row.approval_id == id
    && (is_null row.reserved_at && (is_null row.used_at && is_null row.revoked_at))

abbrev pub set_reserved : ℕ → String → ApprovalRecord → ApprovalRecord
set_reserved now key row = record row { reserved_at = some now; reserved_execution_key = some key }

abbrev pub is_held_unused : String → String → ApprovalRecord → Bool
is_held_unused id key row =
    row.approval_id == id && (holds_text row.reserved_execution_key key && is_null row.used_at)

abbrev pub set_used : ℕ → String → ApprovalRecord → ApprovalRecord
set_used now key row = record row { used_at = some now; execution_key = some key }

abbrev pub clear_reservation : ApprovalRecord → ApprovalRecord
clear_reservation row = record row { reserved_at = none; reserved_execution_key = none }

unfoldable pub revoke_approval : String → AuthenticatedPrincipal → ℕ → Control (Unit {0})
revoke_approval approval_id principal now s =
    elim (first_row (is_approval approval_id) s.approvals) [
      | none ↦ (rejected approval_not_found, s)
      | some row ↦
          if row.approver == principal.identity
          then (if is_null row.used_at
              then (if is_null row.revoked_at
                  then (
                    ok tt,
                    record s {
                      approvals =
                          update_rows (is_approval approval_id)
                            (λ r. record r { revoked_at = some now }) s.approvals;
                    },
                  )
                  else (ok tt, s))
              else (rejected approval_already_used, s))
          else (rejected approval_not_found, s)
    ]

unfoldable pub mark_approval_used : String → String → ℕ → Control (Unit {0})
mark_approval_used approval_id key now s =
    if nat_eq (count_rows (is_held_unused approval_id key) s.approvals) 1
    then (
      ok tt,
      record s {
        approvals = update_rows (is_held_unused approval_id key) (set_used now key) s.approvals;
      },
    )
    else (rejected approval_not_applicable, s)

unfoldable pub release_approval_reservation : String → String → Control (Unit {0})
release_approval_reservation approval_id key s = (
  ok tt,
  record s {
    approvals = update_rows (is_held_unused approval_id key) clear_reservation s.approvals;
  },
)

module _ (canonical_hash : Json → String) where
  -- A row whose canonical hash does not cover its content is refused.
  unfoldable pub approval_from_row : ApprovalRecord → Result ApprovalRecord
  unfolding immutable
  approval_from_row row =
      let covered =
        immutable row.proposal_id row.binding_hash row.approver "authenticated_macos_user"
          row.reason row.granted_at row.expires_at in
      if canonical_hash covered == row.canonical_hash
      then ok row
      else rejected approval_integrity_failure

  unfoldable pub load_approval : String → Control ApprovalRecord
  unfolding approval_from_row
  load_approval approval_id s = elim (first_row (is_approval approval_id) s.approvals) [
    | none ↦ (rejected approval_not_found, s)
    | some row ↦ (approval_from_row row, s)
  ]

  unfoldable pub load_bound_approval : String → String → Control ApprovalRecord
  unfolding approval_from_row latest_granted
  load_bound_approval proposal_id binding s = elim (latest_granted proposal_id s.approvals) [
    | none ↦ (rejected approval_not_found, s)
    | some row ↦
        continue (approval_from_row row)
          (λ approval t.
            if approval.binding_hash == binding
            then (ok approval, t)
            else (rejected approval_scope_mismatch, t))
          s
  ]

  unfoldable pub load_active_approval : String → String → ℕ → Control ApprovalRecord
  unfolding load_bound_approval
  load_active_approval proposal_id binding now s =
      let (found, t) = load_bound_approval proposal_id binding s in
      continue found
        (λ approval u.
          if is_null approval.revoked_at
          then (if used approval
              then (rejected approval_already_used, u)
              else if leb approval.expires_at now
              then (rejected approval_expired, u)
              else (ok approval, u))
          else (rejected approval_revoked, u))
        t

  -- The row that `grant_approval` inserts.
  unfoldable pub new_approval :
      PreparedChange → String → ℕ → String → AuthenticatedPrincipal → ℕ → ApprovalRecord
  unfolding binding_hash immutable approval_id_of
  new_approval prepared proposal_id expires_at reason principal now =
      let binding = binding_hash canonical_hash prepared in
      let digest = canonical_hash (
        immutable proposal_id binding principal.identity principal.authentication reason now
          expires_at) in
      record {
        approval_id = approval_id_of digest;
        proposal_id = proposal_id;
        binding_hash = binding;
        canonical_hash = digest;
        approver = principal.identity;
        reason = reason;
        granted_at = now;
        expires_at = expires_at;
        revoked_at = none;
        reserved_at = none;
        reserved_execution_key = none;
        used_at = none;
        execution_key = none;
      }

  -- The primary key and the UNIQUE column: an INSERT that meets one raises IntegrityError.
  abbrev pub collides : ApprovalRecord → ApprovalRecord → Bool
  collides new row = row.approval_id == new.approval_id || row.canonical_hash == new.canonical_hash

  -- INSERT INTO approvals …, where an IntegrityError is suppressed, and the row as it is then read.
  unfoldable pub insert_approval : ApprovalRecord → DurableControlState → DurableControlState
  insert_approval new s =
      if any_row (collides new) s.approvals then s else record s { approvals = new ∷ s.approvals }

  unfoldable pub store_approval : ApprovalRecord → Control ApprovalRecord
  unfolding insert_approval load_approval
  store_approval new s = load_approval new.approval_id (insert_approval new s)

  -- `loaded` is what `load_prepared_change(proposal_id)` returns or raises.
  unfoldable pub grant_approval :
      Result PreparedChange
      → String
      → ℕ
      → String
      → AuthenticatedPrincipal
      → ℕ
      → Control ApprovalRecord
  unfolding is_gate0_principal is_blank
  grant_approval loaded proposal_id expires_at reason principal now s =
      if is_gate0_principal principal
      then (if is_blank reason
          then (rejected invalid_input, s)
          else if leb expires_at now
          then (rejected approval_expired, s)
          else continue loaded
              (λ prepared.
                store_approval (new_approval prepared proposal_id expires_at reason principal now))
              s)
      else (rejected unauthenticated_principal, s)
