-- ===== src/Goals/Authorities.antt =====
-- Reservations and authorities of src/mox_adv/goal_store.py.
use mox_adv.Prelude.{
  ℕ, ◌+◌, String, Bool, true, false, not, ◌&&◌, none, some, List, [], ◌∷◌, ◌==◌, ltb, leb, nat_eq,
  holds_text, if◌then◌else◌,
}
use mox_adv.Table.{first_row, count_rows, update_rows}
use mox_adv.Commands.{member}
use mox_adv.Control.Principal.{AuthenticatedPrincipal}
use mox_adv.Goals.{
  AuthorityKind, approval, mandate, HoldStatus, available, active, reserved, used, exhausted,
  ReservationRow, CreationReservation, GoalAuthority, AuthorityProof, GoalAuthorityRow, GoalState,
}
use mox_adv.Goals.State.{GoalResult, ok, rejected, check, Method, ◌>>◌}

abbrev pub is_reservation : String → ReservationRow → Bool
is_reservation id row = row.reservation_id == id

abbrev pub is_authority : String → GoalAuthorityRow → Bool
is_authority id row = row.authority.authority_id == id

abbrev kind_eq : AuthorityKind → AuthorityKind → Bool
kind_eq approval approval = true
kind_eq mandate mandate = true
kind_eq _ _ = false

abbrev pub status_eq : HoldStatus → HoldStatus → Bool
status_eq available available = true
status_eq active active = true
status_eq reserved reserved = true
status_eq used used = true
status_eq exhausted exhausted = true
status_eq _ _ = false

-- `reservation` as it was registered.
abbrev pub same_reservation : CreationReservation → ReservationRow → Bool
same_reservation r row =
    row.scope_binding == r.scope_binding
    && (row.object_type == r.object_type
        && (row.proposal_id == r.proposal_id
            && (row.credential_profile == r.credential_profile
                && nat_eq row.expires_at r.expires_at)))

unfoldable pub register_reservation : CreationReservation → Method (Unit {0})
register_reservation r s = elim (first_row (is_reservation r.reservation_id) s.reservations) [
  | some row ↦
      if same_reservation r row then ok (tt, s) else rejected "IMMUTABLE_RESERVATION_CONFLICT"
  | none ↦ ok (
    tt,
    record s {
      reservations =
          record {
            reservation_id = r.reservation_id;
            status = available;
            scope_binding = r.scope_binding;
            object_type = r.object_type;
            proposal_id = r.proposal_id;
            credential_profile = r.credential_profile;
            expires_at = r.expires_at;
            execution_key = none;
            used_by_run = none;
          }
          ∷ s.reservations;
    },
  )
]

-- The status of an authority that is free.
abbrev pub free_status : AuthorityKind → HoldStatus
free_status approval = available
free_status mandate = active

abbrev all_within : List String → List String → Bool
all_within names [] = true
all_within names (name ∷ rest) = member name names && all_within names rest

-- The columns of the two, where `allowed_actions` is a sorted set of names without commas.
abbrev pub same_authority : GoalAuthority → GoalAuthority → Bool
same_authority a b =
    kind_eq a.kind b.kind
    && (a.principal == b.principal
        && (a.authentication == b.authentication
            && (a.proposal_id == b.proposal_id
                && (a.counter_id == b.counter_id
                    && (a.site_zone == b.site_zone
                        && (all_within a.allowed_actions b.allowed_actions
                            && (all_within b.allowed_actions a.allowed_actions
                                && (a.policy_id == b.policy_id
                                    && (a.binding_hash == b.binding_hash
                                        && (nat_eq a.action_quota b.action_quota
                                            && nat_eq a.expires_at b.expires_at))))))))))

abbrev pub same_proof : AuthorityProof → AuthorityProof → Bool
same_proof p q =
    p.canonical_hash == q.canonical_hash
    && (p.signature == q.signature
        && (p.issued_at == q.issued_at && p.canonical_json == q.canonical_json))

-- `register_authority` from the authority that the service checked, with its proof.
unfoldable pub register_authority : GoalAuthority → AuthorityProof → Method (Unit {0})
register_authority a proof s =
    if not (a.policy_id == "") && (not (a.binding_hash == "") && leb 1 a.action_quota)
    then elim (first_row (is_authority a.authority_id) s.authorities) [
      | some row ↦
          if same_authority row.authority a && same_proof row.proof proof
          then ok (tt, s)
          else rejected "IMMUTABLE_AUTHORITY_CONFLICT"
      | none ↦ ok (
        tt,
        record s {
          authorities =
              record {
                authority = a;
                proof = proof;
                status = free_status a.kind;
                actions_used = 0;
                execution_key = none;
              }
              ∷ s.authorities;
        },
      )
    ]
    else rejected "AUTHORITY_INVALID"

-- What `begin_goal_creation` and `begin_site_publication` ask of an authority.
pub record AuthorityRequest : Type 0 where
  pub authority_id : String
  pub proposal_id : String
  pub counter_id : String
  pub site_zone : String
  pub action : String
  pub policy_id : String
  pub binding_hash : String
  pub execution_key : String
  pub approval_principal : AuthenticatedPrincipal
  pub mandate_principal : AuthenticatedPrincipal

abbrev expected_principal : AuthorityRequest → AuthorityKind → AuthenticatedPrincipal
expected_principal r approval = r.approval_principal
expected_principal r mandate = r.mandate_principal

unfoldable pub is_usable : AuthorityRequest → ℕ → GoalAuthorityRow → Bool
is_usable r now row =
    let a = row.authority in
    let principal = expected_principal r a.kind in
    status_eq row.status (free_status a.kind)
    && (a.proposal_id == r.proposal_id
        && (a.counter_id == r.counter_id
            && (a.site_zone == r.site_zone
                && (a.principal == principal.identity
                    && (a.authentication == principal.authentication
                        && (member r.action a.allowed_actions
                            && (a.policy_id == r.policy_id
                                && (ltb now a.expires_at
                                    && (a.binding_hash == r.binding_hash
                                        && ltb row.actions_used a.action_quota)))))))))

-- WHERE authority_id = ? AND status = ?
abbrev pub is_free : String → HoldStatus → GoalAuthorityRow → Bool
is_free id status row = row.authority.authority_id == id && status_eq row.status status

abbrev pub set_held : String → GoalAuthorityRow → GoalAuthorityRow
set_held key row = record row { status = reserved; execution_key = some key }

-- WHERE authority_id = ? AND status = 'RESERVED' AND execution_key = ?
abbrev pub is_held : String → String → GoalAuthorityRow → Bool
is_held id key row =
    row.authority.authority_id == id
    && (status_eq row.status reserved && holds_text row.execution_key key)

-- The status after one more action, for a quota and the actions used.
abbrev pub terminal_status : AuthorityKind → ℕ → ℕ → HoldStatus
terminal_status approval quota actions = used
terminal_status mandate quota actions = if leb quota (actions + 1) then exhausted else active

abbrev pub set_charged : GoalAuthorityRow → GoalAuthorityRow
set_charged row = record row {
  status = terminal_status row.authority.kind row.authority.action_quota row.actions_used;
  actions_used = row.actions_used + 1;
  execution_key = none;
}

abbrev pub set_released : GoalAuthorityRow → GoalAuthorityRow
set_released row = record row { status = free_status row.authority.kind; execution_key = none }

-- `verify_row` is `_verify_goal_authority_row`: the proof of the row is signed, and says what the row says.
module _ (verify_row : GoalAuthorityRow → GoalResult (Unit {0})) where
  unfoldable pub reserve_authority : AuthorityRequest → ℕ → GoalState → GoalResult GoalState
  unfolding is_usable
  reserve_authority r now s = elim (first_row (is_authority r.authority_id) s.authorities) [
    | none ↦ rejected "AUTHORITY_INVALID"
    | some row ↦
        verify_row row
        >> check "AUTHORITY_INVALID" (is_usable r now row)
        >> check "AUTHORITY_INVALID" (
            nat_eq
              (count_rows (is_free r.authority_id (free_status row.authority.kind)) s.authorities)
              1)
        >> ok (record s {
          authorities =
              update_rows (is_free r.authority_id (free_status row.authority.kind))
                (set_held r.execution_key) s.authorities;
        })
  ]

-- The row that is read is the one that is written.
unfoldable pub finish_authority : String → String → GoalState → GoalResult GoalState
finish_authority id key s = elim (first_row (is_held id key) s.authorities) [
  | none ↦ rejected "AUTHORITY_INVALID"
  | some row ↦
      ok (record s { authorities = update_rows (is_held id key) set_charged s.authorities })
]

unfoldable pub release_authority : String → String → GoalState → GoalState
release_authority id key s = record s {
  authorities = update_rows (is_held id key) set_released s.authorities;
}
