-- ===== src/Goals/Creation.antt =====
-- The executions of src/mox_adv/goal_store.py: begun, completed, unknown, aborted.
use mox_adv.Prelude.{
  ℕ, String, Bool, true, false, not, ◌&&◌, ◌||◌, Option, none, some, ◌∷◌, ◌==◌, ltb, leb, nat_eq,
  holds_text, if◌then◌else◌,
}
use mox_adv.Table.{first_row, any_row, count_rows, update_rows}
use mox_adv.Goals.{
  available, reserved, used, GoalExecutionStatus, in_flight, applied, unknown_result, Operation,
  goal_authoring, site_publish, ReservationRow, GoalAuthorityRow, GoalExecutionRecord,
  SignatureClaim, GoalCandidateRecord, SitePublication, GoalState,
}
use mox_adv.Goals.Authorities.{
  AuthorityRequest, is_reservation, status_eq, reserve_authority, finish_authority,
  release_authority,
}
use mox_adv.Goals.State.{GoalResult, ok, rejected, raises, check, Method, delete_rows, ◌>>=◌, ◌>>◌}

abbrev pub has_key : String → GoalExecutionRecord → Bool
has_key key row = row.execution_key == key

abbrev pub is_in_flight : GoalExecutionStatus → Bool
is_in_flight in_flight = true
is_in_flight _ = false

-- status IN ('IN_FLIGHT', 'UNKNOWN_RESULT')
abbrev pub is_open : GoalExecutionStatus → Bool
is_open in_flight = true
is_open unknown_result = true
is_open _ = false

abbrev pub is_open_key : String → GoalExecutionRecord → Bool
is_open_key key row = row.execution_key == key && is_open row.status

abbrev pub is_in_flight_key : String → GoalExecutionRecord → Bool
is_in_flight_key key row = row.execution_key == key && is_in_flight row.status

abbrev operation_eq : Operation → Operation → Bool
operation_eq goal_authoring goal_authoring = true
operation_eq site_publish site_publish = true
operation_eq _ _ = false

pub record BeginExecution : Type 0 where
  pub started : GoalExecutionRecord
  pub newly_started : Bool

-- What the two methods insert.
pub record ExecutionPlan : Type 0 where
  pub execution_key : String
  pub operation : Operation
  pub candidate_id : String
  pub run_id : String
  pub proposal_id : String
  pub counter_id : String
  pub plan_hash : String

abbrev pub new_execution : ExecutionPlan → ℕ → GoalExecutionRecord
new_execution plan now = record {
  execution_key = plan.execution_key;
  operation = plan.operation;
  candidate_id = plan.candidate_id;
  run_id = plan.run_id;
  proposal_id = plan.proposal_id;
  counter_id = plan.counter_id;
  plan_hash = plan.plan_hash;
  status = in_flight;
  external_id = none;
  detail = none;
  created_at = now;
  updated_at = now;
}

-- The reservation that a creation needs.
pub record ReservationRequest : Type 0 where
  pub reservation_id : String
  pub scope_binding : String
  pub credential_profile : String

unfoldable pub is_reservable : ReservationRequest → ExecutionPlan → ℕ → ReservationRow → Bool
is_reservable r plan now row =
    status_eq row.status available
    && (row.scope_binding == r.scope_binding
        && (row.object_type == "METRIKA_GOAL"
            && (row.proposal_id == plan.proposal_id
                && (row.credential_profile == r.credential_profile && ltb now row.expires_at))))

abbrev pub is_available_id : String → ReservationRow → Bool
is_available_id id row = row.reservation_id == id && status_eq row.status available

abbrev pub set_reserved : String → String → ReservationRow → ReservationRow
set_reserved key run row = record row {
  status = reserved;
  execution_key = some key;
  used_by_run = some run;
}

-- PRIMARY KEY(counter_id, signature), execution_key UNIQUE
abbrev pub is_claimed : String → String → String → SignatureClaim → Bool
is_claimed counter signature key row =
    row.counter_id == counter && row.signature == signature || row.execution_key == key

-- An execution that is there already is returned, if its plan is the same.
abbrev pub replay : String → GoalExecutionRecord → Method BeginExecution
replay plan_hash row s =
    if row.plan_hash == plan_hash
    then ok (record { started = row; newly_started = false }, s)
    else rejected "EXECUTION_PLAN_CHANGED"

unfoldable pub take_reservation :
    ReservationRequest → ExecutionPlan → ℕ → GoalState → GoalResult (Unit {0})
unfolding is_reservable
take_reservation r plan now s = elim (first_row (is_reservation r.reservation_id) s.reservations) [
  | none ↦ rejected "CREATION_RESERVATION_INVALID"
  | some row ↦ check "CREATION_RESERVATION_INVALID" (is_reservable r plan now row)
]

abbrev pub claim : String → ExecutionPlan → GoalState → GoalResult (Unit {0})
claim signature plan s =
    check "DUPLICATE_GOAL_CANDIDATE"
      (not (any_row (is_claimed plan.counter_id signature plan.execution_key) s.claims))

unfoldable pub insert_creation :
    ReservationRequest → ExecutionPlan → String → ℕ → GoalState → GoalState
insert_creation r plan signature now s = record s {
  executions = new_execution plan now ∷ s.executions;
  claims =
      record {
        counter_id = plan.counter_id;
        signature = signature;
        execution_key = plan.execution_key;
      }
      ∷ s.claims;
  reservations =
      update_rows (is_available_id r.reservation_id) (set_reserved plan.execution_key plan.run_id)
        s.reservations;
}

module _ (verify_row : GoalAuthorityRow → GoalResult (Unit {0})) where
  unfoldable pub begin_goal_creation :
      AuthorityRequest → ReservationRequest → ExecutionPlan → String → ℕ → Method BeginExecution
  unfolding reserve_authority take_reservation insert_creation
  begin_goal_creation a r plan signature now s =
      elim (first_row (has_key plan.execution_key) s.executions) [
        | some row ↦ replay plan.plan_hash row s
        | none ↦ reserve_authority verify_row a now s >>= λ t.
            take_reservation r plan now t >>= λ _. claim signature plan t >>= λ _.
            check "CREATION_RESERVATION_INVALID"
              (nat_eq (count_rows (is_available_id r.reservation_id) t.reservations) 1)
            >>= λ _. ok (
              record { started = new_execution plan now; newly_started = true },
              insert_creation r plan signature now t,
            )
      ]

  unfoldable pub begin_site_publication :
      AuthorityRequest → ExecutionPlan → ℕ → Method BeginExecution
  unfolding reserve_authority
  begin_site_publication a plan now s = elim (first_row (has_key plan.execution_key) s.executions) [
    | some row ↦ replay plan.plan_hash row s
    | none ↦
        check "SITE_EVENT_ALREADY_PUBLISHED"
          (not (any_row (λ p. p.candidate_id == plan.candidate_id) s.publications))
        >>= λ _. reserve_authority verify_row a now s >>= λ t. ok (
          record { started = new_execution plan now; newly_started = true },
          record t { executions = new_execution plan now ∷ t.executions },
        )
  ]

-- `_require_reconcilable_execution`
unfoldable pub require_reconcilable :
    String → Operation → GoalState → GoalResult GoalExecutionRecord
require_reconcilable key operation s = elim (first_row (has_key key) s.executions) [
  | none ↦ rejected "EXECUTION_NOT_RECONCILABLE"
  | some row ↦
      if operation_eq row.operation operation && is_open row.status
      then ok row
      else rejected "EXECUTION_NOT_RECONCILABLE"
]

abbrev pub set_applied : String → ℕ → GoalExecutionRecord → GoalExecutionRecord
set_applied external now row = record row {
  status = applied;
  external_id = some external;
  updated_at = now;
}

abbrev pub is_reserved_for : String → String → ReservationRow → Bool
is_reserved_for id key row =
    row.reservation_id == id && (status_eq row.status reserved && holds_text row.execution_key key)

abbrev pub set_used : ReservationRow → ReservationRow
set_used row = record row { status = used }

abbrev pub is_candidate : String → GoalCandidateRecord → Bool
is_candidate id row = row.candidate_id == id

-- UNIQUE(counter_id, goal_id)
abbrev pub same_goal : GoalCandidateRecord → GoalCandidateRecord → Bool
same_goal c row = row.counter_id == c.counter_id && row.goal_id == c.goal_id

unfoldable pub insert_candidate : GoalCandidateRecord → GoalState → GoalResult GoalState
insert_candidate c s = elim (first_row (is_candidate c.candidate_id) s.candidates) [
  | none ↦
      if any_row (same_goal c) s.candidates
      then raises
      else ok (record s { candidates = c ∷ s.candidates })
  | some row ↦ if row.goal_id == c.goal_id then ok s else rejected "CREATED_TARGET_CONFLICT"
]

abbrev pub use_reservation : String → String → GoalState → GoalResult GoalState
use_reservation id key s =
    check "CREATION_RESERVATION_INVALID"
      (nat_eq (count_rows (is_reserved_for id key) s.reservations) 1)
    >> ok (record s { reservations = update_rows (is_reserved_for id key) set_used s.reservations })

abbrev pub apply_execution : String → String → ℕ → GoalState → GoalState
apply_execution key external now s = record s {
  executions = update_rows (is_open_key key) (set_applied external now) s.executions;
}

unfoldable pub load_candidate : String → GoalState → GoalResult GoalCandidateRecord
load_candidate id s = elim (first_row (is_candidate id) s.candidates) [
  | none ↦ rejected "GOAL_CANDIDATE_NOT_FOUND"
  | some row ↦ ok row
]

unfoldable pub complete_goal_creation :
    String → GoalCandidateRecord → String → String → ℕ → Method (Unit {0})
unfolding require_reconcilable insert_candidate finish_authority
complete_goal_creation key c authority_id reservation_id now s =
    require_reconcilable key goal_authoring s >>= λ row. insert_candidate c s >>= λ t.
    finish_authority authority_id key t >>= λ u. use_reservation reservation_id key u >>= λ v.
    check "CREATED_TARGET_CONFLICT" (row.candidate_id == c.candidate_id) >>= λ _.
    ok (tt, apply_execution key c.goal_id now v)

unfoldable pub load_publication : String → GoalState → GoalResult SitePublication
load_publication id s = elim (first_row (λ p. p.candidate_id == id) s.publications) [
  | none ↦ rejected "SITE_EVENT_NOT_PUBLISHED"
  | some row ↦ ok row
]

unfoldable pub insert_publication : SitePublication → GoalState → GoalResult GoalState
insert_publication p s = elim (first_row (λ q. q.candidate_id == p.candidate_id) s.publications) [
  | none ↦ ok (record s { publications = p ∷ s.publications })
  | some row ↦
      if row.published_version == p.published_version
      then ok s
      else rejected "CREATED_TARGET_CONFLICT"
]

unfoldable pub complete_site_publication : String → SitePublication → String → ℕ → Method (Unit {0})
unfolding require_reconcilable insert_publication finish_authority
complete_site_publication key p authority_id now s =
    require_reconcilable key site_publish s >>= λ row. insert_publication p s >>= λ t.
    finish_authority authority_id key t >>= λ u.
    check "CREATED_TARGET_CONFLICT" (row.candidate_id == p.candidate_id) >>= λ _.
    ok (tt, apply_execution key p.published_version now u)

abbrev pub set_unknown : String → ℕ → GoalExecutionRecord → GoalExecutionRecord
set_unknown detail now row = record row {
  status = unknown_result;
  detail = some detail;
  updated_at = now;
}

unfoldable pub mark_unknown : String → String → ℕ → Method (Unit {0})
mark_unknown key detail now s =
    check "EXECUTION_STATE_INVALID" (leb (count_rows (is_in_flight_key key) s.executions) 1)
    >> ok (
      tt,
      record s {
        executions = update_rows (is_in_flight_key key) (set_unknown detail now) s.executions;
      },
    )

abbrev set_available : ReservationRow → ReservationRow
set_available row = record row { status = available; execution_key = none; used_by_run = none }

abbrev pub free_reservation : Option String → String → GoalState → GoalState
free_reservation none key s = s
free_reservation (some id) key s = record s {
  reservations = update_rows (is_reserved_for id key) set_available s.reservations;
}

abbrev pub has_claim_key : String → SignatureClaim → Bool
has_claim_key key row = row.execution_key == key

unfoldable pub abort_before_write : String → String → Option String → Method (Unit {0})
unfolding release_authority
abort_before_write key authority_id reservation_id s = elim (first_row (has_key key) s.executions) [
  | none ↦ ok (tt, s)
  | some row ↦
      if is_in_flight row.status
      then (let t = free_reservation reservation_id key (release_authority authority_id key s) in
          ok (
            tt,
            record t {
              claims = delete_rows (has_claim_key key) t.claims;
              executions = delete_rows (has_key key) t.executions;
            },
          ))
      else ok (tt, s)
]

unfoldable pub load_execution : String → GoalState → GoalResult GoalExecutionRecord
load_execution key s = elim (first_row (has_key key) s.executions) [
  | none ↦ rejected "EXECUTION_NOT_FOUND"
  | some row ↦ ok row
]
