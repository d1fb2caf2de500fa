-- ===== src/Goals/Laws.antt =====
-- A property that the statements of src/mox_adv/goal_store.py keep, and what follows for a method.
pub mod Authorities
pub mod Begin
pub mod Complete
pub mod Abort
pub mod Candidates
pub mod Runs
use mox_adv.Prelude.{
  ℕ, String, ◌≡◌, refl, ap, ◌∙◌, ◌&&◌, Bool, true, false, not, Option, none, some, List, [], ◌∷◌,
  ◌==◌, if◌then◌else◌, Option-cases, inl, inr, nat_eq, leb,
}
use mox_adv.Table.{first_row, any_row, count_rows, update_rows}
use mox_adv.Goals.{
  AuthorityKind, goal_authoring, site_publish, ReservationRow, CreationReservation, GoalAuthority,
  AuthorityProof, GoalAuthorityRow, GoalExecutionRecord, SignatureClaim, GoalCandidateRecord,
  GoalCandidateStatus, GoalTechnicalStatus, SitePublication, CleanupProgress, GoalState,
}
use mox_adv.Goals.Authorities.{
  AuthorityRequest, same_reservation, same_authority, same_proof, is_reservation, is_authority,
  is_usable, is_free, free_status, set_held, is_held, set_charged, set_released,
  register_reservation, register_authority, reserve_authority, finish_authority, release_authority,
}
use mox_adv.Goals.Candidates.{
  is_rejected_row, is_cleaned, set_completed, is_undecided_id, is_gateable, update_candidate,
  set_technical_status, set_semantic_status, set_optimization_gate, begin_cleanup, finish_cleanup,
  mark_cleanup_publication_rolled_back, mark_cleanup_goal_deleted, is_cleanup,
}
use mox_adv.Goals.Creation.{
  has_key, is_in_flight, is_in_flight_key, ExecutionPlan, new_execution, ReservationRequest, claim,
  take_reservation, insert_creation, begin_goal_creation, begin_site_publication,
  require_reconcilable, has_claim_key, is_candidate, is_available_id, is_reserved_for, set_used,
  same_goal, insert_candidate, use_reservation, apply_execution, complete_goal_creation,
  insert_publication, complete_site_publication, set_unknown, mark_unknown, free_reservation,
  abort_before_write,
}
use mox_adv.Goals.State.{
  GoalResult, ok, rejected, raises, check, Method, after, delete_rows, ◌>>=◌, ◌>>◌,
}
use mox_adv.Goals.Trace.{
  Call, registering_reservation, registering_authority, beginning_creation, beginning_publication,
  completing_creation, completing_publication, marking_unknown, aborting, setting_technical_status,
  setting_semantic_status, setting_gate, beginning_cleanup, rolling_back, deleting_goal,
  finishing_cleanup, step, run,
}

-- A result that is `ok` has a property.
abbrev pub Holds : {A : Type 0} → (A → Type 0) → GoalResult A → Type 0
Holds Q (ok a) = Q a
Holds Q (rejected code) = Unit
Holds Q raises = Unit

pub bind-Holds :
    {A B : Type 0} (Q : A → Type 0) (R : B → Type 0) (r : GoalResult A) (f : A → GoalResult B)
    → Holds Q r
    → ((a : A) → Q a → Holds R (f a))
    → Holds R (r >>= f)
bind-Holds Q R (ok a) f h k = k a h
bind-Holds Q R (rejected code) f h k = tt
bind-Holds Q R raises f h k = tt

-- A step that gives nothing to prove.
pub skip-Holds :
    {A B : Type 0} (R : B → Type 0) (r : GoalResult A) (f : A → GoalResult B)
    → ((a : A) → Holds R (f a))
    → Holds R (r >>= f)
skip-Holds R (ok a) f k = k a
skip-Holds R (rejected code) f k = tt
skip-Holds R raises f k = tt

pub check-Holds :
    {B : Type 0} (R : B → Type 0) (code : String) (b : Bool) (f : Unit {0} → GoalResult B)
    → (b ≡ true → Holds R (f tt))
    → Holds R (check code b >>= f)
check-Holds R code true f k = k refl
check-Holds R code false f k = tt

pub committed-holds :
    {A : Type 0} (P : GoalState → Type 0) (s : GoalState) (r : GoalResult (A × GoalState))
    → P s
    → Holds (λ outcome. P outcome.1) r
    → P (after (λ _. r) s)
committed-holds P s (ok (a, t)) p h = h
committed-holds P s (rejected code) p h = p
committed-holds P s raises p h = p

pub if-Holds :
    {A : Type 0} (Q : A → Type 0) (b : Bool) (x y : GoalResult A)
    → (b ≡ true → Holds Q x)
    → (b ≡ false → Holds Q y)
    → Holds Q (if b then x else y)
if-Holds Q true x y h k = h refl
if-Holds Q false x y h k = k refl

pub after-Holds :
    {A : Type 0} (P : GoalState → Type 0) (m : Method A) (s : GoalState)
    → P s
    → Holds (λ outcome. P outcome.1) (m s)
    → P (after m s)
after-Holds P m s p h = committed-holds P s (m s) p h

last-true : (a b c : Bool) → (a && (b && c)) ≡ true → c ≡ true
last-true true true c h = h
last-true true false c h = cc
last-true false b c h = cc

-- A property that every statement keeps.
pub record StatementLaws (P : GoalState → Type 0) : Type 0 where
  pub registering :
      (a : GoalAuthority) (proof : AuthorityProof) (s : GoalState)
      → leb 1 a.action_quota ≡ true
      → P s
      → P (record s {
        authorities =
            record {
              authority = a;
              proof = proof;
              status = free_status a.kind;
              actions_used = 0;
              execution_key = none;
            }
            ∷ s.authorities;
      })
  pub holding :
      (id key : String) (kind : AuthorityKind) (s : GoalState)
      → P s
      → P (record s {
        authorities = update_rows (is_free id (free_status kind)) (set_held key) s.authorities;
      })
  pub charging :
      (id key : String) (s : GoalState)
      → P s
      → P (record s { authorities = update_rows (is_held id key) set_charged s.authorities })
  pub releasing :
      (id key : String) (s : GoalState)
      → P s
      → P (record s { authorities = update_rows (is_held id key) set_released s.authorities })
  pub starting :
      (plan : ExecutionPlan) (now : ℕ) (s : GoalState)
      → first_row (has_key plan.execution_key) s.executions ≡ none
      → P s
      → P (record s { executions = new_execution plan now ∷ s.executions })
  pub applying :
      (key external : String) (now : ℕ) (s : GoalState)
      → P s
      → P (apply_execution key external now s)
  pub losing :
      (key detail : String) (now : ℕ) (s : GoalState)
      → P s
      → P (record s {
        executions = update_rows (is_in_flight_key key) (set_unknown detail now) s.executions;
      })
  pub deleting :
      (key : String) (row : GoalExecutionRecord) (s : GoalState)
      → first_row (has_key key) s.executions ≡ some row
      → is_in_flight row.status ≡ true
      → P s
      → P (record s { executions = delete_rows (has_key key) s.executions })
  pub creating :
      (c : GoalCandidateRecord) (s : GoalState)
      → first_row (is_candidate c.candidate_id) s.candidates ≡ none
      → P s
      → P (record s { candidates = c ∷ s.candidates })
  pub checking :
      (id : String) (status : GoalTechnicalStatus) (s : GoalState)
      → P s
      → P (record s {
        candidates =
            update_rows
              (is_undecided_id id)
              (λ row. record row { technical_status = status })
              s.candidates;
      })
  pub deciding :
      (id reviewer : String) (status : GoalCandidateStatus) (s : GoalState)
      → P s
      → P (record s {
        candidates =
            update_rows
              (is_undecided_id id)
              (λ row. record row { status = status; semantic_reviewer = some reviewer })
              s.candidates;
      })
  pub gating :
      (id : String) (passed : Bool) (s : GoalState)
      → P s
      → P (record s {
        candidates =
            update_rows
              (is_gateable id)
              (λ row. record row { optimization_gate_passed = passed })
              s.candidates;
      })
  pub sharing :
      (reservations : List ReservationRow) (claims : List SignatureClaim)
      (publications : List SitePublication) (cleanups : List CleanupProgress) (s : GoalState)
      → P s
      → P (record s {
        reservations = reservations;
        claims = claims;
        publications = publications;
        cleanups = cleanups;
      })

abbrev pub Left : (GoalState → Type 0) → {A : Type 0} → A × GoalState → Type 0
Left P outcome = P outcome.1

-- A method keeps the property.
abbrev pub Leaves : (GoalState → Type 0) → {A : Type 0} → GoalResult (A × GoalState) → Type 0
Leaves P r = Holds (Left P) r
