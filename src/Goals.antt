-- ===== src/Goals.antt =====
-- The store of candidate goals: src/mox_adv/goal_store.py, `GoalLifecycleStore`, with the values of
-- src/mox_adv/goal_contracts.py. The service of src/mox_adv/lifecycle_authority.py that issues and verifies
-- authorities is an interface here.
pub mod State
pub mod Authorities
pub mod Creation
pub mod Candidates
pub mod Trace
pub mod Laws
pub mod Rows
pub mod Quota
pub mod Decisions
pub mod Applied
mod Tests
use mox_adv.Prelude.{ℕ, String, Bool, Option, List}
use mox_adv.Prelude.Json.{Json}

pub data AuthorityKind : Type 0 where
  approval mandate : AuthorityKind

-- The statuses of an authority and of a reservation.
pub data HoldStatus : Type 0 where
  available active reserved used exhausted : HoldStatus

pub data GoalCandidateStatus : Type 0 where
  candidate approved rejected : GoalCandidateStatus

pub data GoalTechnicalStatus : Type 0 where
  pending verified inconclusive : GoalTechnicalStatus

pub data GoalExecutionStatus : Type 0 where
  in_flight applied failed unknown_result : GoalExecutionStatus

pub data Operation : Type 0 where
  goal_authoring site_publish : Operation

pub record ReservationRow : Type 0 where
  pub reservation_id : String
  pub status : HoldStatus
  pub scope_binding : String
  pub object_type : String
  pub proposal_id : String
  pub credential_profile : String
  pub expires_at : ℕ
  pub execution_key : Option String
  pub used_by_run : Option String

pub record CreationReservation : Type 0 where
  pub reservation_id : String
  pub scope_binding : String
  pub object_type : String
  pub proposal_id : String
  pub credential_profile : String
  pub expires_at : ℕ

pub record GoalAuthority : Type 0 where
  pub authority_id : String
  pub kind : AuthorityKind
  pub principal : String
  pub authentication : String
  pub proposal_id : String
  pub counter_id : String
  pub site_zone : String
  pub allowed_actions : List String
  pub expires_at : ℕ
  pub policy_id : String
  pub binding_hash : String
  pub action_quota : ℕ

-- What `proof` of the authority service gives.
pub record AuthorityProof : Type 0 where
  pub canonical_hash : String
  pub signature : String
  pub issued_at : String
  pub canonical_json : String

pub record GoalAuthorityRow : Type 0 where
  pub authority : GoalAuthority
  pub proof : AuthorityProof
  pub status : HoldStatus
  pub actions_used : ℕ
  pub execution_key : Option String

pub record GoalExecutionRecord : Type 0 where
  pub execution_key : String
  pub operation : Operation
  pub candidate_id : String
  pub run_id : String
  pub proposal_id : String
  pub counter_id : String
  pub plan_hash : String
  pub status : GoalExecutionStatus
  pub external_id : Option String
  pub detail : Option String
  pub created_at : ℕ
  pub updated_at : ℕ

pub record SignatureClaim : Type 0 where
  pub counter_id : String
  pub signature : String
  pub execution_key : String

pub record GoalCandidateRecord : Type 0 where
  pub candidate_id : String
  pub run_id : String
  pub proposal_id : String
  pub counter_id : String
  pub goal_id : String
  pub name : String
  pub event : String
  pub site_location : String
  pub goal_type : String
  pub business_meaning : String
  pub priority : ℕ
  pub status : GoalCandidateStatus
  pub technical_status : GoalTechnicalStatus
  pub created_at : ℕ
  pub optimization_gate_passed : Bool
  pub semantic_reviewer : Option String

pub record SitePublication : Type 0 where
  pub candidate_id : String
  pub run_id : String
  pub site_zone : String
  pub event : String
  pub selector : String
  pub previous_version : String
  pub published_version : String
  pub author : String
  pub exact_diff : Json

pub record CleanupProgress : Type 0 where
  pub candidate_id : String
  pub publication_rolled_back : Bool
  pub goal_deleted : Bool
  pub completed_at : Option ℕ

pub record GoalState : Type 0 where
  pub reservations : List ReservationRow
  pub authorities : List GoalAuthorityRow
  pub executions : List GoalExecutionRecord
  pub claims : List SignatureClaim
  pub candidates : List GoalCandidateRecord
  pub publications : List SitePublication
  pub cleanups : List CleanupProgress
