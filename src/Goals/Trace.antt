-- ===== src/Goals/Trace.antt =====
-- src/mox_adv/goal_store.py under any sequence of calls.
use mox_adv.Prelude.{ℕ, String, Bool, Option, List, [], ◌∷◌}
use mox_adv.Goals.{
  CreationReservation, GoalAuthority, AuthorityProof, GoalAuthorityRow, GoalTechnicalStatus,
  GoalCandidateStatus, GoalCandidateRecord, SitePublication, GoalState,
}
use mox_adv.Goals.Authorities.{AuthorityRequest, register_reservation, register_authority}
use mox_adv.Goals.Candidates.{
  set_technical_status, set_semantic_status, set_optimization_gate, begin_cleanup, finish_cleanup,
  mark_cleanup_publication_rolled_back, mark_cleanup_goal_deleted,
}
use mox_adv.Goals.Creation.{
  ExecutionPlan, ReservationRequest, begin_goal_creation, begin_site_publication,
  complete_goal_creation, complete_site_publication, mark_unknown, abort_before_write,
}
use mox_adv.Goals.State.{GoalResult, after}

pub data Call : Type 0 where
  registering_reservation : CreationReservation → Call
  registering_authority : GoalAuthority → AuthorityProof → Call
  beginning_creation : AuthorityRequest → ReservationRequest → ExecutionPlan → String → ℕ → Call
  beginning_publication : AuthorityRequest → ExecutionPlan → ℕ → Call
  completing_creation : String → GoalCandidateRecord → String → String → ℕ → Call
  completing_publication : String → SitePublication → String → ℕ → Call
  marking_unknown : String → String → ℕ → Call
  aborting : String → String → Option String → Call
  setting_technical_status : String → GoalTechnicalStatus → Call
  setting_semantic_status : String → GoalCandidateStatus → String → Call
  setting_gate : String → Bool → Call
  beginning_cleanup rolling_back deleting_goal : String → Call
  finishing_cleanup : String → String → ℕ → Call

abbrev pub empty : GoalState
empty = record {
  reservations = [];
  authorities = [];
  executions = [];
  claims = [];
  candidates = [];
  publications = [];
  cleanups = [];
}

module _ (verify_row : GoalAuthorityRow → GoalResult (Unit {0})) where
  unfoldable pub step : Call → GoalState → GoalState
  unfolding register_reservation register_authority begin_goal_creation begin_site_publication
      complete_goal_creation complete_site_publication mark_unknown abort_before_write
      set_technical_status set_semantic_status set_optimization_gate begin_cleanup finish_cleanup
      mark_cleanup_publication_rolled_back mark_cleanup_goal_deleted
  step (registering_reservation r) s = after (register_reservation r) s
  step (registering_authority a proof) s = after (register_authority a proof) s
  step (beginning_creation a r plan signature now) s =
      after (begin_goal_creation verify_row a r plan signature now) s
  step (beginning_publication a plan now) s = after (begin_site_publication verify_row a plan now) s
  step (completing_creation key c authority reservation now) s =
      after (complete_goal_creation key c authority reservation now) s
  step (completing_publication key p authority now) s =
      after (complete_site_publication key p authority now) s
  step (marking_unknown key detail now) s = after (mark_unknown key detail now) s
  step (aborting key authority reservation) s =
      after (abort_before_write key authority reservation) s
  step (setting_technical_status id status) s = after (set_technical_status id status) s
  step (setting_semantic_status id status reviewer) s =
      after (set_semantic_status id status reviewer) s
  step (setting_gate id passed) s = after (set_optimization_gate id passed) s
  step (beginning_cleanup id) s = after (begin_cleanup id) s
  step (rolling_back id) s = after (mark_cleanup_publication_rolled_back id) s
  step (deleting_goal id) s = after (mark_cleanup_goal_deleted id) s
  step (finishing_cleanup id key now) s = after (finish_cleanup id key now) s

  unfoldable pub run : List Call → GoalState → GoalState
  unfolding step
  run [] s = s
  run (call ∷ calls) s = run calls (step call s)
