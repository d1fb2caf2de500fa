-- ===== src/Goals/Laws/Runs.antt =====
-- What the statements of src/mox_adv/goal_store.py keep, any sequence of its calls keeps.
use mox_adv.Prelude.{List, [], ◌∷◌}
use mox_adv.Goals.{GoalAuthorityRow, GoalState}
use mox_adv.Goals.Authorities.{register_reservation, register_authority}
use mox_adv.Goals.Candidates.{
  is_undecided_id, is_gateable, set_technical_status, set_semantic_status, set_optimization_gate,
  begin_cleanup, finish_cleanup, mark_cleanup_publication_rolled_back, mark_cleanup_goal_deleted,
}
use mox_adv.Goals.Creation.{
  begin_goal_creation, begin_site_publication, complete_goal_creation, complete_site_publication,
  mark_unknown, abort_before_write,
}
use mox_adv.Goals.State.{GoalResult}
use mox_adv.Goals.Trace.{
  Call, registering_reservation, registering_authority, beginning_creation, beginning_publication,
  completing_creation, completing_publication, marking_unknown, aborting, setting_technical_status,
  setting_semantic_status, setting_gate, beginning_cleanup, rolling_back, deleting_goal,
  finishing_cleanup, step, run,
}
use mox_adv.Goals.Laws.{after-Holds, StatementLaws}
use mox_adv.Goals.Laws.Authorities.{register_reservation-Leaves, register_authority-Leaves}
use mox_adv.Goals.Laws.Begin.{begin_goal_creation-Leaves, begin_site_publication-Leaves}
use mox_adv.Goals.Laws.Complete.{
  complete_goal_creation-Leaves, complete_site_publication-Leaves, mark_unknown-Leaves,
}
use mox_adv.Goals.Laws.Abort.{abort_before_write-Leaves}
use mox_adv.Goals.Laws.Candidates.{
  update_candidate-Leaves, begin_cleanup-Leaves, finish_cleanup-Leaves,
}

module _ (verify_row : GoalAuthorityRow → GoalResult (Unit {0})) (P : GoalState → Type 0)
    (laws : StatementLaws P) where
  step-kept : (call : Call) (s : GoalState) → P s → P (step verify_row call s)
  unfolding step set_technical_status set_semantic_status set_optimization_gate
      mark_cleanup_publication_rolled_back mark_cleanup_goal_deleted
  step-kept (registering_reservation r) s p =
      after-Holds P (register_reservation r) s p (register_reservation-Leaves P laws r s p)
  step-kept (registering_authority a proof) s p =
      after-Holds P (register_authority a proof) s p (register_authority-Leaves P laws a proof s p)
  step-kept (beginning_creation a r plan signature now) s p =
      after-Holds P (begin_goal_creation verify_row a r plan signature now) s p
        (begin_goal_creation-Leaves verify_row P laws a r plan signature now s p)
  step-kept (beginning_publication a plan now) s p =
      after-Holds P (begin_site_publication verify_row a plan now) s p
        (begin_site_publication-Leaves verify_row P laws a plan now s p)
  step-kept (completing_creation key c authority reservation now) s p =
      after-Holds P (complete_goal_creation key c authority reservation now) s p
        (complete_goal_creation-Leaves P laws key c authority reservation now s p)
  step-kept (completing_publication key q authority now) s p =
      after-Holds P (complete_site_publication key q authority now) s p
        (complete_site_publication-Leaves P laws key q authority now s p)
  step-kept (marking_unknown key detail now) s p =
      after-Holds P (mark_unknown key detail now) s p
        (mark_unknown-Leaves P laws key detail now s p)
  step-kept (aborting key authority reservation) s p =
      after-Holds P (abort_before_write key authority reservation) s p
        (abort_before_write-Leaves P laws key authority reservation s p)
  step-kept (setting_technical_status id status) s p =
      after-Holds P (set_technical_status id status) s p (
        update_candidate-Leaves P laws "GOAL_CANDIDATE_NOT_VERIFIABLE" (is_undecided_id id) _ s
          (laws.checking id status s p))
  step-kept (setting_semantic_status id status reviewer) s p =
      after-Holds P (set_semantic_status id status reviewer) s p (
        update_candidate-Leaves P laws "SEMANTIC_DECISION_NOT_ALLOWED" (is_undecided_id id) _ s
          (laws.deciding id reviewer status s p))
  step-kept (setting_gate id passed) s p = after-Holds P (set_optimization_gate id passed) s p (
      update_candidate-Leaves P laws "OPTIMIZATION_GATE_NOT_APPLICABLE" (is_gateable id) _ s
        (laws.gating id passed s p))
  step-kept (beginning_cleanup id) s p =
      after-Holds P (begin_cleanup id) s p (begin_cleanup-Leaves P laws id s p)
  step-kept (rolling_back id) s p = laws.sharing s.reservations s.claims s.publications _ s p
  step-kept (deleting_goal id) s p = laws.sharing s.reservations s.claims s.publications _ s p
  step-kept (finishing_cleanup id key now) s p =
      after-Holds P (finish_cleanup id key now) s p (finish_cleanup-Leaves P laws id key now s p)

  -- What every statement keeps, every sequence of calls keeps.
  pub run-kept : (calls : List Call) (s : GoalState) → P s → P (run verify_row calls s)
  unfolding run
  run-kept [] s p = p
  run-kept (call ∷ calls) s p = run-kept calls (step verify_row call s) (step-kept call s p)
