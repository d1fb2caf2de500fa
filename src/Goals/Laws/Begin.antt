-- ===== src/Goals/Laws/Begin.antt =====
-- That `begin_goal_creation` and `begin_site_publication` of src/mox_adv/goal_store.py keep a property.
use mox_adv.Prelude.{ℕ, String, ap, ◌∙◌, not, ◌∷◌, ◌==◌, Option-cases, inl, inr, nat_eq}
use mox_adv.Table.{first_row, any_row, count_rows}
use mox_adv.Goals.{GoalAuthorityRow, GoalState}
use mox_adv.Goals.Authorities.{AuthorityRequest, reserve_authority}
use mox_adv.Goals.Creation.{
  has_key, ExecutionPlan, new_execution, ReservationRequest, claim, take_reservation,
  insert_creation, begin_goal_creation, begin_site_publication, is_available_id,
}
use mox_adv.Goals.State.{GoalResult, check}
use mox_adv.Goals.Laws.{bind-Holds, skip-Holds, if-Holds, StatementLaws, Left, Leaves}
use mox_adv.Goals.Laws.Authorities.{Same, reserve_authority-Holds}

module _ (verify_row : GoalAuthorityRow → GoalResult (Unit {0})) (P : GoalState → Type 0)
    (laws : StatementLaws P) where
  pub begin_goal_creation-Leaves :
      (a : AuthorityRequest) (r : ReservationRequest) (plan : ExecutionPlan) (signature : String)
      (now : ℕ) (s : GoalState)
      → P s
      → Leaves P (begin_goal_creation verify_row a r plan signature now s)
  unfolding begin_goal_creation insert_creation
  begin_goal_creation-Leaves a r plan signature now s p =
      elim (Option-cases (first_row (has_key plan.execution_key) s.executions)) [
        | inr (row, e) ↦
            rw (begin_goal_creation, e)
              (if-Holds _ (row.plan_hash == plan.plan_hash) _ _ (λ _. p) (λ _. tt))
        | inl e ↦
            rw (begin_goal_creation, e)
              (bind-Holds (Same P s) (Left P) (reserve_authority verify_row a now s) _
                (reserve_authority-Holds verify_row P laws a now s p)
                λ t (q, same). skip-Holds (Left P) (take_reservation r plan now t) _ λ _.
                  skip-Holds (Left P) (claim signature plan t) _ λ _.
                    skip-Holds (Left P)
                      (check "CREATION_RESERVATION_INVALID"
                        (nat_eq (count_rows (is_available_id r.reservation_id) t.reservations) 1))
                      _
                      λ _.
                        laws.sharing _ _ t.publications t.cleanups
                          (record t { executions = new_execution plan now ∷ t.executions })
                          (laws.starting plan now t
                            (ap (first_row (has_key plan.execution_key)) same ∙ e) q))
      ]

  pub begin_site_publication-Leaves :
      (a : AuthorityRequest) (plan : ExecutionPlan) (now : ℕ) (s : GoalState)
      → P s
      → Leaves P (begin_site_publication verify_row a plan now s)
  unfolding begin_site_publication
  begin_site_publication-Leaves a plan now s p =
      elim (Option-cases (first_row (has_key plan.execution_key) s.executions)) [
        | inr (row, e) ↦
            rw (begin_site_publication, e)
              (if-Holds _ (row.plan_hash == plan.plan_hash) _ _ (λ _. p) (λ _. tt))
        | inl e ↦
            rw (begin_site_publication, e)
              (skip-Holds (Left P)
                (check "SITE_EVENT_ALREADY_PUBLISHED"
                  (not (any_row (λ q. q.candidate_id == plan.candidate_id) s.publications)))
                _
                λ _.
                  bind-Holds (Same P s) (Left P) (reserve_authority verify_row a now s) _
                    (reserve_authority-Holds verify_row P laws a now s p)
                    λ t (q, same).
                      laws.starting plan now t
                        (ap (first_row (has_key plan.execution_key)) same ∙ e) q)
      ]
