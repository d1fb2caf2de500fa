-- ===== src/Goals/Laws/Complete.antt =====
-- That the completion of an execution in src/mox_adv/goal_store.py keeps a property, and `mark_unknown`.
use mox_adv.Prelude.{ℕ, String, ◌==◌, Option-cases, inl, inr, nat_eq, leb}
use mox_adv.Table.{first_row, any_row, count_rows, update_rows}
use mox_adv.Goals.{goal_authoring, site_publish, GoalCandidateRecord, SitePublication, GoalState}
use mox_adv.Goals.Authorities.{finish_authority}
use mox_adv.Goals.Creation.{
  is_in_flight_key, require_reconcilable, is_candidate, is_reserved_for, set_used, same_goal,
  insert_candidate, use_reservation, complete_goal_creation, insert_publication,
  complete_site_publication, set_unknown, mark_unknown,
}
use mox_adv.Goals.State.{ok, check}
use mox_adv.Goals.Laws.{Holds, bind-Holds, skip-Holds, if-Holds, StatementLaws, Left, Leaves}
use mox_adv.Goals.Laws.Authorities.{finish_authority-Holds}

module _ (P : GoalState → Type 0) (laws : StatementLaws P) where
  insert_candidate-Holds :
      (c : GoalCandidateRecord) (s : GoalState) → P s → Holds P (insert_candidate c s)
  unfolding insert_candidate
  insert_candidate-Holds c s p =
      elim (Option-cases (first_row (is_candidate c.candidate_id) s.candidates)) [
        | inl e ↦
            rw (insert_candidate, e)
              (if-Holds P (any_row (same_goal c) s.candidates) _ _ (λ _. tt)
                (λ _. laws.creating c s e p))
        | inr (row, e) ↦
            rw (insert_candidate, e) (if-Holds P (row.goal_id == c.goal_id) _ _ (λ _. p) (λ _. tt))
      ]

  use_reservation-Holds :
      (id key : String) (s : GoalState) → P s → Holds P (use_reservation id key s)
  use_reservation-Holds id key s p =
      skip-Holds P
        (check "CREATION_RESERVATION_INVALID"
          (nat_eq (count_rows (is_reserved_for id key) s.reservations) 1))
        (λ _. ok (record s {
          reservations = update_rows (is_reserved_for id key) set_used s.reservations;
        }))
        λ _. laws.sharing _ s.claims s.publications s.cleanups s p

  pub complete_goal_creation-Leaves :
      (key : String) (c : GoalCandidateRecord) (authority reservation : String) (now : ℕ)
      (s : GoalState)
      → P s
      → Leaves P (complete_goal_creation key c authority reservation now s)
  unfolding complete_goal_creation
  complete_goal_creation-Leaves key c authority reservation now s p =
      skip-Holds (Left P) (require_reconcilable key goal_authoring s) _ λ row.
        bind-Holds P (Left P) (insert_candidate c s) _ (insert_candidate-Holds c s p) λ t q.
          bind-Holds P (Left P) (finish_authority authority key t) _
            (finish_authority-Holds P laws authority key t q)
            λ u v.
              bind-Holds P (Left P) (use_reservation reservation key u) _
                (use_reservation-Holds reservation key u v)
                λ w x.
                  skip-Holds (Left P)
                    (check "CREATED_TARGET_CONFLICT" (row.candidate_id == c.candidate_id)) _
                    λ _. laws.applying key c.goal_id now w x

  insert_publication-Holds :
      (q : SitePublication) (s : GoalState) → P s → Holds P (insert_publication q s)
  unfolding insert_publication
  insert_publication-Holds q s p =
      elim (Option-cases (first_row (λ o. o.candidate_id == q.candidate_id) s.publications)) [
        | inl e ↦ rw (insert_publication, e) (laws.sharing s.reservations s.claims _ s.cleanups s p)
        | inr (row, e) ↦
            rw (insert_publication, e)
              (if-Holds P (row.published_version == q.published_version) _ _ (λ _. p) (λ _. tt))
      ]

  pub complete_site_publication-Leaves :
      (key : String) (q : SitePublication) (authority : String) (now : ℕ) (s : GoalState)
      → P s
      → Leaves P (complete_site_publication key q authority now s)
  unfolding complete_site_publication
  complete_site_publication-Leaves key q authority now s p =
      skip-Holds (Left P) (require_reconcilable key site_publish s) _ λ row.
        bind-Holds P (Left P) (insert_publication q s) _ (insert_publication-Holds q s p) λ t r.
          bind-Holds P (Left P) (finish_authority authority key t) _
            (finish_authority-Holds P laws authority key t r)
            λ u v.
              skip-Holds (Left P)
                (check "CREATED_TARGET_CONFLICT" (row.candidate_id == q.candidate_id)) _
                λ _. laws.applying key q.published_version now u v

  pub mark_unknown-Leaves :
      (key detail : String) (now : ℕ) (s : GoalState)
      → P s
      → Leaves P (mark_unknown key detail now s)
  unfolding mark_unknown
  mark_unknown-Leaves key detail now s p =
      skip-Holds (Left P)
        (check "EXECUTION_STATE_INVALID" (leb (count_rows (is_in_flight_key key) s.executions) 1))
        (λ _. ok (
          tt,
          record s {
            executions = update_rows (is_in_flight_key key) (set_unknown detail now) s.executions;
          },
        ))
        λ _. laws.losing key detail now s p
