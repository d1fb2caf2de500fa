-- ===== src/Goals/Laws/Candidates.antt =====
-- That the statements on candidates and cleanups of src/mox_adv/goal_store.py keep a property.
use mox_adv.Prelude.{ℕ, String, Bool, ◌==◌, Option-cases, inl, inr, nat_eq}
use mox_adv.Table.{first_row, count_rows, update_rows}
use mox_adv.Goals.{GoalCandidateRecord, GoalState}
use mox_adv.Goals.Candidates.{
  is_rejected_row, is_cleaned, set_completed, update_candidate, begin_cleanup, finish_cleanup,
  is_cleanup,
}
use mox_adv.Goals.Creation.{has_claim_key, is_candidate}
use mox_adv.Goals.State.{ok, check, delete_rows, ◌>>◌}
use mox_adv.Goals.Laws.{skip-Holds, StatementLaws, Left, Leaves}

module _ (P : GoalState → Type 0) (laws : StatementLaws P) where
  -- The UPDATE of a candidate keeps it, if its statement does.
  pub update_candidate-Leaves :
      (code : String) (p : GoalCandidateRecord → Bool)
      (f : GoalCandidateRecord → GoalCandidateRecord) (s : GoalState)
      → P (record s { candidates = update_rows p f s.candidates })
      → Leaves P (update_candidate code p f s)
  unfolding update_candidate
  update_candidate-Leaves code p f s q =
      skip-Holds (Left P) (check code (nat_eq (count_rows p s.candidates) 1))
        (λ _. ok (tt, record s { candidates = update_rows p f s.candidates })) λ _. q

  pub begin_cleanup-Leaves : (id : String) (s : GoalState) → P s → Leaves P (begin_cleanup id s)
  unfolding begin_cleanup
  begin_cleanup-Leaves id s p = elim (Option-cases (first_row (is_cleanup id) s.cleanups)) [
    | inl e ↦ rw (begin_cleanup, e) (laws.sharing s.reservations s.claims s.publications _ s p)
    | inr (row, e) ↦ rw (begin_cleanup, e) p
  ]

  pub finish_cleanup-Leaves :
      (id key : String) (now : ℕ) (s : GoalState) → P s → Leaves P (finish_cleanup id key now s)
  unfolding finish_cleanup
  finish_cleanup-Leaves id key now s p =
      skip-Holds (Left P)
        (check "ONLY_REJECTED_CANDIDATE_CAN_BE_CLEANED"
            (is_rejected_row (first_row (is_candidate id) s.candidates))
          >> check "CLEANUP_INCOMPLETE" (is_cleaned (first_row (is_cleanup id) s.cleanups)))
        (λ _. ok (
          tt,
          record s {
            claims = delete_rows (has_claim_key key) s.claims;
            publications = delete_rows (λ q. q.candidate_id == id) s.publications;
            cleanups = update_rows (is_cleanup id) (set_completed now) s.cleanups;
          },
        ))
        λ _. laws.sharing s.reservations _ _ _ s p
