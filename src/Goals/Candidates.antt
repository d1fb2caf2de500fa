-- ===== src/Goals/Candidates.antt =====
-- The decisions on a candidate and its cleanup in src/mox_adv/goal_store.py.
use mox_adv.Prelude.{
  ℕ, String, Bool, true, false, not, ◌&&◌, Option, none, some, ◌∷◌, ◌==◌, nat_eq, is_null,
}
use mox_adv.Table.{first_row, count_rows, update_rows}
use mox_adv.Goals.{
  GoalCandidateStatus, candidate, approved, rejected, GoalTechnicalStatus, verified,
  GoalCandidateRecord, CleanupProgress,
}
use mox_adv.Goals.Creation.{is_candidate, has_claim_key}
use mox_adv.Goals.State.{ok, check, Method, delete_rows, ◌>>◌}

abbrev pub is_undecided : GoalCandidateStatus → Bool
is_undecided candidate = true
is_undecided _ = false

abbrev pub is_approved : GoalCandidateStatus → Bool
is_approved approved = true
is_approved _ = false

abbrev pub is_rejected : GoalCandidateStatus → Bool
is_rejected rejected = true
is_rejected _ = false

abbrev pub is_verified : GoalTechnicalStatus → Bool
is_verified verified = true
is_verified _ = false

-- WHERE candidate_id = ? AND status = 'CANDIDATE'
abbrev pub is_undecided_id : String → GoalCandidateRecord → Bool
is_undecided_id id row = row.candidate_id == id && is_undecided row.status

-- UPDATE goal_candidates SET f WHERE p, which must write one row.
unfoldable pub update_candidate :
    String
    → (GoalCandidateRecord → Bool)
    → (GoalCandidateRecord → GoalCandidateRecord)
    → Method (Unit {0})
update_candidate code p f s =
    check code (nat_eq (count_rows p s.candidates) 1)
    >> ok (tt, record s { candidates = update_rows p f s.candidates })

unfoldable pub set_technical_status : String → GoalTechnicalStatus → Method (Unit {0})
unfolding update_candidate
set_technical_status id status s =
    update_candidate "GOAL_CANDIDATE_NOT_VERIFIABLE" (is_undecided_id id)
      (λ row. record row { technical_status = status }) s

unfoldable pub set_semantic_status : String → GoalCandidateStatus → String → Method (Unit {0})
unfolding update_candidate
set_semantic_status id status reviewer s =
    update_candidate "SEMANTIC_DECISION_NOT_ALLOWED" (is_undecided_id id)
      (λ row. record row { status = status; semantic_reviewer = some reviewer }) s

abbrev pub is_gateable : String → GoalCandidateRecord → Bool
is_gateable id row =
    row.candidate_id == id && (is_approved row.status && is_verified row.technical_status)

unfoldable pub set_optimization_gate : String → Bool → Method (Unit {0})
unfolding update_candidate
set_optimization_gate id passed s =
    update_candidate "OPTIMIZATION_GATE_NOT_APPLICABLE" (is_gateable id)
      (λ row. record row { optimization_gate_passed = passed }) s

unfoldable pub optimization_eligible : GoalCandidateRecord → Bool
optimization_eligible row =
    is_approved row.status && (is_verified row.technical_status && row.optimization_gate_passed)

abbrev pub is_cleanup : String → CleanupProgress → Bool
is_cleanup id row = row.candidate_id == id

abbrev new_cleanup : String → CleanupProgress
new_cleanup id = record {
  candidate_id = id;
  publication_rolled_back = false;
  goal_deleted = false;
  completed_at = none;
}

abbrev progress : CleanupProgress → Bool × Bool × Bool
progress row = (row.publication_rolled_back, row.goal_deleted, not (is_null row.completed_at))

unfoldable pub begin_cleanup : String → Method (Bool × Bool × Bool)
begin_cleanup id s = elim (first_row (is_cleanup id) s.cleanups) [
  | some row ↦ ok (progress row, s)
  | none ↦ ok (progress (new_cleanup id), record s { cleanups = new_cleanup id ∷ s.cleanups })
]

unfoldable pub mark_cleanup_publication_rolled_back : String → Method (Unit {0})
mark_cleanup_publication_rolled_back id s = ok (
  tt,
  record s {
    cleanups =
        update_rows (is_cleanup id) (λ row. record row { publication_rolled_back = true })
          s.cleanups;
  },
)

unfoldable pub mark_cleanup_goal_deleted : String → Method (Unit {0})
mark_cleanup_goal_deleted id s = ok (
  tt,
  record s {
    cleanups = update_rows (is_cleanup id) (λ row. record row { goal_deleted = true }) s.cleanups;
  },
)

abbrev pub is_rejected_row : Option GoalCandidateRecord → Bool
is_rejected_row none = false
is_rejected_row (some row) = is_rejected row.status

abbrev pub is_cleaned : Option CleanupProgress → Bool
is_cleaned none = false
is_cleaned (some row) = row.publication_rolled_back && row.goal_deleted

abbrev pub set_completed : ℕ → CleanupProgress → CleanupProgress
set_completed now row = record row {
  completed_at = elim row.completed_at [ none ↦ some now | some time ↦ some time ];
}

unfoldable pub finish_cleanup : String → String → ℕ → Method (Unit {0})
finish_cleanup id key now s =
    check "ONLY_REJECTED_CANDIDATE_CAN_BE_CLEANED"
      (is_rejected_row (first_row (is_candidate id) s.candidates))
    >> check "CLEANUP_INCOMPLETE" (is_cleaned (first_row (is_cleanup id) s.cleanups))
    >> ok (
      tt,
      record s {
        claims = delete_rows (has_claim_key key) s.claims;
        publications = delete_rows (λ p. p.candidate_id == id) s.publications;
        cleanups = update_rows (is_cleanup id) (set_completed now) s.cleanups;
      },
    )
