-- ===== src/Goals/Decisions.antt =====
-- That a decision on a candidate of src/mox_adv/goal_store.py is final.
use mox_adv.Prelude.{
  ◌≡◌, refl, sym, ap, subst, ◌∙◌, String, Bool, true, false, ◌&&◌, ◌==◌, eq_iff, none, some, List,
  ◌∷◌, if◌then◌else◌, Bool-cases, inl, inr, arith,
}
use mox_adv.Table.{first_row, update_rows}
use mox_adv.Goals.{GoalAuthorityRow, GoalCandidateRecord, GoalState}
use mox_adv.Goals.Candidates.{is_undecided, is_undecided_id, is_gateable}
use mox_adv.Goals.Creation.{is_candidate}
use mox_adv.Goals.Laws.{StatementLaws}
use mox_adv.Goals.Laws.Runs.{run-kept}
use mox_adv.Goals.Rows.{first_row-update}
use mox_adv.Goals.State.{GoalResult}
use mox_adv.Goals.Trace.{Call, run}

-- The rows differ in the optimization gate at most.
abbrev pub IsSameDecision : GoalCandidateRecord → GoalCandidateRecord → Type 0
IsSameDecision c row = row ≡ record c { optimization_gate_passed = row.optimization_gate_passed }

abbrev with_gate : Bool → GoalCandidateRecord → GoalCandidateRecord
with_gate passed row = record row { optimization_gate_passed = passed }

and-false : (b : Bool) → (b && false) ≡ false
and-false true = refl
and-false false = refl

module _ (id : String) (c : GoalCandidateRecord) (decided : is_undecided c.status ≡ false) where
  abbrev pub Stays : GoalState → Type 0
  Stays s =
      (row : GoalCandidateRecord) × (first_row (is_candidate id) s.candidates ≡ some row)
      × IsSameDecision c row

  -- An UPDATE of undecided candidates leaves the row.
  undecided-untouched :
      (other : String) (f : GoalCandidateRecord → GoalCandidateRecord)
      → ((x : GoalCandidateRecord) → (f x).candidate_id ≡ x.candidate_id)
      → (s : GoalState) → Stays s
      → Stays (record s { candidates = update_rows (is_undecided_id other) f s.candidates })
  undecided-untouched other f same s (row, found, e) =
      let closed : is_undecided row.status ≡ false =
        subst (λ r. is_undecided r.status ≡ false) (sym e) decided in
      (
        row,
        first_row-update (is_candidate id) (is_undecided_id other) f
              (λ x. ap (λ k. k == id) (same x)) s.candidates row found
            ∙ rw closed (rw (and-false (row.candidate_id == other)) refl),
        e,
      )

  gate-IsSameDecision :
      (b passed : Bool) (row : GoalCandidateRecord)
      → IsSameDecision c row
      → IsSameDecision c (if b then record row { optimization_gate_passed = passed } else row)
  gate-IsSameDecision true passed row e = ap (with_gate passed) e
  gate-IsSameDecision false passed row e = e

  gated :
      (other : String) (passed : Bool) (s : GoalState)
      → Stays s
      → Stays (record s {
        candidates =
            update_rows
              (is_gateable other)
              (λ x. record x { optimization_gate_passed = passed })
              s.candidates;
      })
  gated other passed s (row, found, e) = (
    _,
    first_row-update (is_candidate id) (is_gateable other)
        (λ x. record x { optimization_gate_passed = passed }) (λ x. refl) s.candidates row found,
    gate-IsSameDecision (is_gateable other row) passed row e,
  )

  other-created :
      (d : GoalCandidateRecord) (s : GoalState)
      → first_row (is_candidate d.candidate_id) s.candidates ≡ none
      → Stays s
      → Stays (record s { candidates = d ∷ s.candidates })
  other-created d s fresh (row, found, e) = elim (Bool-cases (d.candidate_id == id)) [
    | inl f ↦
        let absent : first_row (is_candidate id) s.candidates ≡ none =
          subst (λ k. first_row (is_candidate k) s.candidates ≡ none)
            ((eq_iff d.candidate_id id).0 f) fresh in
        ground arith
    | inr f ↦ (row, rw f found, e)
  ]

  Stays-laws : StatementLaws Stays
  Stays-laws = record {
    registering = λ a proof s quota h. h;
    holding = λ k key kind s h. h;
    charging = λ k key s h. h;
    releasing = λ k key s h. h;
    starting = λ plan now s fresh h. h;
    applying = λ key external now s h. h;
    losing = λ key detail now s h. h;
    deleting = λ key row s found flying h. h;
    creating = other-created;
    checking = λ other status s h. undecided-untouched other _ (λ x. refl) s h;
    deciding = λ other reviewer status s h. undecided-untouched other _ (λ x. refl) s h;
    gating = gated;
    sharing = λ reservations claims publications cleanups s h. h;
  }

  -- Once a candidate is APPROVED or REJECTED, whatever calls follow, its row is there and differs in the
  -- optimization gate at most: no later decision or technical check changes it.
  pub decision-Stays :
      (verify_row : GoalAuthorityRow → GoalResult (Unit {0})) (calls : List Call) (s : GoalState)
      → first_row (is_candidate id) s.candidates ≡ some c
      → (row : GoalCandidateRecord) × (first_row
            (is_candidate id)
            (run verify_row calls s).candidates
          ≡ some row)
        × IsSameDecision c row
  decision-Stays verify_row calls s h = run-kept verify_row Stays Stays-laws calls s (c, h, refl)
