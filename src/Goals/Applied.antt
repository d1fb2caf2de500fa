-- ===== src/Goals/Applied.antt =====
-- That an execution of src/mox_adv/goal_store.py that was applied stays so.
use mox_adv.Prelude.{
  ℕ, ◌≡◌, refl, sym, ap, subst, ◌∙◌, String, Bool, true, false, ◌&&◌, ◌==◌, eq_iff, none, some,
  List, ◌∷◌, Bool-cases, inl, inr, arith,
}
use mox_adv.Table.{first_row, update_rows}
use mox_adv.Goals.{
  GoalExecutionStatus, in_flight, applied, failed, unknown_result, GoalAuthorityRow,
  GoalExecutionRecord, GoalState,
}
use mox_adv.Goals.Creation.{
  has_key, is_in_flight, is_open, is_open_key, is_in_flight_key, ExecutionPlan, new_execution,
  set_applied, set_unknown,
}
use mox_adv.Goals.Laws.{StatementLaws}
use mox_adv.Goals.Laws.Runs.{run-kept}
use mox_adv.Goals.Rows.{first_row-update, first_row-delete}
use mox_adv.Goals.State.{GoalResult, delete_rows}
use mox_adv.Goals.Trace.{Call, run}

and-false : (b : Bool) → (b && false) ≡ false
and-false true = refl
and-false false = refl

some-injective : {A : Type 0} (x y : A) → some x ≡ some y → x ≡ y
some-injective x y h = cc

flight-false : (status : GoalExecutionStatus) → is_open status ≡ false → is_in_flight status ≡ false
flight-false in_flight h = cc
flight-false applied h = refl
flight-false failed h = refl
flight-false unknown_result h = cc

flight-closed :
    (status : GoalExecutionStatus) (b : Bool)
    → is_open status ≡ false
    → (b && is_in_flight status) ≡ false
flight-closed status b h = rw (flight-false status h) (and-false b)

module _ (key : String) (row : GoalExecutionRecord) (done : is_open row.status ≡ false) where
  abbrev Stands : GoalState → Type 0
  Stands s = first_row (has_key key) s.executions ≡ some row

  -- An UPDATE of open executions leaves the row.
  open-untouched :
      (p : GoalExecutionRecord → Bool) (f : GoalExecutionRecord → GoalExecutionRecord)
      → ((x : GoalExecutionRecord) → (f x).execution_key ≡ x.execution_key)
      → p row ≡ false
      → (s : GoalState) → Stands s
      → first_row (has_key key) (update_rows p f s.executions) ≡ some row
  open-untouched p f same untouched s h =
      first_row-update (has_key key) p f (λ x. ap (λ k. k == key) (same x)) s.executions row h
      ∙ rw untouched refl

  closed-flight : (other : String) → is_in_flight_key other row ≡ false
  closed-flight other = flight-closed row.status (row.execution_key == other) done

  closed-open : (other : String) → is_open_key other row ≡ false
  closed-open other = rw done (and-false (row.execution_key == other))

  -- Another execution with this key is not inserted.
  other-started :
      (plan : ExecutionPlan) (now : ℕ) (s : GoalState)
      → first_row (has_key plan.execution_key) s.executions ≡ none
      → Stands s
      → first_row (has_key key) (new_execution plan now ∷ s.executions) ≡ some row
  other-started plan now s fresh h = elim (Bool-cases (plan.execution_key == key)) [
    | inl e ↦
        let absent : first_row (has_key key) s.executions ≡ none =
          subst (λ k. first_row (has_key k) s.executions ≡ none)
            ((eq_iff plan.execution_key key).0 e) fresh in
        ground arith
    | inr e ↦ rw e h
  ]

  other-deleted :
      (other : String) (x : GoalExecutionRecord) (s : GoalState)
      → first_row (has_key other) s.executions ≡ some x
      → is_in_flight x.status ≡ true
      → Stands s
      → first_row (has_key key) (delete_rows (has_key other) s.executions) ≡ some row
  other-deleted other x s found flying h = elim (Bool-cases (key == other)) [
    | inl e ↦
        let i : key ≡ other = (eq_iff key other).0 e in
        let same : x ≡ row =
          some-injective x row
            (sym found ∙ subst (λ k. first_row (has_key k) s.executions ≡ some row) i h) in
        let closed : is_in_flight row.status ≡ false = flight-false row.status done in
        let open_ : is_in_flight row.status ≡ true =
          subst (λ r. is_in_flight r.status ≡ true) same flying in
        cc
    | inr e ↦
        first_row-delete (has_key key) (has_key other)
          (λ y mine.
            subst (λ k. (k == other) ≡ false) (sym ((eq_iff y.execution_key key).0 mine)) e)
          s.executions
        ∙ h
  ]

  Stands-laws : StatementLaws Stands
  Stands-laws = record {
    registering = λ a proof s quota h. h;
    holding = λ id k kind s h. h;
    charging = λ id k s h. h;
    releasing = λ id k s h. h;
    starting = other-started;
    applying = λ other external now s h.
        open-untouched (is_open_key other) (set_applied external now) (λ x. refl)
          (closed-open other) s h;
    losing = λ other detail now s h.
        open-untouched (is_in_flight_key other) (set_unknown detail now) (λ x. refl)
          (closed-flight other) s h;
    deleting = other-deleted;
    creating = λ c s fresh h. h;
    checking = λ id status s h. h;
    deciding = λ id reviewer status s h. h;
    gating = λ id passed s h. h;
    sharing = λ reservations claims publications cleanups s h. h;
  }

  -- An execution that is APPLIED or FAILED is neither written again nor deleted, whatever calls follow.
  pub closed-Stands :
      (verify_row : GoalAuthorityRow → GoalResult (Unit {0})) (calls : List Call) (s : GoalState)
      → first_row (has_key key) s.executions ≡ some row
      → first_row (has_key key) (run verify_row calls s).executions ≡ some row
  closed-Stands verify_row calls s h = run-kept verify_row Stands Stands-laws calls s h
