-- ===== src/Goals/Laws/Abort.antt =====
-- That `abort_before_write` of src/mox_adv/goal_store.py keeps a property.
use mox_adv.Prelude.{String, ◌≡◌, refl, ap, ◌∙◌, true, Option, none, some, Option-cases, inl, inr}
use mox_adv.Table.{first_row}
use mox_adv.Goals.{GoalExecutionRecord, GoalState}
use mox_adv.Goals.Authorities.{release_authority}
use mox_adv.Goals.Creation.{
  has_key, is_in_flight, has_claim_key, free_reservation, abort_before_write,
}
use mox_adv.Goals.State.{delete_rows}
use mox_adv.Goals.Laws.{if-Holds, StatementLaws, Left, Leaves}

module _ (P : GoalState → Type 0) (laws : StatementLaws P) where
  free_reservation-kept :
      (id : Option String) (key : String) (s : GoalState)
      → P s
      → P (free_reservation id key s) × ((free_reservation id key s).executions ≡ s.executions)
  free_reservation-kept none key s p = (p, refl)
  free_reservation-kept (some id) key s p =
      (laws.sharing _ s.claims s.publications s.cleanups s p, refl)

  aborted :
      (key authority : String) (reservation : Option String) (row : GoalExecutionRecord)
      (s : GoalState)
      → first_row (has_key key) s.executions ≡ some row
      → is_in_flight row.status ≡ true
      → P s
      → let t = free_reservation reservation key (release_authority authority key s) in
        P (record t {
          claims = delete_rows (has_claim_key key) t.claims;
          executions = delete_rows (has_key key) t.executions;
        })
  unfolding release_authority
  aborted key authority reservation row s found flying p =
      let r = release_authority authority key s in
      let t = free_reservation reservation key r in
      let (q, same) = free_reservation-kept reservation key r (laws.releasing authority key s p) in
      laws.sharing t.reservations _ t.publications t.cleanups
        (record t { executions = delete_rows (has_key key) t.executions })
        (laws.deleting key row t (ap (first_row (has_key key)) same ∙ found) flying q)

  pub abort_before_write-Leaves :
      (key authority : String) (reservation : Option String) (s : GoalState)
      → P s
      → Leaves P (abort_before_write key authority reservation s)
  unfolding abort_before_write
  abort_before_write-Leaves key authority reservation s p =
      elim (Option-cases (first_row (has_key key) s.executions)) [
        | inl e ↦ rw (abort_before_write, e) p
        | inr (row, e) ↦
            rw (abort_before_write, e)
              (if-Holds (Left P) (is_in_flight row.status) _ _
                (λ f. aborted key authority reservation row s e f p) (λ _. p))
      ]
