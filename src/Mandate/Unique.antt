-- ===== src/Mandate/Unique.antt =====
-- The primary key of the mandates of src/mox_adv/mandate_store.py.
use mox_adv.Prelude.{
  ℕ, ◌≤◌, ◌≡◌, refl, sym, subst, String, Bool, Option, none, List, ◌∷◌, ◌==◌, eq_iff, Bool-cases,
  inl, inr, arith,
}
use mox_adv.Prelude.Json.{Fields}
use mox_adv.Table.{first_row, any_row, count_rows}
use mox_adv.Table.Counts.{count-update, first_row-none}
use mox_adv.Control.Principal.{AuthenticatedPrincipal}
use mox_adv.Control.Rows.{PreparedChange, ExecutionStatus, execution_key}
use mox_adv.Control.State.{DurableControlState}
use mox_adv.Mandate.{MandateRow, MandateState, MandatePolicy, EventType}
use mox_adv.Mandate.Execute.{is_consumption, insert_reservation}
use mox_adv.Mandate.Keeps.{Keeps}
use mox_adv.Mandate.Lifecycle.{new_mandate, insert_mandate, has_hash, is_event}
use mox_adv.Mandate.Methods.{StatementLaws, reserve_execution-Keeps, run-Keeps}
use mox_adv.Mandate.Recheck.{write_recheck}
use mox_adv.Mandate.Records.{is_mandate, is_illegal_update, update_mandates, append_event}
use mox_adv.Mandate.Terms.{MandateTerms}
use mox_adv.Mandate.Trace.{Environment, Call, start, run}

-- One row at most for each id.
abbrev pub IsUnique : MandateState → Type 0
IsUnique s = (id : String) → count_rows (is_mandate id) s.mandates ≤ 1

update_mandates-IsUnique :
    (p : MandateRow → Bool) (f : MandateRow → MandateRow)
    → ((row : MandateRow) → (f row).mandate_id ≡ row.mandate_id)
    → Keeps IsUnique (update_mandates p f)
unfolding update_mandates
update_mandates-IsUnique p f same s h =
    elim (Bool-cases (any_row (is_illegal_update p f) s.mandates)) [
      | inl e ↦ rw e h
      | inr e ↦ rw e (λ id.
          subst (λ n. n ≤ 1)
            (sym (count-update p (is_mandate id) f s.mandates (λ row d. rw (same row) refl)))
            (h id))
    ]

fresh-IsUnique :
    (row : MandateRow) (rows : List MandateRow)
    → first_row (is_mandate row.mandate_id) rows ≡ none
    → ((id : String) → count_rows (is_mandate id) rows ≤ 1)
    → (id : String) → count_rows (is_mandate id) (row ∷ rows) ≤ 1
fresh-IsUnique row rows fresh h id = elim (Bool-cases (row.mandate_id == id)) [
  | inl e ↦
      let gone : count_rows (is_mandate id) rows ≡ 0 =
        subst (λ n. count_rows (is_mandate n) rows ≡ 0) ((eq_iff row.mandate_id id).0 e)
          (first_row-none (is_mandate row.mandate_id) rows fresh) in
      rw (e, gone) (ground arith)
  | inr e ↦ rw e (h id)
]

module _ (env : Environment) (policy : MandatePolicy) where
  insert_mandate-IsUnique :
      (c : Fields) (principal : AuthenticatedPrincipal) (now : ℕ) (s : MandateState)
      → first_row
          (is_mandate
            (new_mandate env.canonical_hash env.sign env.json env.parse_time policy c).mandate_id)
          s.mandates
        ≡ none
      → IsUnique s
      → IsUnique
          (insert_mandate env.canonical_hash env.sign env.json env.parse_time policy c principal now
            s).1
  unfolding insert_mandate
  insert_mandate-IsUnique c principal now s fresh h =
      let row = new_mandate env.canonical_hash env.sign env.json env.parse_time policy c in
      elim (Bool-cases (any_row (has_hash row.canonical_hash) s.mandates)) [
        | inl e ↦ rw (insert_mandate, e) h
        | inr e ↦ elim (Bool-cases (any_row (is_event row.mandate_id 1) s.events)) [
          | inl f ↦ rw (insert_mandate, e, f) h
          | inr f ↦ rw (insert_mandate, e, f) (fresh-IsUnique row s.mandates fresh h)
        ]
      ]

  insert_reservation-IsUnique :
      (id : String) (terms : MandateTerms) (prepared : PreparedChange) (exposure change now : ℕ)
      → Keeps IsUnique (
          insert_reservation env.canonical_hash env.sign env.json env.parse_time id terms prepared
            exposure change now)
  unfolding insert_reservation
  insert_reservation-IsUnique id terms prepared exposure change now s h =
      elim (Bool-cases
        (any_row (is_consumption (execution_key env.canonical_hash prepared)) s.consumptions)) [
          | inl e ↦ rw (insert_reservation, e) h
          | inr e ↦ rw (insert_reservation, e) h
        ]

  append_event-IsUnique :
      (id : String) (kind : EventType) (principal : AuthenticatedPrincipal) (now : ℕ)
      (reason : Option String)
      → Keeps IsUnique (append_event id kind principal now reason)
  unfolding append_event
  append_event-IsUnique id kind principal now reason s h = h

  write_recheck-IsUnique :
      (prepared : PreparedChange) (id : String) (previous status : ExecutionStatus)
      (detail : String) (now : ℕ)
      → Keeps IsUnique (
          write_recheck env.canonical_hash env.sign env.json env.parse_time prepared id previous
            status detail now)
  unfolding write_recheck
  write_recheck-IsUnique prepared id previous status detail now s h = h

  IsUnique-laws : StatementLaws env policy IsUnique
  IsUnique-laws = record {
    activating = λ id version now. update_mandates-IsUnique _ _ (λ row. refl);
    revoking = λ id version now reason. update_mandates-IsUnique _ _ (λ row. refl);
    appending = append_event-IsUnique;
    inserting =
        λ c principal now s terms parsed fresh h. insert_mandate-IsUnique c principal now s fresh h;
    reserving = reserve_execution-Keeps env IsUnique insert_reservation-IsUnique;
    rechecking = write_recheck-IsUnique;
    sharing = λ control s h. h;
  }

  pub run-IsUnique :
      (calls : List Call) (control : DurableControlState)
      → IsUnique (run env policy calls (start control))
  run-IsUnique calls control =
      run-Keeps env policy IsUnique IsUnique-laws calls (start control) (λ id. ground arith)
