-- ===== src/Mandate/Revocation.antt =====
-- That a mandate which src/mox_adv/mandate_store.py revoked stays revoked, and lets nothing through.
use mox_adv.Prelude.{
  ℕ, ◌≡◌, refl, subst, String, Bool, true, false, ◌||◌, Option, none, some, List, [], ◌∷◌, ◌==◌,
  eq_iff, Bool-cases, inl, inr, arith, if◌then◌else◌,
}
use mox_adv.Prelude.Json.{Fields}
use mox_adv.Table.{first_row, any_row, update_rows}
use mox_adv.Control.Principal.{AuthenticatedPrincipal}
use mox_adv.Control.Rows.{PreparedChange, TrustedScope, ExecutionStatus, execution_key}
use mox_adv.Mandate.{
  MandateRecord, MandateStatus, issued, active, revoked, MandateRow, MandateState, MandatePolicy,
  EventType,
}
use mox_adv.Mandate.Execute.{
  is_consumption, insert_reservation, reserve_execution, claim_execution, require_dispatch_allowed,
  require_unswitched,
}
use mox_adv.Mandate.Keeps.{Keeps}
use mox_adv.Mandate.Lifecycle.{
  is_activatable, set_active, new_mandate, insert_mandate, has_hash, is_event, activate,
  activate_record,
}
use mox_adv.Mandate.Methods.{StatementLaws, reserve_execution-Keeps}
use mox_adv.Mandate.Refusals.{
  Refuses, with_ok-fails, bind-Refuses, read-Refuses, lift-Refuses, transaction-Refuses,
}
use mox_adv.Mandate.Results.{Returned-cases, some-injective}
use mox_adv.Mandate.Invariant.Reserving.{load-row, load_active-facts}
use mox_adv.Mandate.Validate.{validate_issuer}
use mox_adv.Control.Reason.{boundary_rejected}
use mox_adv.Mandate.Recheck.{write_recheck}
use mox_adv.Mandate.Records.{
  require_no_mandate_interrupt, is_mandate, is_illegal_update, is_in_force, is_revoked,
  update_mandates, append_event, load, load_active,
}
use mox_adv.Mandate.State.{MandateResult, is_ok, check, with_ok, transaction, read, ◌>>=◌}
use mox_adv.Mandate.Terms.{MandateTerms, monetary_exposure_rub}
use mox_adv.Mandate.Trace.{Environment}

-- The row of the mandate says REVOKED.
abbrev pub is_revoked_in : String → List MandateRow → Bool
is_revoked_in id [] = false
is_revoked_in id (row ∷ rows) =
    if row.mandate_id == id then is_revoked row.status else is_revoked_in id rows

abbrev pub IsRevoked : String → MandateState → Type 0
IsRevoked id s = is_revoked_in id s.mandates ≡ true

-- An UPDATE that takes no row back.
revoked-update :
    (id : String) (p : MandateRow → Bool) (f : MandateRow → MandateRow)
    → ((row : MandateRow) → (f row).mandate_id ≡ row.mandate_id)
    → ((row : MandateRow)
        → p row ≡ true
        → is_revoked row.status ≡ true
        → is_revoked (f row).status ≡ true)
    → (rows : List MandateRow) → is_revoked_in id rows ≡ true
    → is_revoked_in id (update_rows p f rows) ≡ true
revoked-update id p f same keeps [] h = h
revoked-update id p f same keeps (row ∷ rows) h = elim (Bool-cases (row.mandate_id == id)) [
  | inl e ↦ elim (Bool-cases (p row)) [
    | inl d ↦ rw (d, same row, e) (keeps row d (ground arith))
    | inr d ↦ rw (d, e) (ground arith)
  ]
  | inr e ↦ elim (Bool-cases (p row)) [
    | inl d ↦ rw (d, same row, e) (revoked-update id p f same keeps rows (ground arith))
    | inr d ↦ rw (d, e) (revoked-update id p f same keeps rows (ground arith))
  ]
]

update_mandates-IsRevoked :
    (id : String) (p : MandateRow → Bool) (f : MandateRow → MandateRow)
    → ((row : MandateRow) → (f row).mandate_id ≡ row.mandate_id)
    → ((row : MandateRow)
        → p row ≡ true
        → is_revoked row.status ≡ true
        → is_revoked (f row).status ≡ true)
    → Keeps (IsRevoked id) (update_mandates p f)
unfolding update_mandates
update_mandates-IsRevoked id p f same keeps s h =
    elim (Bool-cases (any_row (is_illegal_update p f) s.mandates)) [
      | inl e ↦ rw e h
      | inr e ↦ rw e (revoked-update id p f same keeps s.mandates h)
    ]

absent-false :
    (id : String) (rows : List MandateRow)
    → first_row (is_mandate id) rows ≡ none
    → is_revoked_in id rows ≡ false
absent-false id [] h = refl
absent-false id (row ∷ rows) h = elim (Bool-cases (row.mandate_id == id)) [
  | inl e ↦ ground arith
  | inr e ↦ rw e (absent-false id rows (ground arith))
]

older-IsRevoked :
    (id : String) (row : MandateRow) (rows : List MandateRow)
    → first_row (is_mandate row.mandate_id) rows ≡ none
    → is_revoked_in id rows ≡ true
    → is_revoked_in id (row ∷ rows) ≡ true
older-IsRevoked id row rows fresh h = elim (Bool-cases (row.mandate_id == id)) [
  | inl e ↦
      let gone : is_revoked_in id rows ≡ false =
        subst (λ n. is_revoked_in n rows ≡ false) ((eq_iff row.mandate_id id).0 e)
          (absent-false row.mandate_id rows fresh) in
      cc
  | inr e ↦ rw e h
]

activatable-kept :
    (id : String) (version now : ℕ) (row : MandateRow)
    → is_activatable id row ≡ true
    → is_revoked row.status ≡ true
    → is_revoked (set_active version now row).status ≡ true
activatable-kept id version now row h k = ground arith

first-revoked :
    (id : String) (rows : List MandateRow) (row : MandateRow)
    → is_revoked_in id rows ≡ true
    → first_row (is_mandate id) rows ≡ some row
    → is_revoked row.status ≡ true
first-revoked id [] row h e = cc
first-revoked id (other ∷ rows) row h e = elim (Bool-cases (other.mandate_id == id)) [
  | inl f ↦
      subst (λ r. is_revoked r.status ≡ true) (some-injective other row (ground arith))
        (ground arith)
  | inr f ↦ first-revoked id rows row (ground arith) (ground arith)
]

-- A revoked mandate is not active.
revoked-unforced :
    {A : Type 0} (status : MandateStatus) (f : Unit {0} → MandateResult A)
    → is_revoked status ≡ true
    → is_ok (with_ok (check (boundary_rejected "MANDATE_REVOKED") (is_in_force status)) f) ≡ false
revoked-unforced issued f h = refl
revoked-unforced active f h = cc
revoked-unforced revoked f h = refl

module _ (env : Environment) (policy : MandatePolicy) (id : String) where
  insert_mandate-IsRevoked :
      (c : Fields) (principal : AuthenticatedPrincipal) (now : ℕ) (s : MandateState)
      → first_row
          (is_mandate
            (new_mandate env.canonical_hash env.sign env.json env.parse_time policy c).mandate_id)
          s.mandates
        ≡ none
      → IsRevoked id s
      → IsRevoked id
          (insert_mandate env.canonical_hash env.sign env.json env.parse_time policy c principal now
            s).1
  unfolding insert_mandate
  insert_mandate-IsRevoked c principal now s fresh h =
      let row = new_mandate env.canonical_hash env.sign env.json env.parse_time policy c in
      elim (Bool-cases (
        any_row (has_hash row.canonical_hash) s.mandates
        || any_row (is_event row.mandate_id 1) s.events)) [
          | inl e ↦ rw (insert_mandate, e) h
          | inr e ↦ rw (insert_mandate, e) (older-IsRevoked id row s.mandates fresh h)
        ]

  insert_reservation-IsRevoked :
      (other : String) (terms : MandateTerms) (prepared : PreparedChange) (exposure change now : ℕ)
      → Keeps (IsRevoked id) (
          insert_reservation env.canonical_hash env.sign env.json env.parse_time other terms
            prepared exposure change now)
  unfolding insert_reservation
  insert_reservation-IsRevoked other terms prepared exposure change now s h =
      elim (Bool-cases
        (any_row (is_consumption (execution_key env.canonical_hash prepared)) s.consumptions)) [
          | inl e ↦ rw (insert_reservation, e) h
          | inr e ↦ rw (insert_reservation, e) h
        ]

  pub append_event-IsRevoked :
      (other : String) (kind : EventType) (principal : AuthenticatedPrincipal) (now : ℕ)
      (reason : Option String)
      → Keeps (IsRevoked id) (append_event other kind principal now reason)
  unfolding append_event
  append_event-IsRevoked other kind principal now reason s h = h

  write_recheck-IsRevoked :
      (prepared : PreparedChange) (other : String) (previous status : ExecutionStatus)
      (detail : String) (now : ℕ)
      → Keeps (IsRevoked id) (
          write_recheck env.canonical_hash env.sign env.json env.parse_time prepared other previous
            status detail now)
  unfolding write_recheck
  write_recheck-IsRevoked prepared other previous status detail now s h = h

  pub IsRevoked-laws : StatementLaws env policy (IsRevoked id)
  IsRevoked-laws = record {
    activating = λ other version now.
        update_mandates-IsRevoked id _ _ (λ row. refl) (activatable-kept other version now);
    revoking = λ other version now reason.
        update_mandates-IsRevoked id _ _ (λ row. refl) (λ row d h. refl);
    appending = append_event-IsRevoked;
    inserting = λ c principal now s terms parsed fresh h.
        insert_mandate-IsRevoked c principal now s fresh h;
    reserving = reserve_execution-Keeps env (IsRevoked id) insert_reservation-IsRevoked;
    rechecking = write_recheck-IsRevoked;
    sharing = λ control s h. h;
  }

  -- The row that a method reads is the revoked one.
  loaded-revoked :
      (s : MandateState) (row : MandateRow)
      → IsRevoked id s
      → first_row (is_mandate id) s.mandates ≡ some row
      → is_revoked row.status ≡ true
  loaded-revoked s row h e = first-revoked id s.mandates row h e

  pub load_active-refused :
      (s : MandateState) (now : ℕ)
      → IsRevoked id s
      → is_ok (load_active env.canonical_hash env.sign env.json env.parse_time id now s) ≡ false
  load_active-refused s now h =
      elim (Returned-cases
        (load_active env.canonical_hash env.sign env.json env.parse_time id now s)) [
          | inl ((r, terms), e) ↦
              let (found, alive, _) = load_active-facts env id now s r terms e in
              let dead : is_revoked r.row.status ≡ true = loaded-revoked s r.row h found in cc
          | inr e ↦ e
        ]

  pub reserve_execution-Refuses :
      (prepared : PreparedChange) (now : ℕ)
      → Refuses
          (IsRevoked id)
          (reserve_execution env.canonical_hash env.sign env.json env.parse_time prepared id now)
  unfolding reserve_execution
  reserve_execution-Refuses prepared now = transaction-Refuses _ _ (
      lift-Refuses _ (monetary_exposure_rub prepared) _ λ exposure.
        bind-Refuses _
          (read (load_active env.canonical_hash env.sign env.json env.parse_time id now)) _
          (λ s h. load_active-refused s now h))

  pub claim_execution-Refuses :
      (prepared : PreparedChange) (now : ℕ)
      → Refuses
          (IsRevoked id)
          (claim_execution env.canonical_hash env.sign env.json env.parse_time prepared id now)
  unfolding claim_execution
  claim_execution-Refuses prepared now = transaction-Refuses _ _ (
      bind-Refuses _ (read (load_active env.canonical_hash env.sign env.json env.parse_time id now))
        _ (λ s h. load_active-refused s now h))

  activate_record-revoked :
      (r : MandateRecord) (principal : AuthenticatedPrincipal) (now : ℕ) (s : MandateState)
      → is_revoked r.row.status ≡ true
      → is_ok
          (activate_record env.canonical_hash env.sign env.json env.parse_time policy r principal
            now s).0
        ≡ false
  unfolding activate_record
  activate_record-revoked r principal now s h = rw (activate_record, h) refl

  pub activate-Refuses :
      (principal : AuthenticatedPrincipal) (now : ℕ)
      → Refuses
          (IsRevoked id)
          (activate env.canonical_hash env.sign env.json env.parse_time policy id principal now)
  unfolding activate
  activate-Refuses principal now = lift-Refuses _ (validate_issuer policy principal) _ λ _.
      bind-Refuses _
        (transaction (do
          row ← read (load env.canonical_hash env.sign env.json env.parse_time id)
          activate_record env.canonical_hash env.sign env.json env.parse_time policy row principal
              now))
        _
        (transaction-Refuses _ _ (
          read-Refuses _ (load env.canonical_hash env.sign env.json env.parse_time id) _ λ r s e h.
            activate_record-revoked r principal now s
              (loaded-revoked s r.row h (load-row env id s r e))))

  pub dispatch-refused :
      (s : MandateState) (scope : TrustedScope) (now : ℕ)
      → IsRevoked id s
      → is_ok (
          require_dispatch_allowed env.canonical_hash env.sign env.json env.parse_time id scope now
            s)
        ≡ false
  unfolding require_dispatch_allowed
  dispatch-refused s scope now h = with_ok-fails (require_no_mandate_interrupt id s) _ λ _ _.
      with_ok-fails (require_unswitched env.canonical_hash env.sign env.json env.parse_time scope s)
        _
        λ _ _.
          with_ok-fails (load env.canonical_hash env.sign env.json env.parse_time id s) _ λ r e.
            revoked-unforced r.row.status _ (loaded-revoked s r.row h (load-row env id s r e))
