-- ===== src/Mandate/Aborted.antt =====
-- That `revoke` of src/mox_adv/mandate_store.py raises where the trigger aborts its UPDATE.
use mox_adv.Prelude.{
  ℕ, ◌+◌, ◌≡◌, refl, ap, sym, subst, String, Bool, true, false, not, ◌&&◌, ◌||◌, some, List, [],
  ◌∷◌, ◌==◌, eq_refl, Bool-cases, inl, inr, arith,
}
use mox_adv.Prelude.Text.{is_blank, strip, starts_nul}
use mox_adv.Prelude.Text.Blank.{starts_nul-trims_away}
use mox_adv.Table.{first_row, any_row, update_rows}
use mox_adv.Interrupts.{Signal, is_signal, is_active_signal, any_active, engage, set_signal}
use mox_adv.Control.Principal.{AuthenticatedPrincipal}
use mox_adv.Control.State.{DurableControlState}
use mox_adv.Mandate.{MandateRow, MandateRecord, MandateState, MandatePolicy}
use mox_adv.Mandate.Invariant.Reserving.{load-row}
use mox_adv.Mandate.Lifecycle.{is_revocable, set_revoked, engage_mandate, revoke, revoke_record}
use mox_adv.Mandate.Records.{
  is_mandate, is_issued, is_revoked, is_legal_transition, is_illegal_update, has_reason,
  update_mandates, load,
}
use mox_adv.Mandate.Results.{some-injective}
use mox_adv.Mandate.Revocable.Rows.{nat_eq_refl, same_time_refl, skipped-update}
use mox_adv.Mandate.Revoked.{found-id}
use mox_adv.Mandate.State.{ok, raises}
use mox_adv.Mandate.Trace.{Environment}
use mox_adv.Mandate.Validate.{validate_issuer}

unstated-illegal :
    (row : MandateRow) (now : ℕ) (reason : String)
    → is_revoked row.status ≡ false
    → has_reason (some reason) ≡ false
    → is_legal_transition row (set_revoked (row.revocation_version + 1) now reason row) ≡ false
unfolding is_legal_transition
unstated-illegal row now reason alive unstated = elim (Bool-cases (is_issued row.status)) [
  | inl e ↦
      rw
        (
          e,
          alive,
          nat_eq_refl row.activation_version,
          nat_eq_refl (row.revocation_version + 1),
          same_time_refl row.activated_at,
          unstated,
        )
        refl
  | inr e ↦
      rw
        (
          e,
          alive,
          nat_eq_refl row.activation_version,
          nat_eq_refl (row.revocation_version + 1),
          same_time_refl row.activated_at,
          unstated,
        )
        refl
]

illegal-row :
    (p : MandateRow → Bool) (f : MandateRow → MandateRow) (row : MandateRow)
    → p row ≡ true
    → is_legal_transition row (f row) ≡ false
    → is_illegal_update p f row ≡ true
unfolding is_illegal_update
illegal-row p f row selects h = rw (selects, h) refl

-- The trigger aborts the UPDATE of a live row without a reason.
aborts :
    (id : String) (now : ℕ) (reason : String) (rows : List MandateRow) (row : MandateRow)
    → first_row (is_mandate id) rows ≡ some row
    → is_revoked row.status ≡ false
    → has_reason (some reason) ≡ false
    → any_row
        (is_illegal_update (is_revocable id) (set_revoked (row.revocation_version + 1) now reason))
        rows
      ≡ true
aborts id now reason [] row found alive unstated = ground arith
aborts id now reason (other ∷ rows) row found alive unstated =
    elim (Bool-cases (other.mandate_id == id)) [
      | inl e ↦
          let same : other ≡ row = some-injective other row (ground arith) in
          let here : (row.mandate_id == id) ≡ true =
            subst (λ r. (r.mandate_id == id) ≡ true) same e in
          let illegal =
            illegal-row (is_revocable id) (set_revoked (row.revocation_version + 1) now reason) row
              (rw (here, alive) refl) (unstated-illegal row now reason alive unstated) in
          rw (same, illegal) refl
      | inr e ↦
          let skipped =
            skipped-update (is_revocable id) (set_revoked (row.revocation_version + 1) now reason)
              other (ap (λ b. b && not (is_revoked other.status)) e) in
          rw (skipped, aborts id now reason rows row (ground arith) alive unstated) refl
    ]

or-later : (a b : Bool) → b ≡ true → (a || b) ≡ true
or-later a b h = ground arith

-- A signal that was set is active.
set-active :
    (kind scope reason : String) (now : ℕ) (rows : List Signal)
    → any_row (is_signal kind scope) rows ≡ true
    → any_row (is_active_signal kind (scope ∷ [])) (
        update_rows
          (is_signal kind scope)
          (λ row. record row { active = true; reason = reason; updated_at = now })
          rows)
      ≡ true
set-active kind scope reason now [] h = ground arith
set-active kind scope reason now (row ∷ rows) h = elim (Bool-cases (row.kind == kind)) [
  | inl e ↦ elim (Bool-cases (row.scope == scope)) [
    | inl f ↦ rw (e, f) (rw (e, f) refl)
    | inr f ↦ rw (e, f) (or-later _ _ (set-active kind scope reason now rows (ground arith)))
  ]
  | inr e ↦ rw e (or-later _ _ (set-active kind scope reason now rows (ground arith)))
]

-- After the sidecar was engaged, it says so; the tables are as they were.
engaged-active :
    (id reason : String) (now : ℕ) (s : MandateState)
    → s.control.interrupts.available ≡ true
    → (control : DurableControlState) × (engage_mandate id reason now s
        ≡ (ok tt, record s { control = control }))
      × (any_active "mandate" (id ∷ []) control.interrupts ≡ some true)
unfolding engage_mandate engage set_signal any_active
engaged-active id reason now s open_ =
    elim (Bool-cases (any_row (is_signal "mandate" id) s.control.interrupts.signals)) [
      | inl e ↦
          let active = set-active "mandate" id reason now s.control.interrupts.signals e in
          rw (engage_mandate, engage, set_signal, open_, e) (_, refl, ap some active)
      | inr e ↦ rw (engage_mandate, engage, set_signal, open_, e) (_, refl, rw (eq_refl id) refl)
    ]

module _ (env : Environment) (policy : MandatePolicy) where
  revoke_record-raises :
      (reason : String) (principal : AuthenticatedPrincipal) (now : ℕ) (r : MandateRecord)
      (s : MandateState)
      → first_row (is_mandate r.row.mandate_id) s.mandates ≡ some r.row
      → is_revoked r.row.status ≡ false
      → has_reason (some reason) ≡ false
      → revoke_record env.canonical_hash env.sign env.json env.parse_time policy r reason principal
          now s
        ≡ (raises, s)
  unfolding revoke_record update_mandates
  revoke_record-raises reason principal now r s found alive unstated =
      rw
        (
          revoke_record,
          alive,
          aborts r.row.mandate_id now reason s.mandates r.row found alive unstated,
        )
        refl

  unstated-reason : (reason : String) → starts_nul reason ≡ true → has_reason (some reason) ≡ false
  unfolding has_reason
  unstated-reason reason h = ap not (starts_nul-trims_away reason h)

  -- `revoke` by the issuer of a mandate that is not revoked, with a reason whose first character but white space is
  -- U+0000, while the sidecar is available, raises: the trigger takes the reason for empty. The tables of the
  -- mandates and of their events are as they were; and the interrupt of the mandate is engaged, and stays so.
  pub revoke-aborts :
      (r : MandateRecord) (id reason : String) (principal : AuthenticatedPrincipal) (now : ℕ)
      (s : MandateState)
      → load env.canonical_hash env.sign env.json env.parse_time id s ≡ ok r
      → is_revoked r.row.status ≡ false
      → validate_issuer policy principal ≡ ok tt
      → is_blank reason ≡ false
      → starts_nul (strip reason) ≡ true
      → s.control.interrupts.available ≡ true
      → let (result, t) =
          revoke env.canonical_hash env.sign env.json env.parse_time policy id reason principal now
            s in
        (result ≡ raises)
        × (t.mandates ≡ s.mandates)
        × (t.events ≡ s.events)
        × (any_active "mandate" (id ∷ []) t.control.interrupts ≡ some true)
  unfolding revoke load
  revoke-aborts r id reason principal now s loaded alive issuer words first open_ =
      let (control, engages, active) = engaged-active id (strip reason) now s open_ in
      let t : MandateState = record s { control = control } in
      let read_back : load env.canonical_hash env.sign env.json env.parse_time id t ≡ ok r =
        loaded in
      let found = load-row env id s r loaded in
      let same = found-id id s.mandates r.row found in
      let aborted =
        revoke_record-raises (strip reason) principal now r t
          (subst (λ n. first_row (is_mandate n) s.mandates ≡ some r.row) (sym same) found) alive
          (unstated-reason (strip reason) first) in
      rw (revoke, issuer, words, engages, read_back, aborted) (refl, refl, refl, active)
