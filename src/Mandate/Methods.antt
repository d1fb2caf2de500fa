-- ===== src/Mandate/Methods.antt =====
-- What the statements of src/mox_adv/mandate_store.py keep, its methods keep, in any sequence of calls.
use mox_adv.Control.Principal.{AuthenticatedPrincipal}
use mox_adv.Control.Reason.{ReasonCode, boundary_rejected, invalid_input}
use mox_adv.Control.Rows.{ExecutionStatus, PreparedChange, execution_key, has_key}
use mox_adv.Control.State.{DurableControlState}
use mox_adv.Interrupts.{engage}
use mox_adv.Mandate.{
  MandateRecord, EventType, MandatePolicy, MandateState, was_activated, was_revoked,
}
use mox_adv.Mandate.Bounds.{HasTerms, validate_payload-HasTerms, validate_payload-parsed}
use mox_adv.Control.Executions.{is_unresolved_row, is_active_row}
use mox_adv.Mandate.Quota.{check_quota}
use mox_adv.Mandate.Terms.{monetary_exposure_rub}
use mox_adv.Mandate.Execute.{
  insert_reservation, reserve_bound, reserve_fresh, refuse_switched, reserve_execution,
}
use mox_adv.Mandate.Keeps.{
  Keeps, bind-Keeps, continue-holds, if-Keeps, keep-holds, lift-Keeps, lift-ok-Keeps, read-Keeps,
  transaction-Keeps,
}
use mox_adv.Mandate.Lifecycle.{
  activate, activate_record, engage_mandate, insert_mandate, is_activatable, is_revocable, issue,
  issue_canonical, new_mandate, revoke, revoke_record, set_active, set_revoked,
}
use mox_adv.Mandate.Quota.{validate_binding}
use mox_adv.Mandate.Recheck.{write_recheck}
use mox_adv.Mandate.Records.{
  append_event, is_in_force, is_mandate, is_revoked, load, load_active, read_terms, record_from_row,
  update_mandates,
}
use mox_adv.Mandate.Sequences.{run_methods-Keeps}
use mox_adv.Mandate.State.{check, read, transaction, ◌>>=◌}
use mox_adv.Mandate.Terms.{MandateTerms}
use mox_adv.Mandate.Trace.{IsParsed, Call, Environment, run}
use mox_adv.Mandate.Validate.{validate_issuer, validate_payload}
use mox_adv.Prelude.{
  Bool-cases, List, Option, Option-cases, String, inl, inr, ltb, nat_eq, none, not, some, ℕ, ◌+◌,
  ◌≡◌,
}
use mox_adv.Prelude.Json.{Fields, Json}
use mox_adv.Prelude.Text.{is_blank, strip}
use mox_adv.Table.{any_row, first_row}

module _ (env : Environment) (policy : MandatePolicy) where
  -- A property that every statement keeps. What is inserted was validated, and is new.
  pub record StatementLaws (P : MandateState → Type 0) : Type 0 where
    pub activating :
        (id : String) (version now : ℕ)
        → Keeps P (update_mandates (is_activatable id) (set_active version now))
    pub revoking :
        (id : String) (version now : ℕ) (reason : String)
        → Keeps P (update_mandates (is_revocable id) (set_revoked version now reason))
    pub appending :
        (id : String) (kind : EventType) (principal : AuthenticatedPrincipal) (now : ℕ)
        (reason : Option String)
        → Keeps P (append_event id kind principal now reason)
    pub inserting :
        (c : Fields) (principal : AuthenticatedPrincipal) (now : ℕ) (s : MandateState)
        → HasTerms env.parse_time policy c
        → IsParsed env c
        → first_row
            (is_mandate
              (new_mandate env.canonical_hash env.sign env.json env.parse_time policy c).mandate_id)
            s.mandates
          ≡ none
        → P s
        → P
            (insert_mandate env.canonical_hash env.sign env.json env.parse_time policy c principal
              now s).1
    pub reserving :
        (prepared : PreparedChange) (id : String) (now : ℕ)
        → Keeps P
            (reserve_execution env.canonical_hash env.sign env.json env.parse_time prepared id now)
    pub rechecking :
        (prepared : PreparedChange) (id : String) (previous status : ExecutionStatus)
        (detail : String) (now : ℕ)
        → Keeps P (
            write_recheck env.canonical_hash env.sign env.json env.parse_time prepared id previous
              status detail now)
    pub sharing :
        (control : DurableControlState) (s : MandateState)
        → P s
        → P (record s { control = control })

-- A property that the insertion of a reservation keeps whatever was checked.
module _ (env : Environment) (P : MandateState → Type 0)
    (inserting : (id : String) (terms : MandateTerms) (prepared : PreparedChange)
        (exposure change now : ℕ)
      → Keeps P (
          insert_reservation env.canonical_hash env.sign env.json env.parse_time id terms prepared
            exposure change now)) where
  reserve_bound-Keeps :
      (id : String) (terms : MandateTerms) (prepared : PreparedChange) (exposure now : ℕ)
      → Keeps P (
          reserve_bound env.canonical_hash env.sign env.json env.parse_time id terms prepared
            exposure now)
  unfolding reserve_bound reserve_fresh
  reserve_bound-Keeps id terms prepared exposure now s p =
      elim (Option-cases
        (first_row (has_key (execution_key env.canonical_hash prepared)) s.control.executions)) [
          | inr (row, e) ↦ rw (reserve_bound, e) p
          | inl e ↦ elim (Bool-cases (any_row is_unresolved_row s.control.executions)) [
            | inl f ↦ rw (reserve_bound, e, f) p
            | inr f ↦ elim (Option-cases (first_row is_active_row s.control.executions)) [
              | inr (row, g) ↦ rw (reserve_bound, e, f, g) p
              | inl g ↦
                  rw (reserve_bound, e, f, g)
                    ((read-Keeps P (refuse_switched prepared.scope) _ λ _.
                        read-Keeps P (check_quota id terms prepared exposure now) _
                          λ change. inserting id terms prepared exposure change now)
                      s p)
            ]
          ]
        ]

  pub reserve_execution-Keeps :
      (prepared : PreparedChange) (id : String) (now : ℕ)
      → Keeps P
          (reserve_execution env.canonical_hash env.sign env.json env.parse_time prepared id now)
  unfolding reserve_execution
  reserve_execution-Keeps prepared id now = transaction-Keeps _ _ (
      lift-Keeps _ (monetary_exposure_rub prepared) _ λ exposure.
        read-Keeps _ (load_active env.canonical_hash env.sign env.json env.parse_time id now) _
          λ (row, terms).
            lift-Keeps _ (validate_binding terms prepared) _
              λ _. reserve_bound-Keeps id terms prepared exposure now)

module _ (env : Environment) (policy : MandatePolicy) (P : MandateState → Type 0)
    (laws : StatementLaws env policy P) where
  engage_mandate-Keeps : (id reason : String) (now : ℕ) → Keeps P (engage_mandate id reason now)
  unfolding engage_mandate
  engage_mandate-Keeps id reason now s h =
      elim (Option-cases (engage "mandate" id reason now s.control.interrupts)) [
        | inl e ↦ rw (engage_mandate, e) h
        | inr (interrupts, e) ↦ rw (engage_mandate, e) (laws.sharing _ s h)
      ]

  abbrev expired : ReasonCode
  expired = boundary_rejected "MANDATE_EXPIRED"

  abbrev revocation_conflict : ReasonCode
  revocation_conflict = boundary_rejected "MANDATE_REVOCATION_CONFLICT"

  abbrev activation_conflict : ReasonCode
  activation_conflict = boundary_rejected "MANDATE_ACTIVATION_CONFLICT"

  activate_record-Keeps :
      (r : MandateRecord) (principal : AuthenticatedPrincipal) (now : ℕ)
      → Keeps P (
          activate_record env.canonical_hash env.sign env.json env.parse_time policy r principal
            now)
  unfolding activate_record
  activate_record-Keeps r principal now =
      if-Keeps _ (is_revoked r.row.status) _ _ (λ s h. h)
        (if-Keeps _ (is_in_force r.row.status) _ _ (λ s h. h)
          (lift-Keeps _ (read_terms env.canonical_hash env.sign env.json env.parse_time r) _
            λ terms. lift-Keeps _ (check expired (ltb now terms.expiry)) _ λ _.
              bind-Keeps _
                (update_mandates (is_activatable r.row.mandate_id)
                  (set_active (r.row.activation_version + 1) now))
                _ (laws.activating r.row.mandate_id (r.row.activation_version + 1) now)
                λ changed.
                  lift-Keeps _ (check activation_conflict (nat_eq changed 1)) _
                    λ _. laws.appending r.row.mandate_id was_activated principal now none))

  revoke_record-Keeps :
      (r : MandateRecord) (reason : String) (principal : AuthenticatedPrincipal) (now : ℕ)
      → Keeps P (
          revoke_record env.canonical_hash env.sign env.json env.parse_time policy r reason
            principal now)
  unfolding revoke_record
  revoke_record-Keeps r reason principal now =
      if-Keeps _ (is_revoked r.row.status) _ _ (λ s h. h)
        (bind-Keeps _
          (update_mandates (is_revocable r.row.mandate_id)
            (set_revoked (r.row.revocation_version + 1) now reason))
          _ (laws.revoking r.row.mandate_id (r.row.revocation_version + 1) now reason)
          λ changed.
            lift-Keeps _ (check revocation_conflict (nat_eq changed 1)) _
              λ _. laws.appending r.row.mandate_id was_revoked principal now (some reason))

  activate-Keeps :
      (id : String) (principal : AuthenticatedPrincipal) (now : ℕ)
      → Keeps P
          (activate env.canonical_hash env.sign env.json env.parse_time policy id principal now)
  unfolding activate
  activate-Keeps id principal now = lift-Keeps _ (validate_issuer policy principal) _ λ _.
      bind-Keeps _
        (transaction (do
          row ← read (load env.canonical_hash env.sign env.json env.parse_time id)
          activate_record env.canonical_hash env.sign env.json env.parse_time policy row principal
              now))
        _
        (transaction-Keeps _ _ (
          read-Keeps _ (load env.canonical_hash env.sign env.json env.parse_time id) _
            λ row. activate_record-Keeps row principal now))
        λ _ s h. h

  revoke-Keeps :
      (id reason : String) (principal : AuthenticatedPrincipal) (now : ℕ)
      → Keeps P (
          revoke env.canonical_hash env.sign env.json env.parse_time policy id reason principal now)
  unfolding revoke
  revoke-Keeps id reason principal now = lift-Keeps _ (validate_issuer policy principal) _ λ _.
      lift-Keeps _ (check invalid_input (not (is_blank reason))) _ λ _.
        bind-Keeps _ (engage_mandate id (strip reason) now) _
          (engage_mandate-Keeps id (strip reason) now)
          λ _.
            bind-Keeps _
              (transaction (do
                row ← read (load env.canonical_hash env.sign env.json env.parse_time id)
                revoke_record env.canonical_hash env.sign env.json env.parse_time policy row
                    (strip reason) principal now))
              _
              (transaction-Keeps _ _ (
                read-Keeps _ (load env.canonical_hash env.sign env.json env.parse_time id) _
                  λ row. revoke_record-Keeps row (strip reason) principal now))
              λ _ s h. h

  issue_canonical-Keeps :
      (c : Fields) (principal : AuthenticatedPrincipal) (now : ℕ)
      → HasTerms env.parse_time policy c
      → IsParsed env c
      → Keeps P (
          issue_canonical env.canonical_hash env.sign env.json env.parse_time policy env.same_fields
            c principal now)
  unfolding issue_canonical
  issue_canonical-Keeps c principal now terms parsed s h =
      elim (Option-cases (
        first_row
          (is_mandate
            (new_mandate env.canonical_hash env.sign env.json env.parse_time policy c).mandate_id)
          s.mandates)) [
            | inl e ↦
                rw (issue_canonical, e)
                  (continue-holds P _ (λ _ t k. k)
                    (transaction
                      (insert_mandate env.canonical_hash env.sign env.json env.parse_time policy c
                        principal now)
                      s)
                    (keep-holds P s
                      (insert_mandate env.canonical_hash env.sign env.json env.parse_time policy c
                        principal now s)
                      h (laws.inserting c principal now s terms parsed e h)))
            | inr (row, e) ↦
                rw (issue_canonical, e)
                  (lift-Keeps P
                    (record_from_row env.canonical_hash env.sign env.json env.parse_time row) _
                    (λ _ t k. k) s h)
          ]

  issue-Keeps :
      (payload : Json) (principal : AuthenticatedPrincipal) (now : ℕ)
      → Keeps P (
          issue env.canonical_hash env.sign env.json env.parse_time policy env.canonicalize
            env.parse_int env.same_fields payload principal now)
  unfolding issue
  issue-Keeps payload principal now =
      lift-ok-Keeps _
        (validate_payload env.canonicalize env.parse_time env.parse_int policy payload principal
          now)
        _
        λ c e.
          issue_canonical-Keeps c principal now
            (validate_payload-HasTerms env.canonicalize env.parse_time env.parse_int policy payload
              c principal now e)
            (validate_payload-parsed env.canonicalize env.parse_time env.parse_int policy payload c
              principal now e)

-- What every statement keeps, every sequence of calls keeps.
pub run-Keeps :
    (env : Environment) (policy : MandatePolicy) (P : MandateState → Type 0)
    → StatementLaws env policy P
    → (calls : List Call) (s : MandateState) → P s
    → P (run env policy calls s)
run-Keeps env policy P laws = run_methods-Keeps env policy P (record {
  issuing_all = issue-Keeps env policy P laws;
  activating_all = activate-Keeps env policy P laws;
  revoking_all = revoke-Keeps env policy P laws;
  reserving_all = laws.reserving;
  rechecking_all = laws.rechecking;
  sharing_all = laws.sharing;
})
