-- ===== src/Mandate/Revocable.antt =====
-- That `revoke` of src/mox_adv/mandate_store.py returns.
pub mod Rows
use mox_adv.Prelude.Json.{Fields}
use mox_adv.Prelude.{
  ℕ, ◌+◌, ◌≤◌, ◌≡◌, refl, ap, sym, subst, ◌∙◌, String, Bool, true, false, not, ◌&&◌, Option, none,
  some, List, [], ◌∷◌, ◌==◌, Bool-cases, inl, inr, arith, nat_eq, if◌then◌else◌,
}
use mox_adv.Prelude.Text.{is_blank, strip, starts_nul}
use mox_adv.Prelude.Text.Blank.{strip-trims_away}
use mox_adv.Table.{first_row, any_row, count_rows, update_rows}
use mox_adv.Interrupts.{engage, set_signal}
use mox_adv.Control.Principal.{AuthenticatedPrincipal}
use mox_adv.Control.State.{DurableControlState}
use mox_adv.Mandate.{MandateRecord, document, MandateRow, MandateState, MandatePolicy}
use mox_adv.Mandate.Invariant.Reserving.{load-row, load-record_from_row, record_from_row-facts}
use mox_adv.Mandate.Lifecycle.{is_revocable, set_revoked, engage_mandate, revoke, revoke_record}
use mox_adv.Mandate.Records.{
  is_mandate, is_issued, is_revoked, is_legal_transition, is_illegal_update, has_reason, same_time,
  update_mandates, append_event, load, record_from_row, is_intact,
}
use mox_adv.Mandate.Results.{some-injective}
use mox_adv.Mandate.RoundTrip.{load-found}
use mox_adv.Mandate.State.{ok, Authority, read, transaction, ◌>>=◌, ◌>>◌}
use mox_adv.Mandate.Revoked.{found-id}
use mox_adv.Mandate.Trace.{Environment, Call, start, run}
use mox_adv.Mandate.Unique.{run-IsUnique}
use mox_adv.Mandate.Validate.{validate_issuer}
use mox_adv.Mandate.Revocable.Rows.{only-row}

module _ (env : Environment) (policy : MandatePolicy) where
  -- The row as `revoke` writes it.
  abbrev pub as_revoked : MandateRow → String → ℕ → MandateRow
  as_revoked row reason now =
      if is_revoked row.status then row else set_revoked (row.revocation_version + 1) now reason row

  abbrev pub revoked_record : MandateRecord → String → ℕ → MandateRecord
  revoked_record r reason now = record r { row = as_revoked r.row reason now }

  intact-record :
      (row : MandateRow) (c : Fields)
      → document env.json row.canonical_json ≡ some c
      → is_intact env.canonical_hash env.sign env.json env.parse_time row c ≡ true
      → record_from_row env.canonical_hash env.sign env.json env.parse_time row
        ≡ ok (record { row = row; canonical = c })
  unfolding record_from_row
  intact-record row c holds intact = rw (record_from_row, holds, intact) refl

  -- The UPDATE leaves the text, the hash and the signature.
  record_from_row-as_revoked :
      (r : MandateRecord) (reason : String) (now : ℕ)
      → record_from_row env.canonical_hash env.sign env.json env.parse_time r.row ≡ ok r
      → record_from_row env.canonical_hash env.sign env.json env.parse_time
          (as_revoked r.row reason now)
        ≡ ok (revoked_record r reason now)
  unfolding is_intact
  record_from_row-as_revoked r reason now h =
      let (_, holds, intact) = record_from_row-facts env r.row r h in
      elim (Bool-cases (is_revoked r.row.status)) [
        | inl e ↦ rw e h
        | inr e ↦ rw e (
            intact-record (set_revoked (r.row.revocation_version + 1) now reason r.row) r.canonical
              holds intact)
      ]

  record-revoked :
      (reason : String) (principal : AuthenticatedPrincipal) (now : ℕ) (r : MandateRecord)
      (s : MandateState)
      → has_reason (some reason) ≡ true
      → first_row (is_mandate r.row.mandate_id) s.mandates ≡ some r.row
      → count_rows (is_mandate r.row.mandate_id) s.mandates ≤ 1
      → let (result, t) =
          revoke_record env.canonical_hash env.sign env.json env.parse_time policy r reason
            principal now s in
        (result ≡ ok tt)
        × (first_row (is_mandate r.row.mandate_id) t.mandates ≡ some (as_revoked r.row reason now))
  unfolding revoke_record update_mandates append_event
  record-revoked reason principal now r s stated found one =
      elim (Bool-cases (is_revoked r.row.status)) [
        | inl e ↦ rw (revoke_record, e) (refl, found)
        | inr e ↦
            let (quiet, one_row, written) =
              only-row r.row.mandate_id now reason stated s.mandates r.row found one e in
            rw (revoke_record, e, quiet, one_row) (refl, written)
      ]

  as_revoked-is_revoked :
      (row : MandateRow) (reason : String) (now : ℕ)
      → is_revoked (as_revoked row reason now).status ≡ true
  as_revoked-is_revoked row reason now = elim (Bool-cases (is_revoked row.status)) [
    | inl e ↦ rw e e
    | inr e ↦ rw e refl
  ]

  pub engaged :
      (id reason : String) (now : ℕ) (s : MandateState)
      → s.control.interrupts.available ≡ true
      → (control : DurableControlState) × (engage_mandate id reason now s
          ≡ (ok tt, record s { control = control }))
  unfolding engage_mandate engage set_signal
  engaged id reason now s open_ = rw (engage_mandate, engage, set_signal, open_) (_, refl)

  -- The transaction of `revoke`, and the reading of the record after it.
  abbrev pub revoking : String → String → AuthenticatedPrincipal → ℕ → Authority MandateRecord
  revoking id reason principal now =
      transaction (
        read (load env.canonical_hash env.sign env.json env.parse_time id) >>= λ r.
        revoke_record env.canonical_hash env.sign env.json env.parse_time policy r reason principal
          now)
      >> read (load env.canonical_hash env.sign env.json env.parse_time id)

  revoking-ok :
      (reason : String) (principal : AuthenticatedPrincipal) (now : ℕ) (r : MandateRecord)
      (s : MandateState)
      → has_reason (some reason) ≡ true
      → load env.canonical_hash env.sign env.json env.parse_time r.row.mandate_id s ≡ ok r
      → count_rows (is_mandate r.row.mandate_id) s.mandates ≤ 1
      → (revoking r.row.mandate_id reason principal now s).0 ≡ ok (revoked_record r reason now)
  revoking-ok reason principal now r s stated loaded one =
      let found = load-row env r.row.mandate_id s r loaded in
      let t =
        (revoke_record env.canonical_hash env.sign env.json env.parse_time policy r reason principal
          now s).1 in
      let (returns, written) = record-revoked reason principal now r s stated found one in
      let intact =
        record_from_row-as_revoked r reason now
          (sym (load-record_from_row env r.row.mandate_id s r.row found) ∙ loaded) in
      rw (loaded, returns)
        (load-found env r.row.mandate_id t (as_revoked r.row reason now)
          (revoked_record r reason now) written intact)

  stated-reason :
      (reason : String)
      → is_blank reason ≡ false
      → starts_nul (strip reason) ≡ false
      → has_reason (some (strip reason)) ≡ true
  unfolding has_reason
  stated-reason reason h first = ap not (strip-trims_away reason h first)

  -- After any sequence of calls, `revoke` by the issuer with a reason that is not blank and whose first
  -- character but white space is not U+0000, while the sidecar is available, returns the record of any mandate
  -- that `load` can read, revoked: as it was where it was revoked before.
  pub revoke-returns :
      (calls : List Call) (control : DurableControlState) (r : MandateRecord) (id reason : String)
      (principal : AuthenticatedPrincipal) (now : ℕ)
      → let s = run env policy calls (start control) in
        load env.canonical_hash env.sign env.json env.parse_time id s ≡ ok r
        → validate_issuer policy principal ≡ ok tt
        → is_blank reason ≡ false
        → starts_nul (strip reason) ≡ false
        → s.control.interrupts.available ≡ true
        → ((revoke env.canonical_hash env.sign env.json env.parse_time policy id reason principal
              now s).0
            ≡ ok (revoked_record r (strip reason) now))
          × (is_revoked (as_revoked r.row (strip reason) now).status ≡ true)
  unfolding revoke load
  revoke-returns calls control r id reason principal now loaded issuer words first open_ =
      let s = run env policy calls (start control) in
      let (shared, engages) = engaged id (strip reason) now s open_ in
      let same = found-id id s.mandates r.row (load-row env id s r loaded) in
      let returns : (revoking id (strip reason) principal now (record s { control = shared })).0
          ≡ ok (revoked_record r (strip reason) now) =
        subst
          (λ n.
            load env.canonical_hash env.sign env.json env.parse_time n s ≡ ok r
            → (revoking n (strip reason) principal now (record s { control = shared })).0
              ≡ ok (revoked_record r (strip reason) now))
          same
          (λ h.
            revoking-ok (strip reason) principal now r (record s { control = shared })
              (stated-reason reason words first) h
              (run-IsUnique env policy calls control r.row.mandate_id))
          loaded in
      (rw (revoke, issuer, words, engages) returns, as_revoked-is_revoked r.row (strip reason) now)
