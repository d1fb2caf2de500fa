-- ===== src/Mandate/Lifecycle.antt =====
-- `issue`, `activate` and `revoke` of src/mox_adv/mandate_store.py.
use mox_adv.Prelude.{
  ℕ, ◌+◌, String, Bool, not, ◌&&◌, ◌||◌, Option, none, some, ◌∷◌, ◌==◌, ltb, nat_eq, if◌then◌else◌,
}
use mox_adv.Prelude.Json.{Json, Fields, object}
use mox_adv.Prelude.Text.{is_blank, strip}
use mox_adv.Table.{first_row, any_row}
use mox_adv.Interrupts.{engage}
use mox_adv.Control.Principal.{AuthenticatedPrincipal}
use mox_adv.Control.Reason.{boundary_rejected, invalid_input, kill_switch_unavailable}
use mox_adv.Policy.Approval.{Step}
use mox_adv.Mandate.{
  issued, active, revoked, MandateRow, MandateRecord, JsonText, EventRow, was_issued, was_activated,
  was_revoked, MandatePolicy,
}
use mox_adv.Mandate.State.{
  ok, rejected, raises, refuse, check, Authority, read, lift, pure, transaction, ◌>>=◌, ◌>>◌,
}
use mox_adv.Mandate.Records.{
  is_mandate, is_issued, is_in_force, is_revoked, update_mandates, append_event, mandate_id_of,
  record_from_row, load, read_terms,
}
use mox_adv.Mandate.Validate.{validate_issuer, validate_payload}

-- WHERE mandate_id = ? AND status = 'ISSUED'
abbrev pub is_activatable : String → MandateRow → Bool
is_activatable id row = row.mandate_id == id && is_issued row.status

abbrev pub set_active : ℕ → ℕ → MandateRow → MandateRow
set_active version now row = record row {
  status = active;
  activation_version = version;
  activated_at = some now;
}

-- WHERE mandate_id = ? AND status IN ('ISSUED', 'ACTIVE')
abbrev pub is_revocable : String → MandateRow → Bool
is_revocable id row = row.mandate_id == id && not (is_revoked row.status)

abbrev pub set_revoked : ℕ → ℕ → String → MandateRow → MandateRow
set_revoked version now reason row = record row {
  status = revoked;
  revocation_version = version;
  revoked_at = some now;
  revocation_reason = some reason;
}

abbrev pub is_event : String → ℕ → EventRow → Bool
is_event id version row = row.mandate_id == id && nat_eq row.event_version version

abbrev pub has_hash : String → MandateRow → Bool
has_hash digest row = row.canonical_hash == digest

-- The sidecar is engaged before the transaction, and stays so where that fails.
unfoldable pub engage_mandate : String → String → ℕ → Authority (Unit {0})
unfolding engage
engage_mandate id reason now s = elim (engage "mandate" id reason now s.control.interrupts) [
  | none ↦ (rejected kill_switch_unavailable, s)
  | some interrupts ↦ (ok tt, record s { control = record s.control { interrupts = interrupts } })
]

module _ (canonical_hash : Json → String) (sign : String → String) (json : JsonText)
    (parse_time : String → Option ℕ) (policy : MandatePolicy) where
  unfoldable pub new_mandate : Fields → MandateRow
  unfolding mandate_id_of
  new_mandate c = record {
    mandate_id = mandate_id_of (canonical_hash (object c));
    canonical_json = json.dumps c;
    canonical_hash = canonical_hash (object c);
    signature = sign (json.dumps c);
    status = issued;
    activation_version = 0;
    revocation_version = 0;
    activated_at = none;
    revoked_at = none;
    revocation_reason = none;
  }

  -- The two INSERTs of `issue`, under the UNIQUE hash and the key of the events.
  unfoldable pub insert_mandate : Fields → AuthenticatedPrincipal → ℕ → Authority (Unit {0})
  unfolding new_mandate
  insert_mandate c principal now s =
      let row = new_mandate c in
      if any_row (has_hash row.canonical_hash) s.mandates
        || any_row (is_event row.mandate_id 1) s.events
      then (raises, s)
      else (
        ok tt,
        record s {
          mandates = row ∷ s.mandates;
          events =
              record {
                mandate_id = row.mandate_id;
                event_version = 1;
                event_type = was_issued;
                principal = principal.identity;
                authentication = principal.authentication;
                reason = none;
                occurred_at = now;
              }
              ∷ s.events;
        },
      )

  -- `dict(record.canonical) != canonical` is equality of the documents, which is a parameter.
  unfoldable pub issue_canonical :
      (Fields → Fields → Bool) → Fields → AuthenticatedPrincipal → ℕ → Authority MandateRecord
  unfolding new_mandate insert_mandate record_from_row load
  issue_canonical same_fields c principal now s =
      let row = new_mandate c in
      elim (first_row (is_mandate row.mandate_id) s.mandates) [
        | none ↦
            (transaction (insert_mandate c principal now)
                >> read (load canonical_hash sign json parse_time row.mandate_id))
              s
        | some existing ↦
            (lift (record_from_row canonical_hash sign json parse_time existing) >>= λ record_.
            lift (
              if record_.row.canonical_hash == row.canonical_hash
                && (record_.row.signature == row.signature && same_fields record_.canonical c)
              then ok record_
              else refuse "IMMUTABLE_MANDATE_CONFLICT"))
              s
      ]

  unfoldable pub issue :
      (Fields → Option Fields)
      → (String → Option Step)
      → (Fields → Fields → Bool)
      → Json
      → AuthenticatedPrincipal
      → ℕ
      → Authority MandateRecord
  unfolding validate_payload issue_canonical
  issue canonicalize parse_int same_fields payload principal now = do
    c ← lift (validate_payload canonicalize parse_time parse_int policy payload principal now)
    issue_canonical same_fields c principal now

  -- `activate` from the record on. A record that is active already is returned unchanged.
  unfoldable pub activate_record : MandateRecord → AuthenticatedPrincipal → ℕ → Authority (Unit {0})
  unfolding update_mandates append_event
  activate_record r principal now =
      let row = r.row in
      if is_revoked row.status
      then lift (refuse "MANDATE_REACTIVATION_FORBIDDEN")
      else if is_in_force row.status
      then pure tt
      else do
        terms ← lift (read_terms canonical_hash sign json parse_time r)
        lift (check (boundary_rejected "MANDATE_EXPIRED") (ltb now terms.expiry))
        changed ←
            update_mandates (is_activatable row.mandate_id)
              (set_active (row.activation_version + 1) now)
        lift (check (boundary_rejected "MANDATE_ACTIVATION_CONFLICT") (nat_eq changed 1))
        append_event row.mandate_id was_activated principal now none

  unfoldable pub activate : String → AuthenticatedPrincipal → ℕ → Authority MandateRecord
  unfolding validate_issuer load activate_record
  activate id principal now = do
    lift (validate_issuer policy principal)
    transaction (
        read (load canonical_hash sign json parse_time id) >>= λ r. activate_record r principal now)
    read (load canonical_hash sign json parse_time id)

  unfoldable pub revoke_record :
      MandateRecord → String → AuthenticatedPrincipal → ℕ → Authority (Unit {0})
  unfolding update_mandates append_event
  revoke_record r reason principal now =
      let row = r.row in
      if is_revoked row.status then pure tt else do
        changed ←
            update_mandates (is_revocable row.mandate_id)
              (set_revoked (row.revocation_version + 1) now reason)
        lift (check (boundary_rejected "MANDATE_REVOCATION_CONFLICT") (nat_eq changed 1))
        append_event row.mandate_id was_revoked principal now (some reason)

  unfoldable pub revoke : String → String → AuthenticatedPrincipal → ℕ → Authority MandateRecord
  unfolding validate_issuer is_blank strip engage_mandate load revoke_record
  revoke id reason principal now = do
    lift (validate_issuer policy principal)
    lift (check invalid_input (not (is_blank reason)))
    engage_mandate id (strip reason) now
    transaction (
        read (load canonical_hash sign json parse_time id) >>= λ r.
        revoke_record r (strip reason) principal now)
    read (load canonical_hash sign json parse_time id)
