-- ===== src/Mandate/Records.antt =====
-- The rows of mandates and of their events in src/mox_adv/mandate_store.py: integrity, the active mandate,
-- the trigger on transitions, the event log.
use mox_adv.Prelude.{
  ℕ, ◌+◌, String, Bool, true, false, not, ◌&&◌, ◌||◌, Option, none, some, List, [], ◌∷◌, ◌==◌, ltb,
  nat_eq, is_null, concat_text, if◌then◌else◌,
}
use mox_adv.Prelude.Json.{Json, Fields, object}
use mox_adv.Prelude.Text.{remove_prefix, trims_away}
use mox_adv.Table.{first_row, any_row, count_rows, update_rows}
use mox_adv.Interrupts.{any_active}
use mox_adv.Control.Principal.{AuthenticatedPrincipal}
use mox_adv.Control.Reason.{boundary_rejected, kill_switch_unavailable}
use mox_adv.Mandate.{
  MandateStatus, issued, active, revoked, MandateRow, MandateRecord, JsonText, document, EventType,
  EventRow, MandateState,
}
use mox_adv.Mandate.State.{MandateResult, ok, rejected, raises, refuse, check, with_ok, Authority}
use mox_adv.Mandate.Terms.{MandateTerms, terms_of}

abbrev pub is_mandate : String → MandateRow → Bool
is_mandate id row = row.mandate_id == id

abbrev pub find_mandate : String → List MandateRow → MandateResult MandateRow
find_mandate id rows = elim (first_row (is_mandate id) rows) [
  | none ↦ refuse "MANDATE_NOT_FOUND"
  | some row ↦ ok row
]

abbrev pub no_time : Option ℕ → Bool
no_time time = is_null time

abbrev pub same_time : Option ℕ → Option ℕ → Bool
same_time none none = true
same_time (some m) (some n) = nat_eq m n
same_time _ _ = false

-- `length(trim(reason)) > 0`; NULL is not.
unfoldable pub has_reason : Option String → Bool
unfolding trims_away
has_reason none = false
has_reason (some reason) = not (trims_away reason)

abbrev pub is_issued : MandateStatus → Bool
is_issued issued = true
is_issued _ = false

abbrev pub is_in_force : MandateStatus → Bool
is_in_force active = true
is_in_force _ = false

abbrev pub is_revoked : MandateStatus → Bool
is_revoked revoked = true
is_revoked _ = false

-- The WHEN clause of the trigger `mandates_state_transitions`, negated.
unfoldable pub is_legal_transition : MandateRow → MandateRow → Bool
unfolding has_reason
is_legal_transition old new =
    is_issued old.status
      && (is_in_force new.status
          && (nat_eq new.activation_version (old.activation_version + 1)
              && (nat_eq new.revocation_version old.revocation_version
                  && (not (no_time new.activated_at)
                      && (no_time new.revoked_at && is_null new.revocation_reason)))))
    || not (is_revoked old.status)
      && (is_revoked new.status
          && (nat_eq new.activation_version old.activation_version
              && (nat_eq new.revocation_version (old.revocation_version + 1)
                  && (same_time new.activated_at old.activated_at
                      && (not (no_time new.revoked_at) && has_reason new.revocation_reason)))))

unfoldable pub is_illegal_update :
    (MandateRow → Bool) → (MandateRow → MandateRow) → MandateRow → Bool
unfolding is_legal_transition
is_illegal_update p f row = p row && not (is_legal_transition row (f row))

-- UPDATE mandates SET f WHERE p, with its rowcount; the trigger aborts an illegal transition.
unfoldable pub update_mandates : (MandateRow → Bool) → (MandateRow → MandateRow) → Authority ℕ
unfolding is_illegal_update
update_mandates p f s =
    if any_row (is_illegal_update p f) s.mandates
    then (raises, s)
    else (ok (count_rows p s.mandates), record s { mandates = update_rows p f s.mandates })

-- COALESCE(MAX(event_version), 0) of a mandate.
abbrev pub last_version : String → List EventRow → ℕ
last_version id [] = 0
last_version id (row ∷ rows) =
    let rest = last_version id rows in
    if row.mandate_id == id && ltb rest row.event_version then row.event_version else rest

unfoldable pub append_event :
    String → EventType → AuthenticatedPrincipal → ℕ → Option String → Authority (Unit {0})
append_event id kind principal now reason s = (
  ok tt,
  record s {
    events =
        record {
          mandate_id = id;
          event_version = last_version id s.events + 1;
          event_type = kind;
          principal = principal.identity;
          authentication = principal.authentication;
          reason = reason;
          occurred_at = now;
        }
        ∷ s.events;
  },
)

unfoldable pub require_no_mandate_interrupt : String → MandateState → MandateResult (Unit {0})
unfolding any_active
require_no_mandate_interrupt id s = elim (any_active "mandate" (id ∷ []) s.control.interrupts) [
  | none ↦ rejected kill_switch_unavailable
  | some is_engaged ↦ check (boundary_rejected "MANDATE_REVOKED") (not is_engaged)
]

unfoldable pub mandate_id_of : String → String
unfolding remove_prefix
mandate_id_of digest = concat_text "mandate-" (remove_prefix "sha256:" digest)

-- To verify a signature is to sign again and compare.
module _ (canonical_hash : Json → String) (sign : String → String) (json : JsonText)
    (parse_time : String → Option ℕ) where
  unfoldable pub is_intact : MandateRow → Fields → Bool
  unfolding mandate_id_of
  is_intact row c =
      canonical_hash (object c) == row.canonical_hash
      && (mandate_id_of (canonical_hash (object c)) == row.mandate_id
          && sign (json.dumps c) == row.signature)

  -- `_record_from_row`: the text is read, and its document is written and hashed again.
  unfoldable pub record_from_row : MandateRow → MandateResult MandateRecord
  unfolding is_intact
  record_from_row row = elim (document json row.canonical_json) [
    | none ↦ refuse "MANDATE_INTEGRITY_FAILURE"
    | some c ↦
        if is_intact row c
        then ok (record { row = row; canonical = c })
        else refuse "MANDATE_INTEGRITY_FAILURE"
  ]

  unfoldable pub load : String → MandateState → MandateResult MandateRecord
  unfolding record_from_row
  load id s = with_ok (find_mandate id s.mandates) record_from_row

  -- The fields that the methods read of a record; where one is missing, reading it raises.
  unfoldable pub read_terms : MandateRecord → MandateResult MandateTerms
  unfolding terms_of
  read_terms r = elim (terms_of parse_time r.canonical) [ none ↦ raises | some terms ↦ ok terms ]

  -- An active record, with its terms.
  abbrev pub ActiveMandate : Type 0
  ActiveMandate = MandateRecord × MandateTerms

  -- The tests of an active mandate: its expiry, and no interrupt.
  unfoldable pub require_current : MandateRecord → ℕ → MandateState → MandateResult ActiveMandate
  unfolding read_terms require_no_mandate_interrupt
  require_current r now s = with_ok (read_terms r) λ terms.
      with_ok (check (boundary_rejected "MANDATE_EXPIRED") (ltb now terms.expiry))
        λ _. with_ok (require_no_mandate_interrupt r.row.mandate_id s) λ _. ok (r, terms)

  -- `_load_active_in_connection` from the status on.
  unfoldable pub require_active : MandateRecord → ℕ → MandateState → MandateResult ActiveMandate
  unfolding require_current
  require_active r now s =
      if is_revoked r.row.status
      then refuse "MANDATE_REVOKED"
      else if is_in_force r.row.status
      then require_current r now s
      else refuse "MANDATE_INACTIVE"

  unfoldable pub load_active : String → ℕ → MandateState → MandateResult ActiveMandate
  unfolding load require_active
  load_active id now s = with_ok (load id s) λ r. require_active r now s

  -- In the order of the rows.
  unfoldable pub list_records : List MandateRow → MandateResult (List MandateRecord)
  unfolding record_from_row
  list_records [] = ok []
  list_records (row ∷ rows) =
      with_ok (list_records rows)
        λ earlier. with_ok (record_from_row row) λ record_. ok (record_ ∷ earlier)
