-- ===== src/Mandate/RoundTrip.antt =====
-- What `issue` of src/mox_adv/mandate_store.py writes, `load` and a second `issue` read.
use mox_adv.Prelude.{ℕ, ◌≡◌, refl, ap, sym, subst, ◌∙◌, true, false, none, some, eq_refl, String}
use mox_adv.Prelude.Json.{Json, Fields}
use mox_adv.Table.{first_row, any_row}
use mox_adv.Control.Principal.{AuthenticatedPrincipal}
use mox_adv.Mandate.{MandateRecord, document, object_of, MandateRow, MandateState, MandatePolicy}
use mox_adv.Mandate.Lifecycle.{
  new_mandate, insert_mandate, issue_canonical, issue, has_hash, is_event,
}
use mox_adv.Mandate.Records.{is_mandate, is_intact, record_from_row, load}
use mox_adv.Mandate.Bounds.{validate_payload-parsed}
use mox_adv.Mandate.Invariant.Reserving.{load-record_from_row}
use mox_adv.Mandate.State.{ok}
use mox_adv.Mandate.Trace.{Environment, ReadsBack}
use mox_adv.Mandate.Validate.{validate_payload}

pub load-found :
    (env : Environment) (id : String) (t : MandateState) (row : MandateRow) (r : MandateRecord)
    → first_row (is_mandate id) t.mandates ≡ some row
    → record_from_row env.canonical_hash env.sign env.json env.parse_time row ≡ ok r
    → load env.canonical_hash env.sign env.json env.parse_time id t ≡ ok r
load-found env id t row r found intact = load-record_from_row env id t row found ∙ intact

module _ (env : Environment) (policy : MandatePolicy) (c : Fields) where
  abbrev written : MandateRow
  written = new_mandate env.canonical_hash env.sign env.json env.parse_time policy c

  -- The record of the row that is written.
  abbrev pub written_record : MandateRecord
  written_record = record { row = written; canonical = c }

  -- The text of the row, as `json.loads` reads it.
  abbrev IsReadBack : Type 0
  IsReadBack = document env.json (env.json.dumps c) ≡ some c

  -- The row that is written is intact, and so is read.
  written-record :
      IsReadBack
      → record_from_row env.canonical_hash env.sign env.json env.parse_time written
        ≡ ok written_record
  unfolding new_mandate record_from_row is_intact
  written-record back = rw (record_from_row, back) (rw (eq_refl, eq_refl, eq_refl) refl)

  -- No mandate with this id, no row with this hash, no event of this id.
  abbrev pub IsUnused : MandateState → Type 0
  IsUnused s =
      (first_row (is_mandate written.mandate_id) s.mandates ≡ none)
      × (any_row (has_hash written.canonical_hash) s.mandates ≡ false)
      × (any_row (is_event written.mandate_id 1) s.events ≡ false)

  inserted :
      (principal : AuthenticatedPrincipal) (now : ℕ) (s : MandateState)
      → IsUnused s
      → (insert_mandate env.canonical_hash env.sign env.json env.parse_time policy c principal now
          s).0
        ≡ ok tt
  unfolding insert_mandate
  inserted principal now s (fresh, unhashed, unlogged) =
      rw (insert_mandate, unhashed, unlogged) refl

  inserted-row :
      (principal : AuthenticatedPrincipal) (now : ℕ) (s : MandateState)
      → IsUnused s
      → first_row
          (is_mandate written.mandate_id)
          (insert_mandate env.canonical_hash env.sign env.json env.parse_time policy c principal now
            s).1.mandates
        ≡ some written
  unfolding insert_mandate
  inserted-row principal now s (fresh, unhashed, unlogged) =
      rw (insert_mandate, unhashed, unlogged) (rw eq_refl refl)

  load-written :
      (t : MandateState)
      → IsReadBack
      → first_row (is_mandate written.mandate_id) t.mandates ≡ some written
      → load env.canonical_hash env.sign env.json env.parse_time written.mandate_id t
        ≡ ok written_record
  load-written t back found =
      load-found env written.mandate_id t written written_record found (written-record back)

  issued-twice :
      (again : AuthenticatedPrincipal) (later : ℕ) (t : MandateState)
      → IsReadBack
      → env.same_fields c c ≡ true
      → first_row (is_mandate written.mandate_id) t.mandates ≡ some written
      → issue_canonical env.canonical_hash env.sign env.json env.parse_time policy env.same_fields c
          again later t
        ≡ (ok written_record, t)
  unfolding issue_canonical
  issued-twice again later t back same found =
      rw (issue_canonical, found, written-record back, eq_refl, eq_refl, same) refl

  issued-once :
      (principal : AuthenticatedPrincipal) (now : ℕ) (s : MandateState)
      → IsReadBack
      → IsUnused s
      → let t =
          (insert_mandate env.canonical_hash env.sign env.json env.parse_time policy c principal now
            s).1 in
        issue_canonical env.canonical_hash env.sign env.json env.parse_time policy env.same_fields c
          principal now s
        ≡ (ok written_record, t)
  unfolding issue_canonical
  issued-once principal now s back unused =
      let t =
        (insert_mandate env.canonical_hash env.sign env.json env.parse_time policy c principal now
          s).1 in
      rw
        (
          issue_canonical,
          unused.0,
          inserted principal now s unused,
          load-written t back (inserted-row principal now s unused),
        )
        refl

  issue-valid :
      (payload : Json) (principal : AuthenticatedPrincipal) (now : ℕ) (s : MandateState)
      → validate_payload env.canonicalize env.parse_time env.parse_int policy payload principal now
        ≡ ok c
      → issue env.canonical_hash env.sign env.json env.parse_time policy env.canonicalize
          env.parse_int env.same_fields payload principal now s
        ≡ issue_canonical env.canonical_hash env.sign env.json env.parse_time policy env.same_fields
            c principal now s
  unfolding issue
  issue-valid payload principal now s valid = rw (issue, valid) refl

  -- Where `json.loads` reads a parsed document back from the text that `_canonical` writes: a payload that is
  -- valid as `c` and new to the tables is issued. `issue` writes the text, and returns the record with `c` in it;
  -- `load` parses the text of the row, checks its hash and its signature again, and returns the same record; and a
  -- second `issue` of a payload that is valid as `c` returns it and changes nothing, where a document is equal to
  -- itself.
  pub issue-load :
      (payload : Json) (principal : AuthenticatedPrincipal) (now later : ℕ) (s : MandateState)
      → ReadsBack env
      → validate_payload env.canonicalize env.parse_time env.parse_int policy payload principal now
        ≡ ok c
      → validate_payload env.canonicalize env.parse_time env.parse_int policy payload principal
          later
        ≡ ok c
      → env.same_fields c c ≡ true
      → IsUnused s
      → let (r, t) =
          issue env.canonical_hash env.sign env.json env.parse_time policy env.canonicalize
            env.parse_int env.same_fields payload principal now s in
        (r ≡ ok written_record)
        × (load env.canonical_hash env.sign env.json env.parse_time written.mandate_id t
            ≡ ok written_record)
        × (issue env.canonical_hash env.sign env.json env.parse_time policy env.canonicalize
              env.parse_int env.same_fields payload principal later t
            ≡ (ok written_record, t))
  issue-load payload principal now later s reads valid again same unused =
      let parsed =
        validate_payload-parsed env.canonicalize env.parse_time env.parse_int policy payload c
          principal now valid in
      let back : IsReadBack = ap object_of (reads c parsed) in
      let t =
        (insert_mandate env.canonical_hash env.sign env.json env.parse_time policy c principal now
          s).1 in
      let found = inserted-row principal now s unused in
      let first =
        issue-valid payload principal now s valid ∙ issued-once principal now s back unused in
      subst
        (λ outcome.
          (outcome.0 ≡ ok written_record)
          × (load env.canonical_hash env.sign env.json env.parse_time written.mandate_id outcome.1
              ≡ ok written_record)
          × (issue env.canonical_hash env.sign env.json env.parse_time policy env.canonicalize
                env.parse_int env.same_fields payload principal later outcome.1
              ≡ (ok written_record, outcome.1)))
        (sym first)
        (
          refl,
          load-written t back found,
          issue-valid payload principal later t again
              ∙ issued-twice principal later t back same found,
        )
