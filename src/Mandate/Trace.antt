-- ===== src/Mandate/Trace.antt =====
-- src/mox_adv/mandate_store.py under any sequence of calls, between which the other users of the database may
-- do what they like to the tables of the control state and to the interrupts.
use mox_adv.Prelude.{
  ℕ, String, ◌≡◌, refl, ap, Bool, Option, none, some, List, [], ◌∷◌, ◌==◌, if◌then◌else◌,
  Bool-cases, inl, inr, arith,
}
use mox_adv.Prelude.Json.{Json, Fields, object}
use mox_adv.Table.{first_row}
use mox_adv.Control.Principal.{AuthenticatedPrincipal}
use mox_adv.Control.Rows.{PreparedChange}
use mox_adv.Control.State.{DurableControlState}
use mox_adv.Policy.Approval.{Step}
use mox_adv.Mandate.{JsonText, document, MandateRow, MandateState, MandatePolicy}
use mox_adv.Mandate.Execute.{reserve_execution, claim_execution}
use mox_adv.Mandate.Lifecycle.{issue, activate, revoke}
use mox_adv.Mandate.Recheck.{record_recheck_unknown, record_recheck_applied}
use mox_adv.Mandate.Records.{is_mandate}
use mox_adv.Mandate.Results.{some-injective}
use mox_adv.Mandate.Terms.{MandateTerms, terms_of}

-- The functions of the standard library and of the signer that the methods call. `canonicalize` is
-- `json.loads(_canonical(payload))`, which can fail; `json` writes and reads what it gave.
pub record Environment : Type 0 where
  pub canonical_hash : Json → String
  pub sign : String → String
  pub json : JsonText
  pub parse_time : String → Option ℕ
  pub canonicalize : Fields → Option Fields
  pub parse_int : String → Option Step
  pub same_fields : Fields → Fields → Bool

-- `elsewhere` is what others leave of the control state; the callbacks of `send_once` are further calls.
pub data Call : Type 0 where
  issuing : Json → AuthenticatedPrincipal → ℕ → Call
  activating : String → AuthenticatedPrincipal → ℕ → Call
  revoking : String → String → AuthenticatedPrincipal → ℕ → Call
  reserving claiming rechecking_unknown rechecking_applied : PreparedChange → String → ℕ → Call
  elsewhere : DurableControlState → Call

abbrev pub start : DurableControlState → MandateState
start control = record {
  control = control;
  mandates = [];
  events = [];
  consumptions = [];
  rechecks = [];
}

module _ (env : Environment) (policy : MandatePolicy) where
  unfoldable pub step : Call → MandateState → MandateState
  unfolding issue activate revoke reserve_execution claim_execution record_recheck_unknown
      record_recheck_applied
  step (issuing payload principal now) s =
      (issue env.canonical_hash env.sign env.json env.parse_time policy env.canonicalize
        env.parse_int env.same_fields payload principal now s).1
  step (activating id principal now) s =
      (activate env.canonical_hash env.sign env.json env.parse_time policy id principal now s).1
  step (revoking id reason principal now) s =
      (revoke env.canonical_hash env.sign env.json env.parse_time policy id reason principal now
        s).1
  step (reserving prepared id now) s =
      (reserve_execution env.canonical_hash env.sign env.json env.parse_time prepared id now s).1
  step (claiming prepared id now) s =
      (claim_execution env.canonical_hash env.sign env.json env.parse_time prepared id now s).1
  step (rechecking_unknown prepared id now) s =
      (record_recheck_unknown env.canonical_hash env.sign env.json env.parse_time prepared id now
        s).1
  step (rechecking_applied prepared id now) s =
      (record_recheck_applied env.canonical_hash env.sign env.json env.parse_time prepared id now
        s).1
  step (elsewhere control) s = record s { control = control }

  unfoldable pub run : List Call → MandateState → MandateState
  unfolding step
  run [] s = s
  run (call ∷ calls) s = run calls (step call s)

-- A document that `json.loads` gave for a payload.
abbrev pub IsParsed : Environment → Fields → Type 0
IsParsed env c = (fields : Fields) × (env.canonicalize fields ≡ some c)

-- What `json` is relied on for: a parsed document, written by `_canonical`, is read back by `json.loads`.
abbrev pub ReadsBack : Environment → Type 0
ReadsBack env = (c : Fields) → IsParsed env c → env.json.loads (env.json.dumps c) ≡ some (object c)

-- The terms of a mandate.
abbrev pub row_terms : JsonText → (String → Option ℕ) → MandateRow → Option MandateTerms
row_terms json parse_time row = elim (document json row.canonical_json) [
  | none ↦ none
  | some c ↦ terms_of parse_time c
]

pub document-row_terms :
    (json : JsonText) (parse_time : String → Option ℕ) (row : MandateRow) (c : Fields)
    → document json row.canonical_json ≡ some c
    → row_terms json parse_time row ≡ terms_of parse_time c
document-row_terms json parse_time row c e = rw (row_terms, e) refl

abbrev pub terms_in :
    JsonText → (String → Option ℕ) → List MandateRow → String → Option MandateTerms
terms_in json parse_time [] id = none
terms_in json parse_time (row ∷ rows) id =
    if row.mandate_id == id then row_terms json parse_time row else terms_in json parse_time rows id

pub first_row-terms_in :
    (json : JsonText) (parse_time : String → Option ℕ) (rows : List MandateRow) (id : String)
    (row : MandateRow)
    → first_row (is_mandate id) rows ≡ some row
    → terms_in json parse_time rows id ≡ row_terms json parse_time row
first_row-terms_in json parse_time [] id row h = ground arith
first_row-terms_in json parse_time (other ∷ rows) id row h =
    elim (Bool-cases (other.mandate_id == id)) [
      | inl e ↦
          rw e (ap (λ r. row_terms json parse_time r) (some-injective other row (ground arith)))
      | inr e ↦ rw e (first_row-terms_in json parse_time rows id row (ground arith))
    ]
