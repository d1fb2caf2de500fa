-- ===== src/Mandate/History.antt =====
-- The event log of src/mox_adv/mandate_store.py and the rows of the mandates.
pub mod Statements
pub mod Methods
pub mod Runs
use mox_adv.Prelude.{
  ℕ, ◌+◌, ◌≤◌, ◌≡◌, Option, none, some, List, [], ◌∷◌, ◌==◌, String, Bool, nat_eq, if◌then◌else◌,
}
use mox_adv.Table.{first_row, count_rows}
use mox_adv.Mandate.{
  MandateStatus, issued, active, revoked, MandateRow, MandateState, EventRow, EventType, was_issued,
  was_activated, was_revoked,
}
use mox_adv.Mandate.Records.{is_mandate}

-- The types of the events of a mandate, the latest first.
abbrev pub log : String → List EventRow → List EventType
log id [] = []
log id (event ∷ events) =
    let rest = log id events in if event.mandate_id == id then event.event_type ∷ rest else rest

abbrev pub is_about : String → EventRow → Bool
is_about id event = event.mandate_id == id

-- What happened to a mandate of this status and activation version.
abbrev pub story : MandateStatus → ℕ → List EventType
story issued activations = was_issued ∷ []
story active activations = was_activated ∷ was_issued ∷ []
story revoked activations =
    if nat_eq activations 0
    then was_revoked ∷ was_issued ∷ []
    else was_revoked ∷ was_activated ∷ was_issued ∷ []

-- The versions that a row of this status has.
abbrev pub HasVersions : MandateStatus → ℕ → ℕ → Type 0
HasVersions issued activations revocations = (activations ≡ 0) × (revocations ≡ 0)
HasVersions active activations revocations = (activations ≡ 1) × (revocations ≡ 0)
HasVersions revoked activations revocations = (activations ≤ 1) × (revocations ≡ 1)

-- The log of a mandate is its story; there is none without a row.
abbrev pub IsTold : Option MandateRow → List EventType → Type 0
IsTold none events = events ≡ []
IsTold (some row) events =
    (events ≡ story row.status row.activation_version)
    × HasVersions row.status row.activation_version row.revocation_version

-- The events of each mandate are numbered from 1 on, without a gap.
abbrev pub IsNumbered : List EventRow → Type 0
IsNumbered [] = Unit
IsNumbered (event ∷ events) =
    (event.event_version ≡ count_rows (is_about event.mandate_id) events + 1) × IsNumbered events

abbrev pub IsHistory : MandateState → Type 0
IsHistory s =
    IsNumbered s.events
    × ((id : String) → IsTold (first_row (is_mandate id) s.mandates) (log id s.events))
