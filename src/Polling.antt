-- ===== src/Polling.antt =====
-- src/mox_adv/monitoring.py (MonitoringStore): the lease of a poll, the versions of the snapshots and
-- the proposals that a poll leaves. `canonical_bytes` is `json.dumps` with sorted keys, `sha256` the
-- hexadecimal SHA-256 of a text. Times are in microseconds, as ISO texts of UTC order the same way.
pub mod Persist
pub mod Trace
pub mod Snapshots
pub mod Fencing
pub mod Lease
mod Tests
use mox_adv.Prelude.{
  ℕ, suc, ◌+◌, ◌-◌, String, Bool, true, false, not, ◌&&◌, ◌||◌, Option, none, some, List, [], ◌∷◌,
  ◌==◌, ltb, leb, nat_eq, if◌then◌else◌,
}
use mox_adv.Prelude.Json.{Json, Fields, text, object, end, field}
use mox_adv.Prelude.Text.{take}
use mox_adv.Table.{first_row, any_row}

pub record PollClaim : Type 0 where
  pub token : String
  pub generation : ℕ

-- The one row of `scheduler_state`.
pub record PollRow : Type 0 where
  pub last_completed_at : Option ℕ
  pub claim_token : Option String
  pub claim_started_at : Option ℕ
  pub claim_generation : ℕ
  pub lease_expires_at : Option ℕ

pub record SnapshotRow : Type 0 where
  pub snapshot_id : String
  pub series_key : String
  pub version : ℕ
  pub canonical_bytes : String

pub record ProposalRow : Type 0 where
  pub proposal_id : String
  pub snapshot_id : String
  pub reason_code : String
  pub created_at : ℕ
  pub active : Bool

pub record MonitoringState : Type 0 where
  pub scheduler : Option PollRow
  pub snapshots : List SnapshotRow
  pub proposals : List ProposalRow

pub record SnapshotVersion : Type 0 where
  pub snapshot_id : String
  pub version : ℕ
  pub deduplicated : Bool

pub record ActiveProposal : Type 0 where
  pub proposal_id : String
  pub snapshot_id : String
  pub reason_code : String
  pub created_at : ℕ
  pub deduplicated : Bool

-- What the store reads of an `IntegratedPerformanceSnapshot`; `document` is its `as_dict`.
pub record Snapshot : Type 0 where
  pub snapshot_id : String
  pub organization : String
  pub connection : String
  pub account : String
  pub campaign : String
  pub counter : String
  pub goal : String
  pub period_start : String
  pub period_end : String
  pub timezone : String
  pub direct_attribution : String
  pub metrika_attribution : String
  pub policy_version : String
  pub document : Json

-- `integrity_error` is sqlite3's for a second row with a primary key.
pub data StoreFailure : Type 0 where
  claim_lost snapshot_changed snapshot_missing integrity_error : StoreFailure

pub data StoreResult (A : Type 0) : Type 0 where
  done : A → StoreResult A
  failed : StoreFailure → StoreResult A

-- The return of `claim_poll` before its UPDATE: a lease that runs, or an interval that is not over.
abbrev pub lease_runs : ℕ → PollRow → Bool
lease_runs now row = elim row.claim_token [
  | none ↦ false
  | some _ ↦ elim row.lease_expires_at [ none ↦ false | some until ↦ ltb now until ]
]

-- `timestamp - last_completed_at < interval`, without a subtraction that could be negative.
abbrev pub too_early : ℕ → ℕ → PollRow → Bool
too_early now interval row = elim row.last_completed_at [
  | none ↦ false
  | some last ↦ ltb now (last + interval)
]

unfoldable pub claim_poll : String → ℕ → ℕ → ℕ → Option PollRow → Option PollClaim × Option PollRow
claim_poll token now interval lease_timeout none = (
  some (record { token = token; generation = 1 }),
  some (record {
    last_completed_at = none;
    claim_token = some token;
    claim_started_at = some now;
    claim_generation = 1;
    lease_expires_at = some (now + lease_timeout);
  }),
)
claim_poll token now interval lease_timeout (some row) =
    if lease_runs now row || too_early now interval row then (none, some row) else (
      some (record { token = token; generation = row.claim_generation + 1 }),
      some (record row {
        claim_token = some token;
        claim_started_at = some now;
        claim_generation = row.claim_generation + 1;
        lease_expires_at = some (now + lease_timeout);
      }),
    )

-- claim_token = ? AND claim_generation = ?
abbrev pub holds : PollClaim → PollRow → Bool
holds claim row =
    elim row.claim_token [ none ↦ false | some token ↦ token == claim.token ]
    && nat_eq row.claim_generation claim.generation

-- … AND lease_expires_at > ?
abbrev pub holds_at : PollClaim → ℕ → PollRow → Bool
holds_at claim now row =
    holds claim row && elim row.lease_expires_at [ none ↦ false | some until ↦ ltb now until ]

unfoldable pub heartbeat_poll :
    PollClaim → ℕ → ℕ → Option PollRow → StoreResult (Unit {0}) × Option PollRow
heartbeat_poll claim now lease_timeout none = (failed claim_lost, none)
heartbeat_poll claim now lease_timeout (some row) =
    if holds_at claim now row
    then (done tt, some (record row { lease_expires_at = some (now + lease_timeout) }))
    else (failed claim_lost, some row)

abbrev pub cleared : PollRow → PollRow
cleared row = record row { claim_token = none; claim_started_at = none; lease_expires_at = none }

unfoldable pub release_poll : PollClaim → Option PollRow → Option PollRow
release_poll claim none = none
release_poll claim (some row) = if holds claim row then some (cleared row) else some row

unfoldable pub require_claim : PollClaim → ℕ → Option PollRow → Bool
require_claim claim now none = false
require_claim claim now (some row) = holds_at claim now row

-- The last UPDATE of `persist_poll`, `none` for a rowcount of 0.
unfoldable pub complete : PollClaim → ℕ → Option PollRow → Option PollRow
complete claim now none = none
complete claim now (some row) =
    if holds claim row then some (record (cleared row) { last_completed_at = some now }) else none

-- COALESCE(MAX(version), 0) … WHERE series_key = ?
unfoldable pub max_version : String → List SnapshotRow → ℕ
max_version key [] = 0
max_version key (row ∷ rows) =
    let rest = max_version key rows in
    if row.series_key == key && ltb rest row.version then row.version else rest

abbrev pub is_snapshot : String → SnapshotRow → Bool
is_snapshot id row = row.snapshot_id == id

unfoldable pub load_snapshot_bytes : String → List SnapshotRow → StoreResult String
load_snapshot_bytes id rows = elim (first_row (is_snapshot id) rows) [
  | none ↦ failed snapshot_missing
  | some row ↦ done row.canonical_bytes
]

abbrev pub is_active_for : String → String → ProposalRow → Bool
is_active_for id reason row = row.snapshot_id == id && (row.reason_code == reason && row.active)

abbrev pub has_proposal_id : String → ProposalRow → Bool
has_proposal_id id row = row.proposal_id == id

abbrev pub series_identity : Snapshot → Json
series_identity s = object (
    field "scope"
      (object (
        field "organization" (text s.organization) (
          field "connection" (text s.connection) (
            field "account" (text s.account) (
              field "campaign" (text s.campaign)
                (field "counter" (text s.counter) (field "goal" (text s.goal) end)))))))
      (field "period_start" (text s.period_start) (
        field "period_end" (text s.period_end) (
          field "timezone" (text s.timezone) (
            field "attribution"
              (object (
                field "direct" (text s.direct_attribution)
                  (field "metrika" (text s.metrika_attribution) end)))
              (field "policy_version" (text s.policy_version) end))))))
