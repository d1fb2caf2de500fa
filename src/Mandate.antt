-- ===== src/Mandate.antt =====
-- The authority of a mandate: src/mox_adv/mandate_store.py, `DurableMandateAuthority`, which shares
-- the database of src/mox_adv/control_state.py, with values of src/mox_adv/autonomy_contracts.py.
pub mod State
pub mod Terms
pub mod Validate
pub mod Records
pub mod Lifecycle
pub mod Quota
pub mod Execute
pub mod Recheck
pub mod Results
pub mod Bounds
pub mod Lawful
pub mod Keeps
pub mod Trace
pub mod Sequences
pub mod Methods
pub mod Invariant
pub mod Quotas
pub mod Refusals
pub mod Revocation
pub mod Revoked
pub mod Exact
pub mod RoundTrip
pub mod Unique
pub mod Revocable
pub mod Aborted
pub mod History
pub mod Samples
mod Tests
use mox_adv.Prelude.{ℕ, String, Bool, Option, none, some, List}
use mox_adv.Prelude.Json.{Json, Fields, object}
use mox_adv.Control.Rows.{ExecutionStatus}
use mox_adv.Control.State.{DurableControlState}

pub data MandateStatus : Type 0 where
  issued active revoked : MandateStatus

pub record MandateRow : Type 0 where
  pub mandate_id : String
  pub canonical_json : String
  pub canonical_hash : String
  pub signature : String
  pub status : MandateStatus
  pub activation_version : ℕ
  pub revocation_version : ℕ
  pub activated_at : Option ℕ
  pub revoked_at : Option ℕ
  pub revocation_reason : Option String

-- `MandateRecord`: the columns, and the document that the text of the row holds.
pub record MandateRecord : Type 0 where
  pub row : MandateRow
  pub canonical : Fields

-- `_canonical` of a parsed document, and `json.loads`.
pub record JsonText : Type 0 where
  pub dumps : Fields → String
  pub loads : String → Option Json

-- `isinstance(canonical, Mapping)`
abbrev pub object_of : Option Json → Option Fields
object_of (some (object c)) = some c
object_of _ = none

-- The document of a text, which has to be an object.
abbrev pub document : JsonText → String → Option Fields
document json text = object_of (json.loads text)

pub data EventType : Type 0 where
  was_issued was_activated was_revoked : EventType

pub record EventRow : Type 0 where
  pub mandate_id : String
  pub event_version : ℕ
  pub event_type : EventType
  pub principal : String
  pub authentication : String
  pub reason : Option String
  pub occurred_at : ℕ

pub record ConsumptionRow : Type 0 where
  pub execution_key : String
  pub mandate_id : String
  pub action : String
  pub target : String
  pub monetary_exposure_rub : ℕ
  pub step_change_percent : ℕ
  pub reserved_at : ℕ
  pub observation_until : ℕ

pub record RecheckRow : Type 0 where
  pub execution_key : String
  pub attempt : ℕ
  pub mandate_id : String
  pub previous_status : ExecutionStatus
  pub requested_at : ℕ

-- The tables, beside those of the control state.
pub record MandateState : Type 0 where
  pub control : DurableControlState
  pub mandates : List MandateRow
  pub events : List EventRow
  pub consumptions : List ConsumptionRow
  pub rechecks : List RecheckRow

-- The entries of the policy file that a mandate is held against. The KPI is a name and a maximum.
pub record MandatePolicy : Type 0 where
  pub policy_id : String
  pub organization : String
  pub connection : String
  pub direct_account : String
  pub issuer_identity : String
  pub issuer_authentication : String
  pub canonical_fields : List String
  pub allowed_action_classes : List String
  pub prohibited_action_classes : List String
  pub stop_conditions : List String
  pub kpi_name : String
  pub kpi_target_maximum : ℕ
  pub minimum_clicks : ℕ
  pub minimum_conversions : ℕ
  pub mandate_ttl_hours : ℕ
  pub mandate_total_exposure_rub : ℕ
  pub mandate_daily_exposure_rub : ℕ
  pub maximum_step_percent : ℕ
  pub maximum_daily_cumulative_change_percent : ℕ
  pub platform_weekly_spend_rub : ℕ
  pub cooldown_hours : ℕ
  pub observation_window_hours : ℕ
  pub mandate_actions_per_24h : ℕ
