-- ===== src/ModelCost.antt =====
-- src/mox_adv/model_cost.py: the ledger that caps what model calls may cost.
-- Decimal amounts are whole numbers of one small unit: rates in fractions of a dollar per million
-- tokens, the exchange rate and the limit in the fractions that make `_calculate` exact. They have no
-- more than the 28 digits of Python's decimals.
pub mod Calls
pub mod Totals
pub mod Trace
pub mod Budget
pub mod Settlement
mod Tests
use mox_adv.Prelude.{
  ℕ, ◌+◌, ◌*◌, String, Bool, true, false, not, ◌&&◌, ◌||◌, Option, none, some, List, [], ◌∷◌, ◌==◌,
  ltb, leb, nat_eq, if◌then◌else◌,
}
use mox_adv.Prelude.Json.{Json, int}
use mox_adv.Table.{any_row, count_rows, update_rows}

pub data CostReason : Type 0 where
  configuration_invalid configuration_changed profile_missing limit_exhausted : CostReason
  usage_metadata_invalid reservation_invalid synthetic_input_invalid integrity_error : CostReason

pub data CostResult (A : Type 0) : Type 0 where
  ok : A → CostResult A
  rejected : CostReason → CostResult A

pub record Tariff : Type 0 where
  pub provider : String
  pub model_id : String
  pub input_rate : ℕ
  pub output_rate : ℕ

-- `warning_percent` is a number of `percent_scale`-ths of a percent.
pub record Configuration : Type 0 where
  pub limit : ℕ
  pub warning_percent : ℕ
  pub percent_scale : ℕ
  pub exchange_rate : ℕ
  pub tariffs : List Tariff

pub data CallStatus : Type 0 where
  reserved settled failed : CallStatus

pub record ModelCall : Type 0 where
  pub reservation_id : String
  pub provider : String
  pub model_id : String
  pub maximum_input_tokens : ℕ
  pub maximum_output_tokens : ℕ
  pub reserved_cost : ℕ
  pub charged_cost : Option ℕ
  pub input_tokens : Option ℕ
  pub output_tokens : Option ℕ
  pub status : CallStatus
  pub detail : Option String

abbrev pub Ledger : Type 0
Ledger = List ModelCall

pub record ModelCostReservation : Type 0 where
  pub reservation_id : String
  pub provider : String
  pub model_id : String
  pub maximum_input_tokens : ℕ
  pub maximum_output_tokens : ℕ
  pub reserved_cost : ℕ
  pub warning : Bool

-- The token counts are whatever the provider reports.
pub record ProviderMetadata : Type 0 where
  pub provider : String
  pub model_id : String
  pub input_tokens : Json
  pub output_tokens : Json
  pub cost : ℕ
  pub duration_ms : ℕ

pub record ModelCostUsage : Type 0 where
  pub charged_cost : ℕ
  pub reserved_cost : ℕ
  pub call_count : ℕ
  pub warning : Bool
  pub exhausted : Bool

abbrev is_tariff : String → String → Tariff → Bool
is_tariff provider model tariff = tariff.provider == provider && tariff.model_id == model

-- The loop of `__init__` over the tariffs: keys are not empty and not repeated.
unfoldable pub valid_tariffs : List Tariff → Bool
valid_tariffs [] = true
valid_tariffs (t ∷ ts) =
    not (t.provider == "")
    && (not (t.model_id == "")
        && (not (any_row (is_tariff t.provider t.model_id) ts) && valid_tariffs ts))

abbrev is_empty {ℓ} : {A : Type ℓ} → List A → Bool
is_empty [] = true
is_empty (_ ∷ _) = false

-- The checks of `__init__` on the amounts and the tariffs.
unfoldable pub configure : Configuration → CostResult Configuration
unfolding valid_tariffs
configure config =
    if ltb 0 config.limit
      && (ltb 0 config.warning_percent
          && (ltb config.warning_percent (100 * config.percent_scale)
              && (ltb 0 config.exchange_rate
                  && (not (is_empty config.tariffs) && valid_tariffs config.tariffs))))
    then ok config
    else rejected configuration_invalid

-- The configuration row: written once, and compared at every later start.
unfoldable pub initialize :
    String → String → Option (String × String) → CostResult (Unit {0}) × Option (String × String)
initialize canonical hash none = (ok tt, some (canonical, hash))
initialize canonical hash (some (canonical_json, canonical_hash)) =
    if canonical_json == canonical && canonical_hash == hash
    then (ok tt, some (canonical_json, canonical_hash))
    else (rejected configuration_changed, some (canonical_json, canonical_hash))

unfoldable pub find_tariff : String → String → List Tariff → Option Tariff
find_tariff provider model [] = none
find_tariff provider model (t ∷ ts) =
    if is_tariff provider model t then some t else find_tariff provider model ts

abbrev pub cost_at : ℕ → Tariff → ℕ → ℕ → ℕ
cost_at exchange_rate t input output =
    (input * t.input_rate + output * t.output_rate) * exchange_rate

-- `none` is the KeyError of a pair that has no tariff.
unfoldable pub calculate : Configuration → String → String → ℕ → ℕ → Option ℕ
unfolding find_tariff
calculate config provider model input output = elim (find_tariff provider model config.tariffs) [
  | none ↦ none
  | some t ↦ some (cost_at config.exchange_rate t input output)
]

abbrev pub or_zero : Option ℕ → ℕ
or_zero none = 0
or_zero (some n) = n

abbrev pub is_open : CallStatus → Bool
is_open reserved = true
is_open _ = false

unfoldable pub charged_total : Ledger → ℕ
charged_total [] = 0
charged_total (row ∷ rows) = or_zero row.charged_cost + charged_total rows

unfoldable pub reserved_total : Ledger → ℕ
reserved_total [] = 0
reserved_total (row ∷ rows) =
    (if is_open row.status then row.reserved_cost else 0) + reserved_total rows

unfoldable pub warns : Configuration → ℕ → Bool
warns config total =
    leb (config.limit * config.warning_percent) (total * 100 * config.percent_scale)

-- An int that is no bool and not negative.
unfoldable pub natural : Json → Option ℕ
natural (int n) = some n
natural _ = none

abbrev pub has_id : String → ModelCall → Bool
has_id id row = row.reservation_id == id
