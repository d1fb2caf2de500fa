-- ===== src/ModelCost/Calls.antt =====
-- The transactions of src/mox_adv/model_cost.py.
use mox_adv.Prelude.{
  ℕ, ◌+◌, String, Bool, ◌&&◌, ◌||◌, Option, none, some, [], ◌∷◌, ◌==◌, ltb, leb, nat_eq,
  if◌then◌else◌,
}
use mox_adv.Prelude.Json.{Json}
use mox_adv.Table.{any_row, count_rows, update_rows}
use mox_adv.ModelCost.{
  Configuration, CostResult, Ledger, ModelCall, ModelCostReservation, ModelCostUsage,
  ProviderMetadata, calculate, charged_total, failed, has_id, integrity_error, is_open,
  limit_exhausted, natural, ok, profile_missing, rejected, reservation_invalid, reserved,
  reserved_total, settled, synthetic_input_invalid, usage_metadata_invalid, warns,
}

-- WHERE reservation_id = ? AND status = 'RESERVED'
abbrev pub is_open_call : String → ModelCall → Bool
is_open_call id row = row.reservation_id == id && is_open row.status

abbrev pub new_call : String → String → String → ℕ → ℕ → ℕ → ModelCall
new_call id provider model input output cost = record {
  reservation_id = id;
  provider = provider;
  model_id = model;
  maximum_input_tokens = input;
  maximum_output_tokens = output;
  reserved_cost = cost;
  charged_cost = none;
  input_tokens = none;
  output_tokens = none;
  status = reserved;
  detail = none;
}

-- The transaction of `reserve`; `id` is the reservation id that `uuid4` made.
unfoldable pub reserve_call :
    Configuration
    → String
    → String
    → String
    → ℕ
    → ℕ
    → ℕ
    → Ledger
    → CostResult ModelCostReservation × Ledger
unfolding charged_total reserved_total warns
reserve_call config id provider model input output cost rows =
    let charged = charged_total rows in
    let active = reserved_total rows in
    if leb config.limit charged || ltb config.limit (charged + active + cost)
    then (rejected limit_exhausted, rows)
    else if any_row (has_id id) rows
    then (rejected integrity_error, rows)
    else (
      ok (record {
        reservation_id = id;
        provider = provider;
        model_id = model;
        maximum_input_tokens = input;
        maximum_output_tokens = output;
        reserved_cost = cost;
        warning = warns config (charged + active + cost);
      }),
      new_call id provider model input output cost ∷ rows,
    )

unfoldable pub reserve :
    Configuration
    → String
    → String
    → String
    → Json
    → Json
    → Ledger
    → CostResult ModelCostReservation × Ledger
unfolding calculate
reserve config id provider model maximum_input maximum_output rows = elim (natural maximum_input) [
  | none ↦ (rejected profile_missing, rows)
  | some input ↦ elim (natural maximum_output) [
    | none ↦ (rejected profile_missing, rows)
    | some output ↦ elim (calculate config provider model input output) [
      | none ↦ (rejected profile_missing, rows)
      | some cost ↦ reserve_call config id provider model input output cost rows
    ]
  ]
]

abbrev pub set_failed : String → ModelCall → ModelCall
set_failed detail row = record row {
  charged_cost = some row.reserved_cost;
  status = failed;
  detail = some detail;
}

unfoldable pub fail : String → String → Ledger → Ledger
fail id detail rows = update_rows (is_open_call id) (set_failed detail) rows

abbrev pub set_settled : ℕ → ℕ → ℕ → ModelCall → ModelCall
set_settled charged input output row = record row {
  charged_cost = some charged;
  input_tokens = some input;
  output_tokens = some output;
  status = settled;
}

-- The UPDATE of `settle`, with its rowcount.
unfoldable pub settle_call :
    ModelCostReservation
    → ProviderMetadata
    → ℕ
    → ℕ
    → ℕ
    → Ledger
    → CostResult ProviderMetadata × Ledger
settle_call r metadata input output charged rows =
    if nat_eq (count_rows (is_open_call r.reservation_id) rows) 1
    then (
      ok (record metadata { cost = charged }),
      update_rows (is_open_call r.reservation_id) (set_settled charged input output) rows,
    )
    else (rejected reservation_invalid, rows)

-- The usage that a provider reported, if it stays within the reservation.
unfoldable pub usage_within : ModelCostReservation → ProviderMetadata → Option (ℕ × ℕ)
usage_within r metadata = elim (natural metadata.input_tokens) [
  | none ↦ none
  | some input ↦ elim (natural metadata.output_tokens) [
    | none ↦ none
    | some output ↦
        if metadata.provider == r.provider
          && (metadata.model_id == r.model_id
              && (leb input r.maximum_input_tokens && leb output r.maximum_output_tokens))
        then some (input, output)
        else none
  ]
]

-- `none` from `calculate` is the KeyError; a reservation that was issued has its tariff.
unfoldable pub settle :
    Configuration
    → ModelCostReservation
    → ProviderMetadata
    → Ledger
    → CostResult ProviderMetadata × Ledger
unfolding usage_within settle_call calculate fail
settle config r metadata rows = elim (usage_within r metadata) [
  | none ↦
      (rejected usage_metadata_invalid, fail r.reservation_id "MODEL_USAGE_METADATA_INVALID" rows)
  | some (input, output) ↦
      elim (calculate config metadata.provider metadata.model_id input output) [
        | none ↦ (rejected profile_missing, rows)
        | some charged ↦ settle_call r metadata input output charged rows
      ]
]

unfoldable pub record_synthetic_cost : String → ℕ → Ledger → CostResult (Unit {0}) × Ledger
record_synthetic_cost call_id cost rows =
    if call_id == ""
    then (rejected synthetic_input_invalid, rows)
    else if any_row (has_id call_id) rows
    then (rejected integrity_error, rows)
    else (
      ok tt,
      record (new_call call_id "synthetic" "synthetic" 0 0 0) {
        charged_cost = some cost;
        input_tokens = some 0;
        output_tokens = some 0;
        status = settled;
        detail = some "SYNTHETIC_ACCEPTANCE_COUNTER";
      }
          ∷ rows,
    )

abbrev rows_in : Ledger → ℕ
rows_in [] = 0
rows_in (_ ∷ rows) = 1 + rows_in rows

unfoldable pub usage : Configuration → Ledger → ModelCostUsage
unfolding charged_total reserved_total warns
usage config rows = record {
  charged_cost = charged_total rows;
  reserved_cost = reserved_total rows;
  call_count = rows_in rows;
  warning = warns config (charged_total rows + reserved_total rows);
  exhausted = leb config.limit (charged_total rows);
}
