-- ===== src/ModelCost/Totals.antt =====
-- How the statements of src/mox_adv/model_cost.py move the totals of the ledger.
use mox_adv.Prelude.{
  ℕ, ◌+◌, ◌*◌, ◌≤◌, String, ◌≡◌, true, some, [], ◌∷◌, arith, Option-cases, inl, inr,
}
use mox_adv.Table.{update_rows}
use mox_adv.ModelCost.{
  Configuration, Tariff, Ledger, charged_total, reserved_total, calculate, cost_at, find_tariff,
}
use mox_adv.ModelCost.Calls.{is_open_call, set_settled, fail}

-- What the ledger counts against the limit.
abbrev pub committed : Ledger → ℕ
committed rows = charged_total rows + reserved_total rows

-- What the open rows of an id have reserved is at least `x`.
abbrev pub Reserves : ℕ → String → Ledger → Type 0
Reserves x id [] = Unit
Reserves x id (row ∷ rows) =
    (is_open_call id row ≡ true → x ≤ row.reserved_cost) × Reserves x id rows

pub committed-fail :
    (id detail : String) (rows : Ledger) → committed (fail id detail rows) ≤ committed rows
unfolding charged_total reserved_total fail
committed-fail id detail [] = omega arith
committed-fail id detail (row ∷ rows) = ground (arith, committed-fail id detail rows)

pub committed-settle :
    (id : String) (charged input output : ℕ) (rows : Ledger)
    → Reserves charged id rows
    → committed (update_rows (is_open_call id) (set_settled charged input output) rows)
      ≤ committed rows
unfolding charged_total reserved_total
committed-settle id charged input output [] h = omega arith
committed-settle id charged input output (row ∷ rows) h =
    ground (arith, h.0, committed-settle id charged input output rows h.1)

mul_mono : (a b x : ℕ) → a ≤ b → a * x ≤ b * x
mul_mono a b x h = grind arith

cost_at_mono :
    (x : ℕ) (t : Tariff) (i j o p : ℕ) → i ≤ j → o ≤ p → cost_at x t i o ≤ cost_at x t j p
cost_at_mono x t i j o p hi ho =
    let a : i * t.input_rate ≤ j * t.input_rate = mul_mono i j t.input_rate hi in
    let b : o * t.output_rate ≤ p * t.output_rate = mul_mono o p t.output_rate ho in
    mul_mono (i * t.input_rate + o * t.output_rate) (j * t.input_rate + p * t.output_rate) x
      (omega arith)

-- Fewer tokens of one model cost no more.
pub calculate_mono :
    (config : Configuration) (provider model : String) (i j o p a b : ℕ)
    → i ≤ j
    → o ≤ p
    → calculate config provider model i o ≡ some a
    → calculate config provider model j p ≡ some b
    → a ≤ b
unfolding calculate
calculate_mono config provider model i j o p a b hi ho ha hb =
    elim (Option-cases (find_tariff provider model config.tariffs)) [
      | inl e ↦ ground arith
      | inr (t, e) ↦ ground (arith, cost_at_mono config.exchange_rate t i j o p hi ho)
    ]
