-- ===== src/ModelCost/Trace.antt =====
-- The ledger of src/mox_adv/model_cost.py under any sequence of its calls.
use mox_adv.Prelude.{
  ℕ, ◌≤◌, String, ◌≡◌, refl, Bool, true, false, ◌==◌, none, some, List, [], ◌∷◌, arith, sym, ◌∙◌,
  Bool-cases, inl, inr,
}
use mox_adv.Prelude.Json.{Json}
use mox_adv.Table.{first_row, any_row, update_rows}
use mox_adv.ModelCost.{
  Configuration, ModelCall, Ledger, ModelCostReservation, ProviderMetadata, CostResult, ok,
  rejected, has_id, calculate,
}
use mox_adv.ModelCost.Calls.{is_open_call, set_failed, set_settled, fail, reserve, settle}
use mox_adv.ModelCost.Totals.{Reserves}

-- A caller settles or fails a reservation that it was given.
pub data Call : Type 0 where
  reserving : String → String → String → Json → Json → Call
  settling : String → ProviderMetadata → Call
  failing : String → String → Call

pub record World : Type 0 where
  pub ledger : Ledger
  pub issued : List ModelCostReservation

abbrev pub issue :
    CostResult ModelCostReservation → List ModelCostReservation → List ModelCostReservation
issue (ok r) rs = r ∷ rs
issue (rejected _) rs = rs

abbrev pub names : String → ModelCostReservation → Bool
names id r = r.reservation_id == id

unfoldable pub step : Configuration → Call → World → World
unfolding reserve settle fail
step config (reserving id provider model input output) w =
    let (r, rows) = reserve config id provider model input output w.ledger in
    record { ledger = rows; issued = issue r w.issued }
step config (settling id metadata) w = elim (first_row (names id) w.issued) [
  | none ↦ w
  | some r ↦ record w { ledger = (settle config r metadata w.ledger).1 }
]
step config (failing id detail) w = record w { ledger = fail id detail w.ledger }

unfoldable pub run : Configuration → List Call → World → World
unfolding step
run config [] w = w
run config (call ∷ calls) w = run config calls (step config call w)

abbrev pub start : World
start = record { ledger = []; issued = [] }

-- A reservation was priced by its tariff, and an open row of its id reserves no less.
abbrev pub IsIssued : Configuration → Ledger → ModelCostReservation → Type 0
IsIssued config rows r =
    (calculate config r.provider r.model_id r.maximum_input_tokens r.maximum_output_tokens
      ≡ some r.reserved_cost)
    × (any_row (has_id r.reservation_id) rows ≡ true)
    × Reserves r.reserved_cost r.reservation_id rows

abbrev pub AllIssued : Configuration → Ledger → List ModelCostReservation → Type 0
AllIssued config rows [] = Unit
AllIssued config rows (r ∷ rs) = IsIssued config rows r × AllIssued config rows rs

pub AllIssued-map :
    (config : Configuration) (rows rows' : Ledger) (rs : List ModelCostReservation)
    → ((r : ModelCostReservation) → IsIssued config rows r → IsIssued config rows' r)
    → AllIssued config rows rs
    → AllIssued config rows' rs
AllIssued-map config rows rows' [] f h = tt
AllIssued-map config rows rows' (r ∷ rs) f h = (f r h.0, AllIssued-map config rows rows' rs f h.1)

pub first-IsIssued :
    (config : Configuration) (rows : Ledger) (id : String) (rs : List ModelCostReservation)
    (r : ModelCostReservation)
    → first_row (names id) rs ≡ some r
    → AllIssued config rows rs
    → IsIssued config rows r
first-IsIssued config rows id [] r e h = cc
first-IsIssued config rows id (x ∷ rs) r e h = elim (Bool-cases (names id x)) [
  | inl y ↦ let same : x ≡ r = ground arith in rw (sym same) h.0
  | inr n ↦ first-IsIssued config rows id rs r (ground arith) h.1
]

any-update :
    (id other : String) (f : ModelCall → ModelCall) (rows : Ledger)
    → ((row : ModelCall) → (f row).reservation_id ≡ row.reservation_id)
    → any_row (has_id id) (update_rows (is_open_call other) f rows) ≡ any_row (has_id id) rows
any-update id other f [] h = refl
any-update id other f (row ∷ rows) h = ground (arith, h row, any-update id other f rows h)

Reserves-fail :
    (x : ℕ) (id other detail : String) (rows : Ledger)
    → Reserves x id rows
    → Reserves x id (update_rows (is_open_call other) (set_failed detail) rows)
Reserves-fail x id other detail [] h = tt
Reserves-fail x id other detail (row ∷ rows) h =
    (ground (arith, h.0), Reserves-fail x id other detail rows h.1)

Reserves-settle :
    (x : ℕ) (id other : String) (charged input output : ℕ) (rows : Ledger)
    → Reserves x id rows
    → Reserves x id (update_rows (is_open_call other) (set_settled charged input output) rows)
Reserves-settle x id other charged input output [] h = tt
Reserves-settle x id other charged input output (row ∷ rows) h =
    (ground (arith, h.0), Reserves-settle x id other charged input output rows h.1)

pub Reserves-fresh :
    (x : ℕ) (id : String) (rows : Ledger) → any_row (has_id id) rows ≡ false → Reserves x id rows
Reserves-fresh x id [] h = tt
Reserves-fresh x id (row ∷ rows) h = (ground arith, Reserves-fresh x id rows (ground arith))

pub Reserves-le :
    (x y : ℕ) (id : String) (rows : Ledger) → x ≤ y → Reserves y id rows → Reserves x id rows
Reserves-le x y id [] l h = tt
Reserves-le x y id (row ∷ rows) l h = (ground (arith, h.0), Reserves-le x y id rows l h.1)

pub IsIssued-fail :
    (config : Configuration) (other detail : String) (rows : Ledger) (r : ModelCostReservation)
    → IsIssued config rows r
    → IsIssued config (fail other detail rows) r
unfolding fail
IsIssued-fail config other detail rows r h = (
  h.0,
  any-update r.reservation_id other (set_failed detail) rows (λ row. refl) ∙ h.1,
  Reserves-fail r.reserved_cost r.reservation_id other detail rows h.2,
)

pub IsIssued-settled :
    (config : Configuration) (other : String) (charged input output : ℕ) (rows : Ledger)
    (r : ModelCostReservation)
    → IsIssued config rows r
    → IsIssued config (update_rows (is_open_call other) (set_settled charged input output) rows) r
IsIssued-settled config other charged input output rows r h = (
  h.0,
  any-update r.reservation_id other (set_settled charged input output) rows (λ row. refl) ∙ h.1,
  Reserves-settle r.reserved_cost r.reservation_id other charged input output rows h.2,
)
