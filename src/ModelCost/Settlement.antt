-- ===== src/ModelCost/Settlement.antt =====
-- That src/mox_adv/model_cost.py settles a reservation once.
use mox_adv.Prelude.{
  ℕ, String, ◌≡◌, refl, Bool, true, false, [], ◌∷◌, arith, Option-cases, Bool-cases, inl, inr,
  nat_eq,
}
use mox_adv.Table.{count_rows, update_rows}
use mox_adv.Table.Counts.{count-update-drop}
use mox_adv.ModelCost.{
  Configuration, ModelCall, Ledger, ModelCostReservation, ProviderMetadata, CostResult, ok,
  rejected, reservation_invalid, calculate,
}
use mox_adv.ModelCost.Calls.{
  is_open_call, set_settled, set_failed, fail, usage_within, settle_call, settle,
}

abbrev pub is_settled : CostResult ProviderMetadata → Bool
is_settled (ok _) = true
is_settled (rejected _) = false

update-none :
    (p : ModelCall → Bool) (f : ModelCall → ModelCall) (rows : Ledger)
    → count_rows p rows ≡ 0
    → update_rows p f rows ≡ rows
update-none p f [] h = refl
update-none p f (row ∷ rows) h = ground (arith, update-none p f rows)

-- Without an open row, `fail` writes nothing.
fail-none :
    (id detail : String) (rows : Ledger)
    → count_rows (is_open_call id) rows ≡ 0
    → fail id detail rows ≡ rows
unfolding fail
fail-none id detail rows h = update-none (is_open_call id) (set_failed detail) rows h

settle_call-none :
    (r : ModelCostReservation) (metadata : ProviderMetadata) (input output charged : ℕ)
    (rows : Ledger)
    → count_rows (is_open_call r.reservation_id) rows ≡ 0
    → settle_call r metadata input output charged rows ≡ (rejected reservation_invalid, rows)
unfolding settle_call
settle_call-none r metadata input output charged rows h = rw h refl

settle-none :
    (config : Configuration) (r : ModelCostReservation) (metadata : ProviderMetadata)
    (rows : Ledger)
    → count_rows (is_open_call r.reservation_id) rows ≡ 0
    → (is_settled (settle config r metadata rows).0 ≡ false)
      × ((settle config r metadata rows).1 ≡ rows)
unfolding settle calculate
settle-none config r metadata rows h = elim (Option-cases (usage_within r metadata)) [
  | inl e ↦ rw (settle, e) (refl, fail-none r.reservation_id "MODEL_USAGE_METADATA_INVALID" rows h)
  | inr ((input, output), e) ↦
      elim (Option-cases (calculate config metadata.provider metadata.model_id input output)) [
        | inl c ↦ rw (settle, e, c) (refl, refl)
        | inr (charged, c) ↦
            rw (settle, e, c)
              (rw (settle_call-none r metadata input output charged rows h) (refl, refl))
      ]
]

settle_call-closes :
    (r : ModelCostReservation) (metadata : ProviderMetadata) (input output charged : ℕ)
    (rows : Ledger)
    → is_settled (settle_call r metadata input output charged rows).0 ≡ true
    → count_rows
        (is_open_call r.reservation_id)
        (settle_call r metadata input output charged rows).1
      ≡ 0
unfolding settle_call
settle_call-closes r metadata input output charged rows h =
    elim (Bool-cases (nat_eq (count_rows (is_open_call r.reservation_id) rows) 1)) [
      | inl e ↦
          rw (settle_call, e)
            (omega (
              arith,
              count-update-drop (is_open_call r.reservation_id) (is_open_call r.reservation_id)
                  (set_settled charged input output) rows (λ row k. (k, ground arith)),
            ))
      | inr e ↦ ground arith
    ]

settle-closes :
    (config : Configuration) (r : ModelCostReservation) (metadata : ProviderMetadata)
    (rows : Ledger)
    → is_settled (settle config r metadata rows).0 ≡ true
    → count_rows (is_open_call r.reservation_id) (settle config r metadata rows).1 ≡ 0
unfolding settle calculate
settle-closes config r metadata rows h = elim (Option-cases (usage_within r metadata)) [
  | inl e ↦ ground arith
  | inr ((input, output), e) ↦
      elim (Option-cases (calculate config metadata.provider metadata.model_id input output)) [
        | inl c ↦ ground arith
        | inr (charged, c) ↦
            rw (settle, e, c)
              (settle_call-closes r metadata input output charged rows (ground arith))
      ]
]

-- A reservation that was settled is closed: whatever the provider reports the second time, another
-- settlement is rejected, and neither it nor a failure changes the ledger.
pub settled_once :
    (config : Configuration) (r : ModelCostReservation) (metadata again : ProviderMetadata)
    (detail : String) (rows : Ledger)
    → is_settled (settle config r metadata rows).0 ≡ true
    → let after = (settle config r metadata rows).1 in
      (is_settled (settle config r again after).0 ≡ false)
      × ((settle config r again after).1 ≡ after)
      × (fail r.reservation_id detail after ≡ after)
settled_once config r metadata again detail rows h =
    let closed = settle-closes config r metadata rows h in
    let second = settle-none config r again (settle config r metadata rows).1 closed in
    (second.0, second.1, fail-none r.reservation_id detail (settle config r metadata rows).1 closed)
