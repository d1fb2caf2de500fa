-- ===== src/ModelCost/Budget.antt =====
-- The limit of src/mox_adv/model_cost.py over any sequence of calls.
use mox_adv.Prelude.{
  ℕ, ◌+◌, ◌≤◌, String, ◌≡◌, refl, Bool, true, false, ◌==◌, some, List, [], ◌∷◌, arith, eq_iff,
  eq_refl, sym, nat_eq, leb, ltb, ◌||◌, Option-cases, Bool-cases, inl, inr,
}
use mox_adv.Prelude.Json.{Json}
use mox_adv.Table.{first_row, any_row, count_rows}
use mox_adv.ModelCost.{
  Configuration, ModelCall, Ledger, ModelCostReservation, ProviderMetadata, natural, charged_total,
  reserved_total, has_id, calculate, warns,
}
use mox_adv.ModelCost.Calls.{
  is_open_call, new_call, fail, reserve_call, reserve, usage_within, settle_call, settle, usage,
}
use mox_adv.ModelCost.Totals.{committed, committed-fail, committed-settle, calculate_mono}
use mox_adv.ModelCost.Trace.{
  Call, reserving, settling, failing, World, step, run, start, issue, names, IsIssued, AllIssued,
  AllIssued-map, first-IsIssued, Reserves-fresh, Reserves-le, IsIssued-fail, IsIssued-settled,
}

-- What is committed stays within the limit, and every reservation is backed by the ledger.
abbrev pub IsWithin : Configuration → World → Type 0
IsWithin config w = (committed w.ledger ≤ config.limit) × AllIssued config w.ledger w.issued

-- A cautious UPDATE keeps what was issued and commits no more.
abbrev Keeps : Configuration → Ledger → Ledger → Type 0
Keeps config rows after =
    (committed after ≤ committed rows)
    × ((r : ModelCostReservation) → IsIssued config rows r → IsIssued config after r)

Keeps-IsWithin :
    (config : Configuration) (w : World) (after : Ledger)
    → Keeps config w.ledger after
    → IsWithin config w
    → IsWithin config (record w { ledger = after })
Keeps-IsWithin config w after k h =
    (omega (arith, k.0, h.0), AllIssued-map config w.ledger after w.issued k.1 h.1)

fail-Keeps :
    (config : Configuration) (id detail : String) (rows : Ledger)
    → Keeps config rows (fail id detail rows)
fail-Keeps config id detail rows =
    (committed-fail id detail rows, IsIssued-fail config id detail rows)

usage_within-le :
    (r : ModelCostReservation) (metadata : ProviderMetadata) (input output : ℕ)
    → usage_within r metadata ≡ some (input, output)
    → ((metadata.provider == r.provider) ≡ true)
      × ((metadata.model_id == r.model_id) ≡ true)
      × (input ≤ r.maximum_input_tokens)
      × (output ≤ r.maximum_output_tokens)
unfolding usage_within
usage_within-le r metadata input output h = (ground arith, ground arith, ground arith, ground arith)

settle_call-Keeps :
    (config : Configuration) (r : ModelCostReservation) (metadata : ProviderMetadata)
    (input output charged : ℕ) (rows : Ledger)
    → charged ≤ r.reserved_cost
    → IsIssued config rows r
    → Keeps config rows (settle_call r metadata input output charged rows).1
unfolding settle_call
settle_call-Keeps config r metadata input output charged rows l h =
    elim (Bool-cases (nat_eq (count_rows (is_open_call r.reservation_id) rows) 1)) [
      | inl e ↦ rw e (
        committed-settle r.reservation_id charged input output rows
            (Reserves-le charged r.reserved_cost r.reservation_id rows l h.2),
        IsIssued-settled config r.reservation_id charged input output rows,
      )
      | inr e ↦ rw e (omega arith, λ s i. i)
    ]

settle-Keeps :
    (config : Configuration) (r : ModelCostReservation) (metadata : ProviderMetadata)
    (rows : Ledger)
    → IsIssued config rows r
    → Keeps config rows (settle config r metadata rows).1
unfolding settle charged_total calculate
settle-Keeps config r metadata rows h = elim (Option-cases (usage_within r metadata)) [
  | inl e ↦ rw (settle, e) (fail-Keeps config r.reservation_id "MODEL_USAGE_METADATA_INVALID" rows)
  | inr ((input, output), e) ↦
      let (p, m, i, o) = usage_within-le r metadata input output e in
      elim (Option-cases (calculate config metadata.provider metadata.model_id input output)) [
        | inl c ↦ rw (settle, e, c) (omega arith, λ s i. i)
        | inr (charged, c) ↦
            rw (settle, e, c)
              (settle_call-Keeps config r metadata input output charged rows
                (calculate_mono config r.provider r.model_id input r.maximum_input_tokens output
                  r.maximum_output_tokens charged r.reserved_cost i o
                  (rw
                    (
                      sym ((eq_iff metadata.provider r.provider).0 p),
                      sym ((eq_iff metadata.model_id r.model_id).0 m),
                    )
                    c)
                  h.0)
                h)
      ]
]

module _ (config : Configuration) (id provider model : String) (input output cost : ℕ) where
  abbrev row : ModelCall
  row = new_call id provider model input output cost

  older-IsIssued :
      (rows : Ledger) (r : ModelCostReservation)
      → any_row (has_id id) rows ≡ false
      → IsIssued config rows r
      → IsIssued config (row ∷ rows) r
  older-IsIssued rows r fresh h = elim (Bool-cases (has_id r.reservation_id row)) [
    | inl e ↦
        let known : any_row (has_id id) rows ≡ true = rw ((eq_iff id r.reservation_id).0 e) h.1 in
        cc
    | inr e ↦ (h.0, ground arith, (ground arith, h.2))
  ]

  new-IsIssued :
      (rows : Ledger) (warning : Bool)
      → any_row (has_id id) rows ≡ false
      → calculate config provider model input output ≡ some cost
      → IsIssued config (row ∷ rows) (record {
        reservation_id = id;
        provider = provider;
        model_id = model;
        maximum_input_tokens = input;
        maximum_output_tokens = output;
        reserved_cost = cost;
        warning = warning;
      })
  new-IsIssued rows warning fresh priced =
      (priced, rw eq_refl refl, (λ e. omega arith, Reserves-fresh cost id rows fresh))

  reserve_call-IsWithin :
      (w : World)
      → calculate config provider model input output ≡ some cost
      → IsWithin config w
      → IsWithin config (record {
        ledger = (reserve_call config id provider model input output cost w.ledger).1;
        issued =
            issue (reserve_call config id provider model input output cost w.ledger).0 w.issued;
      })
  unfolding reserve_call charged_total
  reserve_call-IsWithin w priced h =
      elim (Bool-cases (
        leb config.limit (charged_total w.ledger)
        || ltb config.limit (charged_total w.ledger + reserved_total w.ledger + cost))) [
          | inl over ↦ rw (reserve_call, over) h
          | inr under ↦ elim (Bool-cases (any_row (has_id id) w.ledger)) [
            | inl e ↦ rw (reserve_call, under, e) h
            | inr e ↦
                rw (reserve_call, under, e)
                  (
                    unfold reserved_total in ground arith,
                    (
                      new-IsIssued w.ledger
                          (warns config (charged_total w.ledger + reserved_total w.ledger + cost)) e
                          priced,
                      AllIssued-map config w.ledger (row ∷ w.ledger) w.issued
                          (λ r. older-IsIssued w.ledger r e) h.1,
                    ),
                  )
          ]
        ]

module _ (config : Configuration) where
  reserve-IsWithin :
      (id provider model : String) (maximum_input maximum_output : Json) (w : World)
      → IsWithin config w
      → IsWithin config (record {
        ledger = (reserve config id provider model maximum_input maximum_output w.ledger).1;
        issued =
            issue
              (reserve config id provider model maximum_input maximum_output w.ledger).0
              w.issued;
      })
  unfolding reserve
  reserve-IsWithin id provider model maximum_input maximum_output w h =
      elim (Option-cases (natural maximum_input)) [
        | inl e ↦ rw (reserve, e) h
        | inr (input, e) ↦ elim (Option-cases (natural maximum_output)) [
          | inl f ↦ rw (reserve, e, f) h
          | inr (output, f) ↦ elim (Option-cases (calculate config provider model input output)) [
            | inl g ↦ rw (reserve, e, f, g) h
            | inr (cost, g) ↦
                rw (reserve, e, f, g)
                  (reserve_call-IsWithin config id provider model input output cost w g h)
          ]
        ]
      ]

  step-IsWithin :
      (call : Call) (w : World) → IsWithin config w → IsWithin config (step config call w)
  unfolding step
  step-IsWithin (reserving id provider model maximum_input maximum_output) w h =
      reserve-IsWithin id provider model maximum_input maximum_output w h
  step-IsWithin (settling id metadata) w h = elim (Option-cases (first_row (names id) w.issued)) [
    | inl e ↦ rw (step, e) h
    | inr (r, e) ↦
        rw (step, e)
          (Keeps-IsWithin config w (settle config r metadata w.ledger).1
            (settle-Keeps config r metadata w.ledger
              (first-IsIssued config w.ledger id w.issued r e h.1))
            h)
  ]
  step-IsWithin (failing id detail) w h =
      Keeps-IsWithin config w (fail id detail w.ledger) (fail-Keeps config id detail w.ledger) h

  run-IsWithin :
      (calls : List Call) (w : World) → IsWithin config w → IsWithin config (run config calls w)
  unfolding run
  run-IsWithin [] w h = h
  run-IsWithin (call ∷ calls) w h = run-IsWithin calls (step config call w) (step-IsWithin call w h)

  -- From an empty ledger, and after any calls of `reserve`, of `settle` with a reservation that was
  -- issued, and of `fail`, what the ledger reports as charged and as reserved is together within the
  -- limit.
  pub within_limit :
      (calls : List Call)
      → (usage config (run config calls start).ledger).charged_cost
          + (usage config (run config calls start).ledger).reserved_cost
        ≤ config.limit
  unfolding usage
  within_limit calls =
      (run-IsWithin calls start (unfold charged_total reserved_total in omega arith, tt)).0
