-- ===== src/Commands/Numeric.antt =====
-- How far a numeric command of src/mox_adv/commands.py may move a budget or a bid.
use mox_adv.Prelude.{
  ℕ, ◌+◌, ◌-◌, ◌*◌, ◌≤◌, ◌≡◌, refl, sym, ◌∙◌, [], ◌∷◌, String, false, not, ◌||◌, ◌⊎◌, Option, some,
  arith, inl, inr, Bool-cases, Option-cases, ap,
}
use mox_adv.Prelude.Json.{Json, int}
use mox_adv.Control.Rows.{
  action_text, PreparedChange, OptimizationAction, increase_weekly_budget, decrease_weekly_budget,
  increase_search_bid, decrease_search_bid, set_ad_variant, suspend_campaign, resume_campaign,
}
use mox_adv.Commands.{
  is_text, ActionFamily, weekly_budget, search_bid, ad_variant, campaign_state, lookup, keys_within,
  equals_int, Percent, up, down, round_half_up, multiplier_of, calculate_relative_target,
  action_spec, CommandBase, HighLevelCommand, weekly_budget_command, search_bid_command,
  campaign_state_command, ad_variant_command, built, out_of_range,
}
use mox_adv.Commands.Build.{
  numeric_command, build_numeric, build_high_level_command, signed_step, authority_fields,
  rollback_to,
}

abbrev pub base_of : HighLevelCommand → CommandBase
base_of (weekly_budget_command b) = b
base_of (search_bid_command b) = b
base_of (campaign_state_command b) = b
base_of (ad_variant_command b _ _ _ _) = b

mul_le : (c s : ℕ) → s ≤ 10 → c * s ≤ c * 10
mul_le c s h = grind arith

split_hundred : (c q s : ℕ) → q + s ≡ 100 → c * q + c * s ≡ c * 100
split_hundred c q s h = omega (arith, ap (λ n. c * n) h)

-- Within a tenth, and a half for rounding.
abbrev pub IsTenth : ℕ → ℕ → Type 0
IsTenth c t = (100 * t ≤ 110 * c + 50) × (90 * c ≤ 100 * t + 50)

round-up : (c s : ℕ) → s ≤ 10 → IsTenth c (round_half_up c (100 + s))
unfolding round_half_up
round-up c s h = (omega (arith, mul_le c s h), omega (arith, mul_le c s h))

round-down : (c s : ℕ) → s ≤ 10 → IsTenth c (round_half_up c (100 - s))
unfolding round_half_up
round-down c s h =
    let e = split_hundred c (100 - s) s (omega (arith, h)) in
    (omega (arith, mul_le c s h, e), omega (arith, mul_le c s h, e))

-- What a numeric command may ask for: a target within the limits and within a tenth of `c`.
abbrev pub IsBounded : ℕ → ℕ → ℕ → Json → Type 0
IsBounded minimum maximum c (int t) = (minimum ≤ t) × (t ≤ maximum) × IsTenth c t
IsBounded minimum maximum c _ = ⊥

-- A step that `signed_step` accepts.
abbrev IsStep : Percent → Type 0
IsStep (up s) = s ≤ 10
IsStep (down s) = s ≤ 10

signed_step-IsStep :
    (most : ℕ) (j : Option Json) (step : Percent)
    → most ≤ 10
    → ((signed_step (up most) j ≡ some step) ⊎ (signed_step (down most) j ≡ some step))
    → IsStep step
signed_step-IsStep most j (up s) h (inl e) = ground arith
signed_step-IsStep most j (down s) h (inl e) = ground arith
signed_step-IsStep most j (up s) h (inr e) = ground arith
signed_step-IsStep most j (down s) h (inr e) = ground arith

calculate-IsTenth :
    (c : ℕ) (step : Percent) → IsStep step → IsTenth c (round_half_up c (multiplier_of step))
calculate-IsTenth c (up s) h = round-up c s h
calculate-IsTenth c (down s) h = round-down c s h

pub base-numeric : (f : ActionFamily) (b : CommandBase) → base_of (numeric_command f b) ≡ b
base-numeric weekly_budget b = refl
base-numeric search_bid b = refl
base-numeric ad_variant b = refl
base-numeric campaign_state b = refl

-- The two percentages of ACTION_SPECS.
spec-percent :
    (a : OptimizationAction) (percent : Percent)
    → (action_spec a).relative_percent ≡ some percent
    → (percent ≡ up 10) ⊎ (percent ≡ down 10)
spec-percent increase_weekly_budget percent h = inl (ground arith)
spec-percent decrease_weekly_budget percent h = inr (ground arith)
spec-percent increase_search_bid percent h = inl (ground arith)
spec-percent decrease_search_bid percent h = inr (ground arith)
spec-percent set_ad_variant percent h = ground arith
spec-percent suspend_campaign percent h = ground arith
spec-percent resume_campaign percent h = ground arith

signed_step_tenth :
    (percent step : Percent) (j : Option Json)
    → (percent ≡ up 10) ⊎ (percent ≡ down 10)
    → signed_step percent j ≡ some step
    → IsStep step
signed_step_tenth percent step j (inl e) h =
    signed_step-IsStep 10 j step (omega arith) (inl (rw (sym e) h))
signed_step_tenth percent step j (inr e) h =
    signed_step-IsStep 10 j step (omega arith) (inr (rw (sym e) h))

in_range :
    (minimum maximum t : ℕ)
    → out_of_range minimum maximum (int t) ≡ false
    → (minimum ≤ t) × (t ≤ maximum)
in_range minimum maximum t h = (ground arith, ground arith)

module _ (canonical_hash : Json → String) (p : PreparedChange) (minimum maximum c : ℕ) where
  build_numeric-IsBounded :
      (percent : Percent) (cmd : HighLevelCommand)
      → p.current_value ≡ int c
      → (percent ≡ up 10) ⊎ (percent ≡ down 10)
      → build_numeric canonical_hash p minimum maximum percent ≡ built cmd
      → IsBounded minimum maximum c (base_of cmd).target_value
  unfolding build_numeric calculate_relative_target authority_fields
  build_numeric-IsBounded percent cmd current ten h =
      elim (Option-cases (signed_step percent (lookup "relative_step_percent" p.expected_diff))) [
        | inl e ↦ ground arith
        | inr (step, e) ↦
            let t = round_half_up c (multiplier_of step) in
            let target : calculate_relative_target p.current_value step ≡ some (int t) =
              rw current refl in
            elim (Bool-cases (
              not (equals_int p.target_value (int t))
              || not (keys_within ("operation" ∷ "relative_step_percent" ∷ []) p.expected_diff))) [
                | inl f ↦ ground arith
                | inr f ↦ elim (Bool-cases (out_of_range minimum maximum (int t))) [
                  | inl g ↦ ground arith
                  | inr g ↦
                      let b =
                        authority_fields canonical_hash p minimum maximum (int t)
                          (rollback_to (action_spec p.action).rollback_action p.current_value) in
                      let made : build_numeric canonical_hash p minimum maximum percent
                          ≡ built (numeric_command (action_spec p.action).family b) =
                        rw (build_numeric, e, target, f, g) refl in
                      let same : numeric_command (action_spec p.action).family b ≡ cmd = cc in
                      let r = in_range minimum maximum t g in
                      rw (sym same, base-numeric (action_spec p.action).family b)
                        (
                          r.0,
                          r.1,
                          calculate-IsTenth c step (signed_step_tenth percent step _ ten e),
                        )
                ]
              ]
      ]

  -- A numeric command, for a budget or a bid that is the integer `c`, has a target within the limits
  -- that it was built with, and moves `c` by a tenth at most, but for rounding half up.
  pub numeric-IsBounded :
      (percent : Percent) (cmd : HighLevelCommand)
      → p.current_value ≡ int c
      → (action_spec p.action).relative_percent ≡ some percent
      → build_high_level_command canonical_hash p minimum maximum ≡ built cmd
      → IsBounded minimum maximum c (base_of cmd).target_value
  unfolding build_high_level_command
  numeric-IsBounded percent cmd current numeric h =
      elim (Bool-cases (is_text (action_text p.action) (lookup "operation" p.expected_diff))) [
        | inr e ↦ ground arith
        | inl e ↦
            let same : build_high_level_command canonical_hash p minimum maximum
                ≡ build_numeric canonical_hash p minimum maximum percent =
              rw (build_high_level_command, e, numeric) refl in
            build_numeric-IsBounded percent cmd current (spec-percent p.action percent numeric)
              (sym same ∙ h)
      ]
