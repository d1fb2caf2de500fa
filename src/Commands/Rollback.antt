-- ===== src/Commands/Rollback.antt =====
-- What every command of src/mox_adv/commands.py carries, whatever its family.
use mox_adv.Prelude.{
  ℕ, ◌≡◌, refl, sym, ◌∙◌, ap, subst, String, Bool, true, ◌⊎◌, Option, none, some, arith, inl, inr,
  Bool-cases, Option-cases,
}
use mox_adv.Prelude.Json.{Json, Fields, object, end}
use mox_adv.Control.Rows.{
  OptimizationAction, increase_weekly_budget, decrease_weekly_budget, increase_search_bid,
  decrease_search_bid, set_ad_variant, suspend_campaign, resume_campaign, PreparedChange,
  action_text,
}
use mox_adv.Commands.{
  ad_variant, campaign_state, Percent, up, down, action_spec, HighLevelCommand, CommandResult,
  built, is_text, lookup, calculate_relative_target, campaign_state_command,
}
use mox_adv.Commands.Build.{
  authority_fields, build_numeric, build_variant, build_ad_variant, build_campaign_state,
  build_high_level_command, rollback_to, is_state, signed_step, numeric_command, variant_of,
}
use mox_adv.Commands.Numeric.{base_of, base-numeric}

abbrev opposite : Option Percent → Option Percent
opposite none = none
opposite (some (up percent)) = some (down percent)
opposite (some (down percent)) = some (up percent)

-- The second action goes back where the first came from: the same setting by the opposite percentage, from
-- the state that the first leads to, to the one that it starts from.
abbrev pub Undoes : OptimizationAction → OptimizationAction → Type 0
Undoes a b =
    ((action_spec b).family ≡ (action_spec a).family)
    × ((action_spec b).service ≡ (action_spec a).service)
    × ((action_spec b).relative_percent ≡ opposite (action_spec a).relative_percent)
    × ((action_spec b).source_state ≡ (action_spec a).target_state)
    × ((action_spec b).target_state ≡ (action_spec a).source_state)

rollback-Undoes : (a : OptimizationAction) → Undoes a (action_spec a).rollback_action
rollback-Undoes increase_weekly_budget = (refl, refl, refl, refl, refl)
rollback-Undoes decrease_weekly_budget = (refl, refl, refl, refl, refl)
rollback-Undoes increase_search_bid = (refl, refl, refl, refl, refl)
rollback-Undoes decrease_search_bid = (refl, refl, refl, refl, refl)
rollback-Undoes set_ad_variant = (refl, refl, refl, refl, refl)
rollback-Undoes suspend_campaign = (refl, refl, refl, refl, refl)
rollback-Undoes resume_campaign = (refl, refl, refl, refl, refl)

-- A state that an action asks for, where it asks for one.
abbrev pub accepts : Option String → Json → Bool
accepts none value = true
accepts (some state) value = is_text state (some value)

state-cases :
    (a : OptimizationAction)
    → (((action_spec a).source_state ≡ none) × ((action_spec a).target_state ≡ none))
      ⊎ (((action_spec a).relative_percent ≡ none) × ((action_spec a).family ≡ campaign_state))
state-cases increase_weekly_budget = inl (refl, refl)
state-cases decrease_weekly_budget = inl (refl, refl)
state-cases increase_search_bid = inl (refl, refl)
state-cases decrease_search_bid = inl (refl, refl)
state-cases set_ad_variant = inl (refl, refl)
state-cases suspend_campaign = inr (refl, refl)
state-cases resume_campaign = inr (refl, refl)

accepts-state :
    (state : Option String) (value : Json)
    → is_state state value ≡ true
    → accepts state value ≡ true
accepts-state none value h = refl
accepts-state (some state) value h = h

abbrev fields_of : Json → Fields
fields_of (object fields) = fields
fields_of _ = end

abbrev text_of : CommandResult String → String
text_of (built s) = s
text_of _ = ""

module _ (canonical_hash : Json → String) (p : PreparedChange) (minimum maximum : ℕ) where
  -- The command has the fields of `authority_fields`, with some target.
  abbrev IsFrom : OptimizationAction → HighLevelCommand → Type 0
  IsFrom rollback cmd =
      (target : Json) × (base_of cmd
        ≡ authority_fields canonical_hash p minimum maximum target
            (rollback_to rollback p.current_value))

  numeric-IsFrom :
      (percent : Percent) (cmd : HighLevelCommand)
      → build_numeric canonical_hash p minimum maximum percent ≡ built cmd
      → IsFrom (action_spec p.action).rollback_action cmd
  unfolding build_numeric
  numeric-IsFrom percent cmd h =
      elim (Option-cases (signed_step percent (lookup "relative_step_percent" p.expected_diff))) [
        | inl e ↦ ground arith
        | inr (step, e) ↦ elim (Option-cases (calculate_relative_target p.current_value step)) [
          | inl f ↦ ground arith
          | inr (target, f) ↦
              let b =
                authority_fields canonical_hash p minimum maximum target
                  (rollback_to (action_spec p.action).rollback_action p.current_value) in
              let same : numeric_command (action_spec p.action).family b ≡ cmd = ground arith in
              (target, rw (sym same) (base-numeric (action_spec p.action).family b))
        ]
      ]

  campaign-IsFrom :
      (cmd : HighLevelCommand)
      → build_campaign_state canonical_hash p minimum maximum ≡ built cmd
      → IsFrom (action_spec p.action).rollback_action cmd
  unfolding build_campaign_state
  campaign-IsFrom cmd h =
      let b =
        authority_fields canonical_hash p minimum maximum p.target_value
          (rollback_to (action_spec p.action).rollback_action p.current_value) in
      let same : campaign_state_command b ≡ cmd = ground arith in
      (p.target_value, ap base_of (sym same))

  abbrev IsVariantOf : Json → HighLevelCommand → Type 0
  IsVariantOf current cmd =
      base_of cmd
      ≡ authority_fields canonical_hash p minimum maximum p.target_value
          (rollback_to p.action current)

  variant-IsVariantOf :
      (current target : Fields) (variant : String) (cmd : HighLevelCommand)
      → build_variant canonical_hash p minimum maximum current target variant ≡ built cmd
      → IsVariantOf (object current) cmd
  unfolding build_variant
  variant-IsVariantOf current target variant cmd h = ground arith

  from-object :
      (cmd : HighLevelCommand)
      → build_ad_variant canonical_hash p minimum maximum ≡ built cmd
      → object (fields_of p.current_value) ≡ p.current_value
  unfolding build_ad_variant
  from-object cmd h = ground arith

  ad_variant-IsVariantOf :
      (cmd : HighLevelCommand)
      → build_ad_variant canonical_hash p minimum maximum ≡ built cmd
      → IsVariantOf p.current_value cmd
  unfolding build_ad_variant
  ad_variant-IsVariantOf cmd h =
      let current = fields_of p.current_value in
      let target = fields_of p.target_value in
      subst (λ j. IsVariantOf j cmd) (from-object cmd h)
        (variant-IsVariantOf current target (text_of (variant_of (lookup "variant_id" target))) cmd
          (ground arith))

  spec_rollback :
      (a : OptimizationAction)
      → (action_spec a).family ≡ ad_variant
      → (action_spec a).rollback_action ≡ a
  spec_rollback increase_weekly_budget e = ground arith
  spec_rollback decrease_weekly_budget e = ground arith
  spec_rollback increase_search_bid e = ground arith
  spec_rollback decrease_search_bid e = ground arith
  spec_rollback set_ad_variant e = refl
  spec_rollback suspend_campaign e = ground arith
  spec_rollback resume_campaign e = ground arith

  family_variant :
      (a : OptimizationAction)
      → (action_spec a).relative_percent ≡ none
      → ((action_spec a).family ≡ ad_variant) ⊎ ((action_spec a).family ≡ campaign_state)
  family_variant increase_weekly_budget e = ground arith
  family_variant decrease_weekly_budget e = ground arith
  family_variant increase_search_bid e = ground arith
  family_variant decrease_search_bid e = ground arith
  family_variant set_ad_variant e = inl refl
  family_variant suspend_campaign e = inr refl
  family_variant resume_campaign e = inr refl

  built-IsFrom :
      (cmd : HighLevelCommand)
      → build_high_level_command canonical_hash p minimum maximum ≡ built cmd
      → IsFrom (action_spec p.action).rollback_action cmd
  unfolding build_high_level_command
  built-IsFrom cmd h =
      elim (Bool-cases (is_text (action_text p.action) (lookup "operation" p.expected_diff))) [
        | inr e ↦ ground arith
        | inl e ↦ elim (Option-cases (action_spec p.action).relative_percent) [
          | inr (percent, n) ↦
              numeric-IsFrom percent cmd (sym (rw (build_high_level_command, e, n) refl) ∙ h)
          | inl n ↦ elim (family_variant p.action n) [
            | inl f ↦
                let v =
                  ad_variant-IsVariantOf cmd
                    (sym (rw (build_high_level_command, e, n, f) refl) ∙ h) in
                (p.target_value, rw (spec_rollback p.action f) v)
            | inr f ↦ campaign-IsFrom cmd (sym (rw (build_high_level_command, e, n, f) refl) ∙ h)
          ]
        ]
      ]

  campaign-accepts :
      (cmd : HighLevelCommand)
      → build_campaign_state canonical_hash p minimum maximum ≡ built cmd
      → (accepts (action_spec p.action).source_state p.current_value ≡ true)
        × (accepts (action_spec p.action).target_state (base_of cmd).target_value ≡ true)
  unfolding build_campaign_state authority_fields
  campaign-accepts cmd h =
      let spec = action_spec p.action in
      let b =
        authority_fields canonical_hash p minimum maximum p.target_value
          (rollback_to spec.rollback_action p.current_value) in
      let same : campaign_state_command b ≡ cmd = ground arith in
      (
        accepts-state spec.source_state p.current_value (ground arith),
        subst (λ c. accepts spec.target_state (base_of c).target_value ≡ true) same
            (accepts-state spec.target_state p.target_value (ground arith)),
      )

  built-accepts :
      (cmd : HighLevelCommand)
      → build_high_level_command canonical_hash p minimum maximum ≡ built cmd
      → (accepts (action_spec p.action).source_state p.current_value ≡ true)
        × (accepts (action_spec p.action).target_state (base_of cmd).target_value ≡ true)
  unfolding build_high_level_command
  built-accepts cmd h = elim (state-cases p.action) [
    | inl (source, target) ↦ rw (source, target) (refl, refl)
    | inr (n, f) ↦
        elim (Bool-cases (is_text (action_text p.action) (lookup "operation" p.expected_diff))) [
          | inl e ↦ campaign-accepts cmd (sym (rw (build_high_level_command, e, n, f) refl) ∙ h)
          | inr e ↦ ground arith
        ]
  ]

  -- The rollback of a built command leads back. Its target is the current value of the change. Its action
  -- changes the same setting by the opposite percentage, from the state that the action of the change leads to,
  -- to the one that it starts from; and where it asks for such states, the target of the command is the first,
  -- and the target of the rollback is the second.
  pub rolls_back :
      (cmd : HighLevelCommand)
      → build_high_level_command canonical_hash p minimum maximum ≡ built cmd
      → let back = (base_of cmd).rollback in
        (back.target_value ≡ p.current_value)
        × Undoes p.action back.action
        × (accepts (action_spec back.action).source_state (base_of cmd).target_value ≡ true)
        × (accepts (action_spec back.action).target_state back.target_value ≡ true)
  unfolding authority_fields
  rolls_back cmd h =
      let (target, e) = built-IsFrom cmd h in
      let (source_ok, target_ok) = built-accepts cmd h in
      let undone = rollback-Undoes p.action in
      let rolled : (base_of cmd).rollback
          ≡ rollback_to (action_spec p.action).rollback_action p.current_value =
        ap (λ b. b.rollback) e in
      rw rolled (
        refl,
        undone,
        subst (λ s. accepts s (base_of cmd).target_value ≡ true) (sym undone.3) target_ok,
        subst (λ s. accepts s p.current_value ≡ true) (sym undone.4) source_ok,
      )
