-- ===== src/Commands/Build.antt =====
-- `build_high_level_command` of src/mox_adv/commands.py, family by family.
use mox_adv.Prelude.{
  ℕ, String, Bool, true, false, not, ◌&&◌, ◌||◌, Option, none, some, List, [], ◌∷◌, ◌==◌, leb,
  if◌then◌else◌,
}
use mox_adv.Prelude.Json.{Json, Fields, int, text, object, array}
use mox_adv.Prelude.Text.{is_blank, starts_with}
use mox_adv.Control.Rows.{OptimizationAction, action_text, PreparedChange, execution_key}
use mox_adv.Commands.{
  ActionFamily, weekly_budget, ad_variant, Percent, up, down, action_spec, CommandBase,
  RollbackCommand, HighLevelCommand, weekly_budget_command, search_bid_command,
  campaign_state_command, ad_variant_command, CommandResult, built, invalid_input, out_of_bounds,
  type_error, calculate_relative_target, lookup, has_exactly, keys_within, is_text, equals_int,
  out_of_range,
}

abbrev pub numeric_command : ActionFamily → CommandBase → HighLevelCommand
numeric_command weekly_budget b = weekly_budget_command b
numeric_command _ b = search_bid_command b

-- An integer step of 1 up to the percentage of the action, with the action's sign.
abbrev pub signed_step : Percent → Option Json → Option Percent
signed_step (up most) (some (int n)) = if leb 1 n && leb n most then some (up n) else none
signed_step (down most) (some (int n)) = if leb 1 n && leb n most then some (down n) else none
signed_step _ _ = none

-- A non-empty text.
abbrev pub filled : Option Json → Option String
filled (some (text s)) = if is_blank s then none else some s
filled _ = none

-- What `value in {"A", "B"}` does: a dict or a list raises, any other value is looked up.
abbrev pub variant_of : Option Json → CommandResult String
variant_of (some (text s)) = if s == "A" || s == "B" then built s else invalid_input
variant_of (some (object _)) = type_error
variant_of (some (array _)) = type_error
variant_of _ = invalid_input

abbrev pub variant_fields : List String
variant_fields = "variant_id" ∷ "title" ∷ "text" ∷ []

abbrev pub variant_keys : List String
variant_keys = "operation" ∷ "variant_id" ∷ "title" ∷ "text" ∷ "source_plan_hash" ∷ []

abbrev pub is_state : Option String → Json → Bool
is_state (some state) value = is_text state (some value)
is_state none value = false

abbrev pub rollback_to : OptimizationAction → Json → RollbackCommand
rollback_to action target = record { action = action; target_value = target }

module _ (canonical_hash : Json → String) (p : PreparedChange) (minimum maximum : ℕ) where
  -- `**_authority_fields(…)` of a command, whose rollback is the argument that follows.
  unfoldable pub authority_fields : Json → RollbackCommand → CommandBase
  unfolding execution_key
  authority_fields target rollback = record {
    action = p.action;
    current_value = p.current_value;
    target_value = target;
    dry_run = true;
    expected_diff = p.expected_diff;
    organization = p.scope.organization;
    connection = p.scope.connection;
    account = p.scope.account;
    campaign = p.scope.campaign;
    proposal_id = p.proposal_id;
    execution_key = execution_key canonical_hash p;
    expected_fingerprint = p.expected_fingerprint;
    preconditions = "DRY_RUN_SUCCEEDED" ∷ "FINGERPRINT_MATCH" ∷ "READBACK_REQUIRED" ∷ [];
    minimum_value = minimum;
    maximum_value = maximum;
    readback_required = true;
    rollback = rollback;
  }

  unfoldable pub build_numeric : Percent → CommandResult HighLevelCommand
  unfolding calculate_relative_target authority_fields
  build_numeric percent =
      elim (signed_step percent (lookup "relative_step_percent" p.expected_diff)) [
        | none ↦ invalid_input
        | some step ↦ elim (calculate_relative_target p.current_value step) [
          | none ↦ invalid_input
          | some target ↦
              if not (equals_int p.target_value target)
                || not (keys_within ("operation" ∷ "relative_step_percent" ∷ []) p.expected_diff)
              then invalid_input
              else if out_of_range minimum maximum target
              then out_of_bounds
              else built (
                  numeric_command (action_spec p.action).family (
                    authority_fields target
                      (rollback_to (action_spec p.action).rollback_action p.current_value)))
        ]
      ]

  -- The tests of the titles, the texts and the diff.
  unfoldable pub build_variant : Fields → Fields → String → CommandResult HighLevelCommand
  unfolding authority_fields is_blank starts_with
  build_variant current target variant = elim (filled (lookup "title" current)) [
    | none ↦ invalid_input
    | some _ ↦ elim (filled (lookup "text" current)) [
      | none ↦ invalid_input
      | some _ ↦ elim (filled (lookup "title" target)) [
        | none ↦ invalid_input
        | some title ↦ elim (filled (lookup "text" target)) [
          | none ↦ invalid_input
          | some body ↦ elim (lookup "source_plan_hash" p.expected_diff) [
            | some (text hash) ↦
                if keys_within variant_keys p.expected_diff
                  && (is_text variant (lookup "variant_id" p.expected_diff)
                      && (is_text title (lookup "title" p.expected_diff)
                          && (is_text body (lookup "text" p.expected_diff)
                              && starts_with hash "sha256:")))
                then built (
                    ad_variant_command
                      (authority_fields p.target_value (rollback_to p.action (object current)))
                      variant title body hash)
                else invalid_input
            | _ ↦ invalid_input
          ]
        ]
      ]
    ]
  ]

  unfoldable pub build_ad_variant : CommandResult HighLevelCommand
  unfolding build_variant
  build_ad_variant = elim p.current_value [
    | object current ↦ elim p.target_value [
      | object target ↦
          if not (has_exactly variant_fields current) || not (has_exactly variant_fields target)
          then invalid_input
          else elim (variant_of (lookup "variant_id" current)) [
            | built a ↦ elim (variant_of (lookup "variant_id" target)) [
              | built b ↦ if a == b then invalid_input else build_variant current target b
              | type_error ↦ type_error
              | _ ↦ invalid_input
            ]
            | type_error ↦ type_error
            | _ ↦ invalid_input
          ]
      | _ ↦ invalid_input
    ]
    | _ ↦ invalid_input
  ]

  unfoldable pub build_campaign_state : CommandResult HighLevelCommand
  unfolding authority_fields
  build_campaign_state =
      let spec = action_spec p.action in
      if is_state spec.source_state p.current_value
        && (is_state spec.target_state p.target_value
            && (keys_within ("operation" ∷ "target_state" ∷ []) p.expected_diff
                && elim spec.target_state [
                  | none ↦ false
                  | some state ↦ is_text state (lookup "target_state" p.expected_diff)
                ]))
      then built (
          campaign_state_command
            (authority_fields p.target_value (rollback_to spec.rollback_action p.current_value)))
      else invalid_input

  unfoldable pub build_high_level_command : CommandResult HighLevelCommand
  unfolding build_numeric build_ad_variant build_campaign_state action_text
  build_high_level_command =
      if not (is_text (action_text p.action) (lookup "operation" p.expected_diff))
      then invalid_input
      else elim (action_spec p.action).relative_percent [
        | some percent ↦ build_numeric percent
        | none ↦ elim (action_spec p.action).family [
          | ad_variant ↦ build_ad_variant
          | _ ↦ build_campaign_state
        ]
      ]
