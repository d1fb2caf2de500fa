-- ===== src/Commands/Tests.antt =====
-- Commands at concrete changes, and the theorems at them.
use mox_adv.Prelude.{◌≡◌, refl, true, some}
use mox_adv.Prelude.Json.{int, text, end, field}
use mox_adv.Control.Rows.{
  increase_weekly_budget, decrease_search_bid, increase_search_bid, suspend_campaign,
  resume_campaign, action_text,
}
use mox_adv.Commands.{
  built, campaign_state_command, out_of_bounds, invalid_input, HighLevelCommand, search_bid_command,
  down, action_spec, calculate_relative_target,
}
use mox_adv.Commands.Samples.{hash, change, step_of, lower_bid}
use mox_adv.Commands.Build.{
  build_high_level_command, build_numeric, build_campaign_state, authority_fields, rollback_to,
}
use mox_adv.Commands.Numeric.{base_of, IsBounded, numeric-IsBounded}
use mox_adv.Commands.Rollback.{accepts, Undoes, rolls_back}

rounded : calculate_relative_target (int 90) (down 5) ≡ some (int 86)
unfolding calculate_relative_target
rounded = refl

abbrev lower_bid_command : HighLevelCommand
lower_bid_command =
    search_bid_command
      (authority_fields hash lower_bid 1 1000 (int 86) (rollback_to increase_search_bid (int 90)))

numeric-IsBounded_example : IsBounded 1 1000 90 (base_of lower_bid_command).target_value
unfolding build_high_level_command build_numeric calculate_relative_target action_text
numeric-IsBounded_example =
    numeric-IsBounded hash lower_bid 1 1000 90 (down 10) lower_bid_command refl refl refl

rolls_back_example :
    (int 90 ≡ int 90)
    × Undoes decrease_search_bid increase_search_bid
    × (accepts (action_spec increase_search_bid).source_state (int 86) ≡ true)
    × (accepts (action_spec increase_search_bid).target_state (int 90) ≡ true)
unfolding build_high_level_command build_numeric calculate_relative_target action_text
rolls_back_example = rolls_back hash lower_bid 1 1000 lower_bid_command refl

-- A campaign that is suspended is rolled back to ON.
suspended :
    build_high_level_command hash
      (change suspend_campaign
        (text "ON")
        (text "SUSPENDED")
        (field "operation" (text "SUSPEND_CAMPAIGN") (field "target_state" (text "SUSPENDED") end)))
      1
      2
    ≡ built (
        campaign_state_command (
          authority_fields hash
            (change suspend_campaign (text "ON") (text "SUSPENDED") (
              field "operation"
                (text "SUSPEND_CAMPAIGN")
                (field "target_state" (text "SUSPENDED") end)))
            1
            2
            (text "SUSPENDED")
            (rollback_to resume_campaign (text "ON"))))
unfolding build_high_level_command build_campaign_state action_text
suspended = refl

above_the_limit :
    build_high_level_command hash
      (change increase_weekly_budget (int 100) (int 110) (step_of 10 increase_weekly_budget))
      1
      105
    ≡ out_of_bounds
unfolding build_high_level_command build_numeric calculate_relative_target action_text
above_the_limit = refl

wrong_target :
    build_high_level_command hash
      (change increase_weekly_budget (int 100) (int 109) (step_of 10 increase_weekly_budget))
      1
      200
    ≡ invalid_input
unfolding build_high_level_command build_numeric calculate_relative_target action_text
wrong_target = refl

wrong_state :
    build_high_level_command hash
      (change suspend_campaign
        (text "SUSPENDED")
        (text "ON")
        (field "operation" (text "SUSPEND_CAMPAIGN") (field "target_state" (text "ON") end)))
      1
      2
    ≡ invalid_input
unfolding build_high_level_command build_campaign_state action_text
wrong_state = refl
