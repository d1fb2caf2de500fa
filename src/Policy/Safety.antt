-- ===== src/Policy/Safety.antt =====
-- `_action_is_safe` of src/mox_adv/approval_execution.py: when an action is safe on the facts.
use mox_adv.Prelude.{
  ℕ, String, Bool, true, false, ◌&&◌, Option, none, some, List, [], ◌∷◌, ◌==◌, nat_eq, leb,
  if◌then◌else◌,
}
use mox_adv.Control.Rows.{
  OptimizationAction, increase_weekly_budget, decrease_weekly_budget, increase_search_bid,
  decrease_search_bid, set_ad_variant, suspend_campaign, resume_campaign,
}
use mox_adv.Policy.Decimals.{
  DecimalText, malformed, parses, at_most, below, above, at_least, and_then, and_also,
}

pub record ExecutionFacts : Type 0 where
  pub mode : String
  pub automation_enabled : Bool
  pub comparability_status : String
  pub confidence_status : String
  pub financial_recommendations_allowed : Bool
  pub direct_age_minutes : ℕ
  pub metrika_age_minutes : ℕ
  pub watermark_skew_minutes : ℕ
  pub clicks : ℕ
  pub conversions : ℕ
  pub impressions : ℕ
  pub spend_rub : ℕ
  pub cpa_rub : DecimalText
  pub budget_utilization_percent : DecimalText
  pub ctr_percent : DecimalText
  pub campaign_state : String
  pub campaign_strategy : String
  pub current_fingerprint : String
  pub cooldown_active : Bool
  pub actions_in_last_24h : ℕ
  pub cumulative_daily_change_percent : ℕ
  pub monetary_exposure_rub : ℕ
  pub kill_switch_available : Bool

abbrev pub state_on : ExecutionFacts → Bool
state_on facts = facts.campaign_state == "ON"

abbrev pub sufficient : ExecutionFacts → Bool
sufficient facts = leb 50 facts.clicks && leb 3 facts.conversions

abbrev pub highest_position : ExecutionFacts → Bool
highest_position facts = facts.campaign_strategy == "HIGHEST_POSITION"

-- The entries of `checks`, which are all computed before one is looked up.
unfoldable pub increase_budget_is_safe : ExecutionFacts → Option Bool
unfolding at_most below
increase_budget_is_safe facts = and_then (state_on facts) (
    and_then (sufficient facts)
      (and_also (at_most 1000 facts.cpa_rub) (at_least 90 facts.budget_utilization_percent)))

unfoldable pub decrease_budget_is_safe : ExecutionFacts → Option Bool
unfolding at_most below
decrease_budget_is_safe facts = and_then (state_on facts) (
    and_then (sufficient facts)
      (and_also (above 1000 facts.cpa_rub) (at_least 90 facts.budget_utilization_percent)))

unfoldable pub increase_bid_is_safe : ExecutionFacts → Option Bool
unfolding at_most below
increase_bid_is_safe facts = and_then (state_on facts) (
    and_then (highest_position facts) (
      and_then (sufficient facts) (
        and_also (at_most 1000 facts.cpa_rub) (
          and_also (below 90 facts.budget_utilization_percent)
            (some (leb 50 facts.clicks && leb facts.clicks 99))))))

unfoldable pub decrease_bid_is_safe : ExecutionFacts → Option Bool
unfolding at_most below
decrease_bid_is_safe facts = and_then (state_on facts) (
    and_then (highest_position facts) (
      and_then (sufficient facts)
        (and_also (above 1000 facts.cpa_rub) (below 90 facts.budget_utilization_percent))))

abbrev pub all_computed : List (Option Bool) → Bool
all_computed [] = true
all_computed (none ∷ rest) = false
all_computed (some _ ∷ rest) = all_computed rest

unfoldable pub numeric_is_safe : OptimizationAction → ExecutionFacts → Option Bool
unfolding increase_budget_is_safe decrease_budget_is_safe increase_bid_is_safe decrease_bid_is_safe
numeric_is_safe action facts =
    if all_computed (
      increase_budget_is_safe facts
      ∷ decrease_budget_is_safe facts
      ∷ increase_bid_is_safe facts
      ∷ decrease_bid_is_safe facts
      ∷ [])
    then elim action [
      | increase_weekly_budget ↦ increase_budget_is_safe facts
      | decrease_weekly_budget ↦ decrease_budget_is_safe facts
      | increase_search_bid ↦ increase_bid_is_safe facts
      | decrease_search_bid ↦ decrease_bid_is_safe facts
      | _ ↦ some false
    ]
    else none

abbrev pub is_malformed : DecimalText → Bool
is_malformed malformed = true
is_malformed _ = false

-- What follows `cpa = Decimal(facts.cpa_rub)`.
unfoldable pub priced_is_safe : OptimizationAction → ExecutionFacts → Option Bool
unfolding numeric_is_safe at_most
priced_is_safe resume_campaign facts =
    and_then (facts.campaign_state == "SUSPENDED")
      (and_then (leb 3 facts.conversions) (at_most 1000 facts.cpa_rub))
priced_is_safe action facts =
    if parses facts.budget_utilization_percent then numeric_is_safe action facts else none

unfoldable pub kind_is_safe : OptimizationAction → ExecutionFacts → Option Bool
unfolding priced_is_safe below
kind_is_safe suspend_campaign facts =
    some (state_on facts && (nat_eq facts.conversions 0 && leb 2000 facts.spend_rub))
kind_is_safe set_ad_variant facts = and_then (state_on facts) (
    and_then (sufficient facts)
      (and_also (below 1 facts.ctr_percent) (some (leb 5000 facts.impressions))))
kind_is_safe action facts = if parses facts.cpa_rub then priced_is_safe action facts else none

unfoldable pub action_is_safe : OptimizationAction → ExecutionFacts → Option Bool
unfolding kind_is_safe
action_is_safe action facts = if is_malformed facts.cpa_rub then none else kind_is_safe action facts
