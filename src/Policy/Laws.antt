-- ===== src/Policy/Laws.antt =====
-- The safety of an action in src/mox_adv/approval_execution.py and in src/mox_adv/autonomy_policy.py.
use mox_adv.Prelude.{◌≤◌, ◌≡◌, true, false, some, ◌==◌, arith}
use mox_adv.Control.Rows.{
  OptimizationAction, increase_weekly_budget, decrease_weekly_budget, increase_search_bid,
  decrease_search_bid, set_ad_variant, suspend_campaign, resume_campaign,
}
use mox_adv.Policy.Decimals.{parses, at_most, below}
use mox_adv.Policy.Safety.{
  ExecutionFacts, is_malformed, action_is_safe, kind_is_safe, priced_is_safe, numeric_is_safe,
  increase_budget_is_safe, decrease_budget_is_safe, increase_bid_is_safe, decrease_bid_is_safe,
}
use mox_adv.Policy.Autonomy.{BoundedAutonomyRequest, MinimumSample, autonomous_action_is_safe}

-- The facts of a request of bounded autonomy, among other facts of the approval policy.
abbrev pub facts_of : ExecutionFacts → BoundedAutonomyRequest → ExecutionFacts
facts_of facts r = record facts {
  clicks = r.clicks;
  conversions = r.conversions;
  spend_rub = r.spend_rub;
  cpa_rub = r.cpa_rub;
  budget_utilization_percent = r.budget_utilization_percent;
  campaign_state = r.campaign_state;
  campaign_strategy = r.campaign_strategy;
}

decrease-is_safe :
    (facts : ExecutionFacts)
    → (facts.campaign_state == "ON") ≡ true
    → (facts.campaign_strategy == "HIGHEST_POSITION") ≡ true
    → 50 ≤ facts.clicks
    → 3 ≤ facts.conversions
    → at_most 1000 facts.cpa_rub ≡ some false
    → below 90 facts.budget_utilization_percent ≡ some true
    → numeric_is_safe decrease_search_bid facts ≡ some true
unfolding numeric_is_safe increase_budget_is_safe decrease_budget_is_safe increase_bid_is_safe
    decrease_bid_is_safe
decrease-is_safe facts on highest clicks conversions cpa utilization = ground arith

-- Every action that bounded autonomy holds safe, the approval policy holds safe on the same numbers,
-- if the mandate's minimum sample is at least 50 clicks and 3 conversions, and the CPA is a text that the
-- approval policy can read.
pub autonomous_is_safe :
    (action : OptimizationAction) (facts : ExecutionFacts) (r : BoundedAutonomyRequest)
    (sample : MinimumSample)
    → 50 ≤ sample.clicks
    → 3 ≤ sample.conversions
    → is_malformed r.cpa_rub ≡ false
    → autonomous_action_is_safe action r sample ≡ some true
    → action_is_safe action (facts_of facts r) ≡ some true
unfolding autonomous_action_is_safe action_is_safe kind_is_safe priced_is_safe
autonomous_is_safe suspend_campaign facts r sample c k readable h = ground arith
autonomous_is_safe decrease_search_bid facts r sample c k readable h =
    let p : parses r.cpa_rub ≡ true = ground arith in
    let q : parses r.budget_utilization_percent ≡ true = ground arith in
    let safe =
      decrease-is_safe (facts_of facts r) (ground arith) (ground arith) (ground arith)
        (ground arith) (ground arith) (ground arith) in
    rw (action_is_safe, kind_is_safe, priced_is_safe, readable, p, q) safe
autonomous_is_safe increase_weekly_budget facts r sample c k readable h = ground arith
autonomous_is_safe decrease_weekly_budget facts r sample c k readable h = ground arith
autonomous_is_safe increase_search_bid facts r sample c k readable h = ground arith
autonomous_is_safe set_ad_variant facts r sample c k readable h = ground arith
autonomous_is_safe resume_campaign facts r sample c k readable h = ground arith
