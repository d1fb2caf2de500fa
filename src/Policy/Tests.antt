-- ===== src/Policy/Tests.antt =====
-- The policies at concrete facts, and the theorems at them.
use mox_adv.Prelude.{◌↔◌, ◌≡◌, refl, String, true, false, some, none, [], ◌∷◌, Option, arith}
use mox_adv.Control.Rows.{decrease_search_bid, execution_key, action_text}
use mox_adv.Commands.Samples.{lower_bid, hash}
use mox_adv.Policy.{PolicyFile, PolicyOutcome, first_failure, api_method_allowed}
use mox_adv.Policy.Approval.{
  ExecutionRequest, Step, checks, evaluate, step_percent, no_conversion_safety_stop,
}
use mox_adv.Policy.Safety.{
  ExecutionFacts, action_is_safe, kind_is_safe, priced_is_safe, numeric_is_safe,
  increase_budget_is_safe, decrease_budget_is_safe, increase_bid_is_safe, decrease_bid_is_safe,
}
use mox_adv.Policy.Autonomy.{
  BoundedAutonomyRequest, autonomous_action_is_safe, autonomy_evaluate, autonomy_checks,
}
use mox_adv.Policy.Decimals.{number, not_applicable, at_most, below}
use mox_adv.Policy.Laws.{facts_of, autonomous_is_safe}
use mox_adv.Policy.Exact.{is_allowed, IsAllowed, evaluate_iff}

abbrev policy : PolicyFile
policy = record {
  policy_id = "v1";
  no_conversion_stop_spend_rub = 2000;
  direct_freshness_minutes = 60;
  metrika_freshness_hours = 24;
  maximum_watermark_skew_hours = 24;
  mandate_actions_per_24h = 2;
  maximum_daily_cumulative_change_percent = 20;
  application_daily_spend_rub = 5000;
  single_writer = "w";
  organization = "o";
  connection = "c";
  direct_account = "a";
  controlled_pilot_reversible = "DECREASE_SEARCH_BID" ∷ [];
  bounded_autonomy = "DECREASE_SEARCH_BID" ∷ [];
  always_require_approval = [];
  api_matrix =
      record {
        system = "DIRECT";
        environment = "production";
        host = "api.direct.yandex.com";
        version = "v501";
        service = "KeywordBids";
        method = "set";
        http_verb = "POST";
      }
      ∷ [];
}

-- A CPA of 1200.50 at a utilization of 75 %.
abbrev facts : ExecutionFacts
facts = record {
  mode = "APPROVAL_REQUIRED";
  automation_enabled = true;
  comparability_status = "COMPARABLE";
  confidence_status = "READY";
  financial_recommendations_allowed = true;
  direct_age_minutes = 5;
  metrika_age_minutes = 30;
  watermark_skew_minutes = 10;
  clicks = 80;
  conversions = 4;
  impressions = 9000;
  spend_rub = 4802;
  cpa_rub = number 120_050 2;
  budget_utilization_percent = number 75 0;
  ctr_percent = number 9 1;
  campaign_state = "ON";
  campaign_strategy = "HIGHEST_POSITION";
  current_fingerprint = "f";
  cooldown_active = false;
  actions_in_last_24h = 1;
  cumulative_daily_change_percent = 10;
  monetary_exposure_rub = 100;
  kill_switch_available = true;
}

abbrev request : ExecutionRequest
request = record {
  proposal_id = "p";
  execution_key = execution_key hash lower_bid;
  scope = lower_bid.scope;
  facts = facts;
}

abbrev no_text : String → Option Step
no_text _ = none

abbrev allows : PolicyOutcome
allows = record { allowed = true; reason_code = none }

evaluate_iff_example :
    (is_allowed (evaluate hash no_text policy lower_bid request) ≡ true)
    ↔ IsAllowed hash no_text policy lower_bid request
evaluate_iff_example = evaluate_iff hash no_text policy lower_bid request

-- The request is allowed.
approval_allows : evaluate hash no_text policy lower_bid request ≡ some allows
unfolding evaluate checks first_failure step_percent action_is_safe kind_is_safe priced_is_safe
    numeric_is_safe increase_budget_is_safe decrease_budget_is_safe increase_bid_is_safe
    decrease_bid_is_safe no_conversion_safety_stop api_method_allowed action_text at_most below
    execution_key
approval_allows = refl

abbrev autonomous : BoundedAutonomyRequest
autonomous = record {
  mandate_id = "m";
  proposal_id = "p";
  execution_key = execution_key hash lower_bid;
  scope = lower_bid.scope;
  mode = "BOUNDED_AUTONOMY";
  automation_enabled = true;
  comparability_status = "COMPARABLE";
  confidence_status = "READY";
  financial_recommendations_allowed = true;
  direct_age_minutes = 5;
  metrika_age_minutes = 30;
  watermark_skew_minutes = 10;
  clicks = 80;
  conversions = 4;
  spend_rub = 4802;
  cpa_rub = number 120_050 2;
  budget_utilization_percent = number 75 0;
  campaign_state = "ON";
  campaign_strategy = "HIGHEST_POSITION";
  current_fingerprint = "f";
}

autonomy_allows :
    autonomy_evaluate hash policy lower_bid autonomous (record { clicks = 50; conversions = 3 })
    ≡ some allows
unfolding autonomy_evaluate autonomy_checks first_failure autonomous_action_is_safe
    api_method_allowed action_text at_most below execution_key
autonomy_allows = refl

autonomous_is_safe_example :
    action_is_safe decrease_search_bid (facts_of facts autonomous) ≡ some true
unfolding autonomous_action_is_safe at_most below
autonomous_is_safe_example =
    autonomous_is_safe decrease_search_bid facts autonomous
      (record { clicks = 50; conversions = 3 }) (omega arith) (omega arith) refl refl

-- A CPA that is not applicable counts as infinite, but `Decimal` refuses it for a bid.
no_cpa : action_is_safe decrease_search_bid (record facts { cpa_rub = not_applicable }) ≡ none
unfolding action_is_safe kind_is_safe
no_cpa = refl
