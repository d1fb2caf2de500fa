-- ===== src/Commands.antt =====
-- src/mox_adv/commands.py: the exact command that a prepared change stands for.
-- `Fields` is a dict; integers are below 10 ^ 25, where the decimals of `calculate_relative_target`
-- are exact.
pub mod Build
pub mod Numeric
pub mod Rollback
pub mod Samples
mod Tests
use mox_adv.Prelude.{
  ℕ, zero, suc, ◌+◌, ◌-◌, ◌*◌, ◌/◌, ◌≤◌, String, Bool, true, false, not, ◌&&◌, ◌||◌, Option, none,
  some, List, [], ◌∷◌, ◌==◌, ltb, leb, nat_eq, if◌then◌else◌,
}
use mox_adv.Prelude.Json.{
  Json, Fields, null, flag, int, negative, text, instant, object, end, field,
}
use mox_adv.Prelude.Text.{is_blank, starts_with}
use mox_adv.Control.Rows.{
  OptimizationAction, increase_weekly_budget, decrease_weekly_budget, increase_search_bid,
  decrease_search_bid, set_ad_variant, suspend_campaign, resume_campaign, action_text,
  PreparedChange, execution_key,
}

pub data ActionFamily : Type 0 where
  weekly_budget search_bid ad_variant campaign_state : ActionFamily

-- A percentage with its sign.
pub data Percent : Type 0 where
  up down : ℕ → Percent

pub record ActionSpec : Type 0 where
  pub family : ActionFamily
  pub service : String
  pub method : String
  pub relative_percent : Option Percent
  pub source_state : Option String
  pub target_state : Option String
  pub rollback_action : OptimizationAction

abbrev numeric_spec : ActionFamily → String → String → Percent → OptimizationAction → ActionSpec
numeric_spec family service method percent rollback = record {
  family = family;
  service = service;
  method = method;
  relative_percent = some percent;
  source_state = none;
  target_state = none;
  rollback_action = rollback;
}

abbrev state_spec : String → String → String → OptimizationAction → ActionSpec
state_spec method source target rollback = record {
  family = campaign_state;
  service = "Campaigns";
  method = method;
  relative_percent = none;
  source_state = some source;
  target_state = some target;
  rollback_action = rollback;
}

-- ACTION_SPECS
abbrev pub action_spec : OptimizationAction → ActionSpec
action_spec increase_weekly_budget =
    numeric_spec weekly_budget "Campaigns" "update" (up 10) decrease_weekly_budget
action_spec decrease_weekly_budget =
    numeric_spec weekly_budget "Campaigns" "update" (down 10) increase_weekly_budget
action_spec increase_search_bid =
    numeric_spec search_bid "KeywordBids" "set" (up 10) decrease_search_bid
action_spec decrease_search_bid =
    numeric_spec search_bid "KeywordBids" "set" (down 10) increase_search_bid
action_spec set_ad_variant = record {
  family = ad_variant;
  service = "Ads";
  method = "update";
  relative_percent = none;
  source_state = none;
  target_state = none;
  rollback_action = set_ad_variant;
}
action_spec suspend_campaign = state_spec "suspend" "ON" "SUSPENDED" resume_campaign
action_spec resume_campaign = state_spec "resume" "SUSPENDED" "ON" suspend_campaign

pub record RollbackCommand : Type 0 where
  pub action : OptimizationAction
  pub target_value : Json

-- The fields of `HighLevelCommandBase`.
pub record CommandBase : Type 0 where
  pub action : OptimizationAction
  pub current_value : Json
  pub target_value : Json
  pub dry_run : Bool
  pub expected_diff : Fields
  pub organization : String
  pub connection : String
  pub account : String
  pub campaign : String
  pub proposal_id : String
  pub execution_key : String
  pub expected_fingerprint : String
  pub preconditions : List String
  pub minimum_value : ℕ
  pub maximum_value : ℕ
  pub readback_required : Bool
  pub rollback : RollbackCommand

pub data HighLevelCommand : Type 0 where
  weekly_budget_command search_bid_command campaign_state_command : CommandBase → HighLevelCommand
  ad_variant_command : CommandBase → String → String → String → String → HighLevelCommand

-- `type_error` is Python's, for a dict or a list that is looked up in a set.
pub data CommandResult (A : Type 0) : Type 0 where
  built : A → CommandResult A
  invalid_input : CommandResult A
  out_of_bounds : CommandResult A
  type_error : CommandResult A

-- `Decimal(n * multiplier) / 100`, rounded half up.
unfoldable pub round_half_up : ℕ → ℕ → ℕ
round_half_up n multiplier = (n * multiplier + 50) / 100

-- 100 + percent; a step is at most 10.
abbrev pub multiplier_of : Percent → ℕ
multiplier_of (up p) = 100 + p
multiplier_of (down p) = 100 - p

-- The negation of a natural number.
abbrev minus : ℕ → Json
minus zero = int 0
minus (suc n) = negative n

-- `none` where the current value is no integer.
unfoldable pub calculate_relative_target : Json → Percent → Option Json
unfolding round_half_up
calculate_relative_target (int n) p = some (int (round_half_up n (multiplier_of p)))
calculate_relative_target (negative n) p = some (minus (round_half_up (n + 1) (multiplier_of p)))
calculate_relative_target _ p = none

-- dict.get
abbrev pub lookup : String → Fields → Option Json
lookup key end = none
lookup key (field name value rest) = if name == key then some value else lookup key rest

abbrev pub member : String → List String → Bool
member name [] = false
member name (key ∷ keys) = name == key || member name keys

abbrev pub keys_within : List String → Fields → Bool
keys_within keys end = true
keys_within keys (field name value rest) = member name keys && keys_within keys rest

abbrev pub has_keys : List String → Fields → Bool
has_keys [] fields = true
has_keys (key ∷ keys) fields =
    elim (lookup key fields) [ none ↦ false | some _ ↦ true ] && has_keys keys fields

-- `set(fields) == set(keys)`
abbrev pub has_exactly : List String → Fields → Bool
has_exactly keys fields = keys_within keys fields && has_keys keys fields

abbrev pub is_text : String → Option Json → Bool
is_text s (some (text t)) = t == s
is_text s _ = false

-- `value == n` in Python, where True is 1 and False is 0.
abbrev pub equals_int : Json → Json → Bool
equals_int (int m) (int n) = nat_eq m n
equals_int (negative m) (negative n) = nat_eq m n
equals_int (flag true) (int n) = nat_eq 1 n
equals_int (flag false) (int n) = nat_eq 0 n
equals_int _ _ = false

-- Below the minimum, which is not negative, or above the maximum.
abbrev pub out_of_range : ℕ → ℕ → Json → Bool
out_of_range minimum maximum (int n) = ltb n minimum || ltb maximum n
out_of_range minimum maximum _ = true
