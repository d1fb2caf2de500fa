-- ===== src/Commands/Samples.antt =====
-- Changes that the tests of src/mox_adv/commands.py and of the policies share.
use mox_adv.Prelude.{ℕ, String}
use mox_adv.Prelude.Json.{Json, Fields, int, text, end, field}
use mox_adv.Control.Rows.{PreparedChange, OptimizationAction, decrease_search_bid, action_text}

abbrev pub hash : Json → String
hash _ = "sha256:0"

abbrev pub change : OptimizationAction → Json → Json → Fields → PreparedChange
change action current target diff = record {
  proposal_id = "p";
  proposal_hash = "h";
  scope = record {
    organization = "o";
    connection = "c";
    account = "a";
    campaign = "k";
    writer = "w";
  };
  action = action;
  current_value = current;
  target_value = target;
  expected_diff = diff;
  snapshot_id = "s";
  snapshot_generated_at = "2026-01-01T00:00:00+00:00";
  direct_watermark = "d";
  metrika_watermark = "m";
  policy_version = "v1";
  expected_fingerprint = "f";
  risk = "LOW";
}

abbrev pub step_of : ℕ → OptimizationAction → Fields
step_of n action =
    field "operation" (text (action_text action)) (field "relative_step_percent" (int n) end)

-- 5 % less than 90 is 85.5, which is rounded to 86.
abbrev pub lower_bid : PreparedChange
lower_bid = change decrease_search_bid (int 90) (int 86) (step_of 5 decrease_search_bid)
