-- ===== src/Mandate/Validate/Limits.antt =====
-- `_validate_limits` of src/mox_adv/mandate_store.py.
use mox_adv.Prelude.{ℕ, String, Bool, false, ◌&&◌, Option, some, List, [], ◌∷◌, ltb, leb}
use mox_adv.Prelude.Json.{Json, Fields, int, negative, object}
use mox_adv.Commands.{lookup, has_exactly}
use mox_adv.Control.Reason.{boundary_rejected, invalid_input}
use mox_adv.Mandate.{MandatePolicy}
use mox_adv.Mandate.State.{MandateResult, ok, rejected, check, with_ok}
use mox_adv.Mandate.Terms.{at}

-- One entry of `numeric_limits`.
unfoldable pub limit_within : ℕ → Json → MandateResult (Unit {0})
limit_within maximum (int n) =
    check (boundary_rejected "MANDATE_LIMIT_WIDENED") (ltb 0 n && leb n maximum)
limit_within maximum (negative n) = rejected (boundary_rejected "MANDATE_LIMIT_WIDENED")
limit_within maximum _ = rejected invalid_input

abbrev limits_within : List (String × ℕ) → Fields → MandateResult (Unit {0})
limits_within [] c = ok tt
limits_within (limit ∷ limits) c =
    with_ok (at limit.0 c λ value. limit_within limit.1 value) λ _. limits_within limits c

abbrev pub numeric_limits : MandatePolicy → List (String × ℕ)
numeric_limits policy =
    ("total_monetary_limit", policy.mandate_total_exposure_rub)
    ∷ ("daily_monetary_limit", policy.mandate_daily_exposure_rub)
    ∷ ("maximum_step_change", policy.maximum_step_percent)
    ∷ ("maximum_daily_change", policy.maximum_daily_cumulative_change_percent)
    ∷ ("platform_side_spend_cap", policy.platform_weekly_spend_rub)
    ∷ []

abbrev at_least : ℕ → Option Json → Bool
at_least minimum (some (int n)) = leb minimum n
at_least minimum _ = false

unfoldable pub is_cooldown : MandatePolicy → Json → Bool
is_cooldown policy (object fields) =
    has_exactly ("hours" ∷ "observation_window_hours" ∷ []) fields
    && (at_least policy.cooldown_hours (lookup "hours" fields)
        && at_least policy.observation_window_hours (lookup "observation_window_hours" fields))
is_cooldown policy _ = false

abbrev is_quota : ℕ → Option Json → Bool
is_quota maximum (some (int n)) = ltb 0 n && leb n maximum
is_quota maximum _ = false

unfoldable pub are_quotas : MandatePolicy → Json → Bool
are_quotas policy (object fields) =
    has_exactly ("actions_per_24h" ∷ []) fields
    && is_quota policy.mandate_actions_per_24h (lookup "actions_per_24h" fields)
are_quotas policy _ = false

unfoldable pub validate_limits : MandatePolicy → Fields → MandateResult (Unit {0})
unfolding limit_within is_cooldown are_quotas
validate_limits policy c = with_ok (limits_within (numeric_limits policy) c) λ _.
    at "cooldown" c λ cooldown.
      with_ok (check (boundary_rejected "MANDATE_COOLDOWN_WIDENED") (is_cooldown policy cooldown))
        λ _.
          at "action_quotas" c
            λ quotas. check (boundary_rejected "MANDATE_QUOTA_WIDENED") (are_quotas policy quotas)
