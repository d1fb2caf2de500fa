-- ===== src/Mandate/Quota.antt =====
-- `usage`, `_check_quota` and `_validate_prepared_binding` of src/mox_adv/mandate_store.py.
-- Times are in microseconds. Their texts in the tables have one format, so that they compare as the times,
-- and the first ten characters are the day.
use mox_adv.Prelude.{
  ℕ, ◌+◌, ◌/◌, String, Bool, false, not, ◌&&◌, Option, none, some, List, [], ◌∷◌, ◌==◌, ltb, leb,
  nat_eq, if◌then◌else◌,
}
use mox_adv.Table.{count_rows}
use mox_adv.Commands.{is_text}
use mox_adv.Control.Reason.{boundary_rejected}
use mox_adv.Control.Rows.{PreparedChange, action_text}
use mox_adv.Mandate.{ConsumptionRow, MandateState}
use mox_adv.Mandate.State.{MandateResult, ok, check, with_ok}
use mox_adv.Mandate.Terms.{MandateTerms, has_text, step_percent}

abbrev pub microseconds_per_day : ℕ
microseconds_per_day = 86_400_000_000

abbrev pub is_of : String → ConsumptionRow → Bool
is_of id row = row.mandate_id == id

-- WHERE mandate_id = ? AND substr(reserved_at, 1, 10) = ?
abbrev pub is_of_day : String → ℕ → ConsumptionRow → Bool
is_of_day id day row = row.mandate_id == id && nat_eq (row.reserved_at / microseconds_per_day) day

-- WHERE mandate_id = ? AND reserved_at > now - 24 hours
abbrev pub is_recent : String → ℕ → ConsumptionRow → Bool
is_recent id now row = row.mandate_id == id && ltb now (row.reserved_at + microseconds_per_day)

-- COALESCE(SUM(monetary_exposure_rub), 0) … WHERE p
abbrev pub money_of : (ConsumptionRow → Bool) → List ConsumptionRow → ℕ
money_of p [] = 0
money_of p (row ∷ rows) =
    let rest = money_of p rows in if p row then row.monetary_exposure_rub + rest else rest

-- COALESCE(SUM(step_change_percent), 0) … WHERE p
abbrev pub steps_of : (ConsumptionRow → Bool) → List ConsumptionRow → ℕ
steps_of p [] = 0
steps_of p (row ∷ rows) =
    let rest = steps_of p rows in if p row then row.step_change_percent + rest else rest

abbrev pub later : ℕ → Option ℕ → ℕ
later n none = n
later n (some m) = if ltb m n then n else m

-- MAX(observation_until) … WHERE p
abbrev pub latest_until : (ConsumptionRow → Bool) → List ConsumptionRow → Option ℕ
latest_until p [] = none
latest_until p (row ∷ rows) =
    let rest = latest_until p rows in
    if p row then some (later row.observation_until rest) else rest

abbrev pub is_at : String → ConsumptionRow → Bool
is_at target row = row.target == target

abbrev pub is_later : ℕ → Option ℕ → Bool
is_later now none = false
is_later now (some until) = ltb now until

pub record MandateUsage : Type 0 where
  pub action_count : ℕ
  pub total_monetary_exposure_rub : ℕ
  pub daily_cumulative_change_percent : ℕ
  pub latest_observation_until : Option ℕ

-- WHERE mandate_id = ?, with the day where a time is given.
abbrev usage_filter : String → Option ℕ → ConsumptionRow → Bool
usage_filter id none row = is_of id row
usage_filter id (some now) row = is_of_day id (now / microseconds_per_day) row

unfoldable pub usage : String → Option ℕ → MandateState → MandateUsage
usage id now s = record {
  action_count = count_rows (usage_filter id now) s.consumptions;
  total_monetary_exposure_rub = money_of (usage_filter id now) s.consumptions;
  daily_cumulative_change_percent = steps_of (usage_filter id now) s.consumptions;
  latest_observation_until = latest_until (usage_filter id now) s.consumptions;
}

unfoldable pub validate_binding : MandateTerms → PreparedChange → MandateResult (Unit {0})
unfolding action_text
validate_binding terms prepared =
    with_ok
      (check (boundary_rejected "MANDATE_TARGET_MISMATCH") (
        is_text prepared.scope.organization (some terms.organization)
        && (is_text prepared.scope.connection (some terms.connection)
            && (is_text prepared.scope.account (some terms.account)
                && has_text prepared.scope.campaign terms.targets))))
      λ _.
        with_ok
          (check (boundary_rejected "UNSUPPORTED_ACTION")
            (has_text (action_text prepared.action) terms.allowed))
          λ _.
            with_ok
              (check (boundary_rejected "UNSUPPORTED_ACTION")
                (not (has_text (action_text prepared.action) terms.prohibited)))
              λ _.
                check (boundary_rejected "POLICY_VERSION_MISMATCH")
                  (is_text prepared.policy_version (some terms.policy_version))

-- The tests before the step of the change is known, and those after.
unfoldable pub check_exposure :
    String → MandateTerms → String → ℕ → ℕ → List ConsumptionRow → MandateResult (Unit {0})
check_exposure id terms target exposure now rows =
    with_ok
      (check (boundary_rejected "MONETARY_CAP_REACHED")
        (leb (money_of (is_of id) rows + exposure) terms.total_monetary_limit))
      λ _.
        with_ok
          (check (boundary_rejected "ACTION_QUOTA_REACHED")
            (ltb (count_rows (is_recent id now) rows) terms.actions_per_24h))
          λ _.
            with_ok
              (check (boundary_rejected "OBSERVATION_WINDOW_ACTIVE")
                (not (is_later now (latest_until (is_at target) rows))))
              λ _. check (boundary_rejected "DAILY_MONETARY_LIMIT_REACHED") (
                leb (money_of (is_of_day id (now / microseconds_per_day)) rows + exposure)
                  terms.daily_monetary_limit)

unfoldable pub check_step :
    String → MandateTerms → ℕ → ℕ → List ConsumptionRow → MandateResult (Unit {0})
check_step id terms step now rows =
    with_ok (check (boundary_rejected "STEP_LIMIT_EXCEEDED") (leb step terms.maximum_step_change))
      λ _. check (boundary_rejected "DAILY_CHANGE_LIMIT_EXCEEDED") (
        leb (steps_of (is_of_day id (now / microseconds_per_day)) rows + step)
          terms.maximum_daily_change)

-- The step is the result, which `reserve_execution` computes again.
unfoldable pub check_quota :
    String → MandateTerms → PreparedChange → ℕ → ℕ → MandateState → MandateResult ℕ
unfolding check_exposure check_step step_percent
check_quota id terms prepared exposure now s =
    with_ok (check_exposure id terms prepared.scope.campaign exposure now s.consumptions) λ _.
      with_ok (step_percent prepared)
        λ step. with_ok (check_step id terms step now s.consumptions) λ _. ok step
