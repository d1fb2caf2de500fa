-- ===== src/Policy/Exact.antt =====
-- Exactly what `ApprovalRequiredPolicy` of src/mox_adv/approval_execution.py allows.
pub mod Conditions
use mox_adv.Prelude.{
  ℕ, ◌+◌, ◌*◌, ◌≤◌, ◌<◌, ◌≡◌, refl, ◌∙◌, ap, ◌↔◌, ◌⊎◌, inl, inr, String, Bool, true, false, not,
  ◌&&◌, ◌||◌, Option, none, some, List, [], ◌∷◌, ◌==◌, arith, Option-cases, eq_iff, eq_refl, leb,
  ltb, nat_eq,
}
use mox_adv.Prelude.Json.{Json}
use mox_adv.Prelude.Lists.{All}
use mox_adv.Commands.{member}
use mox_adv.Control.Rows.{
  OptimizationAction, suspend_campaign, increase_weekly_budget, decrease_weekly_budget,
  increase_search_bid, decrease_search_bid, set_ad_variant, resume_campaign, PreparedChange,
  TrustedScope, execution_key, action_text,
}
use mox_adv.Policy.{PolicyFile, PolicyOutcome, first_failure, same_scope, api_method_allowed}
use mox_adv.Policy.Approval.{
  ExecutionRequest, Step, plus, minus, checks, evaluate, step_percent, within, is_suspend,
  no_conversion_safety_stop, scope_matches_simulation,
}
use mox_adv.Policy.Safety.{ExecutionFacts, action_is_safe}
use mox_adv.Policy.Exact.Conditions.{
  IsComparable, IsWithin, IsBound, leb_iff, ltb_iff, not_iff, and_iff, or_iff, nat_eq_iff,
  IsWithin-iff, IsBound-iff, same_scope_refl, same_scope_iff, suspend_iff, IsComparable-iff,
}

module _ (canonical_hash : Json → String) (policy : PolicyFile) (prepared : PreparedChange)
    (request : ExecutionRequest) where
  -- What a request has to meet, beside the safety of its action.
  pub record IsEligible (step : Step) : Type 0 where
    pub mode_fits : request.facts.mode ≡ "APPROVAL_REQUIRED"
    pub is_enabled : request.facts.automation_enabled ≡ true
    pub same_target : request.scope ≡ prepared.scope
    pub same_key : request.execution_key ≡ execution_key canonical_hash prepared
    pub is_comparable : IsComparable policy prepared request.facts
    pub direct_fresh : request.facts.direct_age_minutes ≤ policy.direct_freshness_minutes
    pub metrika_fresh : request.facts.metrika_age_minutes ≤ policy.metrika_freshness_hours * 60
    pub little_skew :
        request.facts.watermark_skew_minutes ≤ policy.maximum_watermark_skew_hours * 60
    pub is_unchanged : request.facts.current_fingerprint ≡ prepared.expected_fingerprint
    pub is_cool : request.facts.cooldown_active ≡ false
    pub in_quota : request.facts.actions_in_last_24h < policy.mandate_actions_per_24h
    pub in_day_limit :
        IsWithin request.facts.cumulative_daily_change_percent step
          policy.maximum_daily_cumulative_change_percent
    pub in_money_limit : request.facts.monetary_exposure_rub ≤ policy.application_daily_spend_rub
    pub has_switch : request.facts.kill_switch_available ≡ true
    pub only_writer : prepared.scope.writer ≡ policy.single_writer
    pub is_bound : IsBound policy prepared.scope
    pub same_policy : prepared.policy_version ≡ policy.policy_id
    pub is_supported :
        member (action_text prepared.action) policy.controlled_pilot_reversible ≡ true
    pub has_method : api_method_allowed policy prepared.action ≡ true

-- The loop allows if and only if every check passed.
allowed_iff :
    (checks : List (Bool × String))
    → ((first_failure checks).allowed ≡ true) ↔ All (λ check. check.0 ≡ true) checks
unfolding first_failure
allowed_iff [] = (λ h. tt, λ h. refl)
allowed_iff ((true, reason) ∷ checks) =
    (λ h. (refl, (allowed_iff checks).0 h), λ h. (allowed_iff checks).1 h.1)
allowed_iff ((false, reason) ∷ checks) = (λ h. ground arith, λ h. ground arith)

-- An exception allows nothing.
abbrev pub is_allowed : Option PolicyOutcome → Bool
is_allowed none = false
is_allowed (some outcome) = outcome.allowed

module _ (canonical_hash : Json → String) (parse_int : String → Option Step) (policy : PolicyFile)
    (prepared : PreparedChange) (request : ExecutionRequest) where
  checks-IsEligible :
      (step : Step) (safe : Bool)
      → All
          (λ check. check.0 ≡ true)
          (checks canonical_hash parse_int policy prepared request step safe)
      → IsEligible canonical_hash policy prepared request step × (safe ≡ true)
  unfolding checks
  checks-IsEligible step safe all = (
    record {
      mode_fits = (eq_iff request.facts.mode "APPROVAL_REQUIRED").0 all.0;
      is_enabled = all.1.0;
      same_target = (same_scope_iff request.scope prepared.scope).0 all.1.1.0;
      same_key =
          (eq_iff request.execution_key (execution_key canonical_hash prepared)).0 all.1.1.1.0;
      is_comparable = (IsComparable-iff policy prepared request.facts).0 all.1.1.1.1.0;
      direct_fresh =
          (leb_iff request.facts.direct_age_minutes policy.direct_freshness_minutes).0
            all.1.1.1.1.1.0;
      metrika_fresh =
          (leb_iff request.facts.metrika_age_minutes (policy.metrika_freshness_hours * 60)).0
            all.1.1.1.1.1.1.0;
      little_skew =
          (leb_iff request.facts.watermark_skew_minutes
              (policy.maximum_watermark_skew_hours * 60)).0
            all.1.1.1.1.1.1.1.0;
      is_unchanged =
          (eq_iff request.facts.current_fingerprint prepared.expected_fingerprint).0
            all.1.1.1.1.1.1.1.1.0;
      is_cool = (not_iff request.facts.cooldown_active).0 all.1.1.1.1.1.1.1.1.1.0;
      in_quota =
          (ltb_iff request.facts.actions_in_last_24h policy.mandate_actions_per_24h).0
            all.1.1.1.1.1.1.1.1.1.1.0;
      in_day_limit =
          (IsWithin-iff request.facts.cumulative_daily_change_percent step
              policy.maximum_daily_cumulative_change_percent).0
            all.1.1.1.1.1.1.1.1.1.1.1.0;
      in_money_limit =
          (leb_iff request.facts.monetary_exposure_rub policy.application_daily_spend_rub).0
            all.1.1.1.1.1.1.1.1.1.1.1.1.0;
      has_switch = all.1.1.1.1.1.1.1.1.1.1.1.1.1.0;
      only_writer =
          (eq_iff prepared.scope.writer policy.single_writer).0 all.1.1.1.1.1.1.1.1.1.1.1.1.1.1.0;
      is_bound = (IsBound-iff policy prepared.scope).0 all.1.1.1.1.1.1.1.1.1.1.1.1.1.1.1.0;
      same_policy =
          (eq_iff prepared.policy_version policy.policy_id).0 all.1.1.1.1.1.1.1.1.1.1.1.1.1.1.1.1.0;
      is_supported = all.1.1.1.1.1.1.1.1.1.1.1.1.1.1.1.1.1.0;
      has_method = all.1.1.1.1.1.1.1.1.1.1.1.1.1.1.1.1.1.1.0;
    },
    all.1.1.1.1.1.1.1.1.1.1.1.1.1.1.1.1.1.1.1.0,
  )

  IsEligible-checks :
      (step : Step) (safe : Bool)
      → IsEligible canonical_hash policy prepared request step
      → safe ≡ true
      → All
          (λ check. check.0 ≡ true)
          (checks canonical_hash parse_int policy prepared request step safe)
  unfolding checks
  IsEligible-checks step safe h safe_ok = (
    (eq_iff request.facts.mode "APPROVAL_REQUIRED").1 h.mode_fits,
    (
      h.is_enabled,
      (
        (same_scope_iff request.scope prepared.scope).1 h.same_target,
        (
          (eq_iff request.execution_key (execution_key canonical_hash prepared)).1 h.same_key,
          (
            (IsComparable-iff policy prepared request.facts).1 h.is_comparable,
            (
              (leb_iff request.facts.direct_age_minutes policy.direct_freshness_minutes).1
                  h.direct_fresh,
              (
                (leb_iff request.facts.metrika_age_minutes (policy.metrika_freshness_hours * 60)).1
                    h.metrika_fresh,
                (
                  (leb_iff request.facts.watermark_skew_minutes
                        (policy.maximum_watermark_skew_hours * 60)).1
                      h.little_skew,
                  (
                    (eq_iff request.facts.current_fingerprint prepared.expected_fingerprint).1
                        h.is_unchanged,
                    (
                      (not_iff request.facts.cooldown_active).1 h.is_cool,
                      (
                        (ltb_iff request.facts.actions_in_last_24h policy.mandate_actions_per_24h).1
                            h.in_quota,
                        (
                          (IsWithin-iff request.facts.cumulative_daily_change_percent step
                                policy.maximum_daily_cumulative_change_percent).1
                              h.in_day_limit,
                          (
                            (leb_iff request.facts.monetary_exposure_rub
                                  policy.application_daily_spend_rub).1
                                h.in_money_limit,
                            (
                              h.has_switch,
                              (
                                (eq_iff prepared.scope.writer policy.single_writer).1 h.only_writer,
                                (
                                  (IsBound-iff policy prepared.scope).1 h.is_bound,
                                  (
                                    (eq_iff prepared.policy_version policy.policy_id).1
                                        h.same_policy,
                                    (h.is_supported, (h.has_method, (safe_ok, tt))),
                                  ),
                                ),
                              ),
                            ),
                          ),
                        ),
                      ),
                    ),
                  ),
                ),
              ),
            ),
          ),
        ),
      ),
    ),
  )

  -- The request meets every condition, at its step, and its action is safe on the facts.
  abbrev pub IsAllowed : Type 0
  IsAllowed =
      (step : Step) × (step_percent parse_int prepared ≡ some step)
      × IsEligible canonical_hash policy prepared request step
      × (action_is_safe prepared.action request.facts ≡ some true)

  -- The approval policy allows a request if and only if it meets every condition of the policy: its mode and
  -- automation, its scope and execution key, comparable and fresh snapshots, an unchanged target outside the
  -- cooldown, the quota of actions, the limits of change and of money, a kill switch at hand, the single writer, the
  -- trusted scope, the version of the policy, an action and an API method on its lists, and an action that is safe
  -- on the facts.
  pub evaluate_iff :
      (is_allowed (evaluate canonical_hash parse_int policy prepared request) ≡ true) ↔ IsAllowed
  unfolding evaluate
  evaluate_iff = (
    λ h. elim (Option-cases (step_percent parse_int prepared)) [
      | inl e ↦ ground arith
      | inr (step, e) ↦ elim (Option-cases (action_is_safe prepared.action request.facts)) [
        | inl f ↦ ground arith
        | inr (safe, f) ↦
            let passed =
              (allowed_iff (checks canonical_hash parse_int policy prepared request step safe)).0
                (rw (evaluate, e, f) at h) in
            let (eligible, safe_ok) = checks-IsEligible step safe passed in
            (step, e, eligible, f ∙ ap some safe_ok)
      ]
    ],
    λ (step, e, eligible, f).
        rw (evaluate, e, f)
          ((allowed_iff (checks canonical_hash parse_int policy prepared request step true)).1
            (IsEligible-checks step true eligible refl)),
  )
