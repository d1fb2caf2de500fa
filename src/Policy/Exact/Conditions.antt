-- ===== src/Policy/Exact/Conditions.antt =====
-- The conditions of `ApprovalRequiredPolicy` in src/mox_adv/approval_execution.py, and the tests that decide them.
use mox_adv.Prelude.{
  ℕ, ◌+◌, ◌≤◌, ◌<◌, ◌≡◌, refl, ◌↔◌, ◌⊎◌, inl, inr, Bool, true, false, not, ◌&&◌, ◌||◌, ◌==◌, arith,
  eq_iff, eq_refl, leb, ltb, nat_eq,
}
use mox_adv.Control.Rows.{
  OptimizationAction, suspend_campaign, increase_weekly_budget, decrease_weekly_budget,
  increase_search_bid, decrease_search_bid, set_ad_variant, resume_campaign, PreparedChange,
  TrustedScope,
}
use mox_adv.Policy.{PolicyFile, same_scope}
use mox_adv.Policy.Approval.{
  Step, plus, minus, within, is_suspend, no_conversion_safety_stop, scope_matches_simulation,
}
use mox_adv.Policy.Safety.{ExecutionFacts}

-- A comparable snapshot that is ready for recommendations on money; or the stop of a campaign that spends
-- without a conversion, which needs a comparable snapshot only.
abbrev pub IsComparable : PolicyFile → PreparedChange → ExecutionFacts → Type 0
IsComparable policy prepared facts =
    ((prepared.action ≡ suspend_campaign)
      × (facts.comparability_status ≡ "COMPARABLE")
      × (facts.conversions ≡ 0)
      × (policy.no_conversion_stop_spend_rub ≤ facts.spend_rub))
    ⊎ ((facts.comparability_status ≡ "COMPARABLE")
        × (facts.confidence_status ≡ "READY")
        × (facts.financial_recommendations_allowed ≡ true))

-- A total and a signed step, against a limit.
abbrev pub IsWithin : ℕ → Step → ℕ → Type 0
IsWithin total (plus n) limit = total + n ≤ limit
IsWithin total (minus n) limit = total ≤ limit + n

abbrev pub IsBound : PolicyFile → TrustedScope → Type 0
IsBound policy scope =
    (scope.organization ≡ policy.organization)
    × (scope.connection ≡ policy.connection)
    × (scope.account ≡ policy.direct_account)

pub leb_iff : (m n : ℕ) → (leb m n ≡ true) ↔ (m ≤ n)
leb_iff m n = (λ h. ground arith, λ h. ground arith)

pub ltb_iff : (m n : ℕ) → (ltb m n ≡ true) ↔ (m < n)
ltb_iff m n = (λ h. ground arith, λ h. ground arith)

pub not_iff : (b : Bool) → (not b ≡ true) ↔ (b ≡ false)
not_iff b = (λ h. ground arith, λ h. ground arith)

pub and_iff : (a b : Bool) → ((a && b) ≡ true) ↔ ((a ≡ true) × (b ≡ true))
and_iff a b = (λ h. (ground arith, ground arith), λ h. ground arith)

pub or_iff : (a b : Bool) → ((a || b) ≡ true) ↔ ((a ≡ true) ⊎ (b ≡ true))
or_iff true b = (λ h. inl refl, λ h. refl)
or_iff false b = (λ h. inr h, λ h. ground arith)

pub nat_eq_iff : (m n : ℕ) → (nat_eq m n ≡ true) ↔ (m ≡ n)
nat_eq_iff m n = (λ h. ground arith, λ h. ground arith)

pub IsWithin-iff :
    (total : ℕ) (step : Step) (limit : ℕ)
    → (within total step limit ≡ true) ↔ IsWithin total step limit
IsWithin-iff total (plus n) limit = leb_iff (total + n) limit
IsWithin-iff total (minus n) limit = leb_iff total (limit + n)

pub IsBound-iff :
    (policy : PolicyFile) (scope : TrustedScope)
    → (scope_matches_simulation policy scope ≡ true) ↔ IsBound policy scope
IsBound-iff policy scope = (
  λ h.
      let (organization, rest) = (and_iff (scope.organization == policy.organization) _).0 h in
      let (connection, account) = (and_iff (scope.connection == policy.connection) _).0 rest in
      (
        (eq_iff scope.organization policy.organization).0 organization,
        (eq_iff scope.connection policy.connection).0 connection,
        (eq_iff scope.account policy.direct_account).0 account,
      ),
  λ (organization, connection, account). (and_iff _ _).1 (
    (eq_iff scope.organization policy.organization).1 organization,
    (and_iff _ _).1 (
      (eq_iff scope.connection policy.connection).1 connection,
      (eq_iff scope.account policy.direct_account).1 account,
    ),
  ),
)

pub same_scope_refl : (a : TrustedScope) → same_scope a a ≡ true
same_scope_refl a = (and_iff _ _).1 (
  eq_refl a.organization,
  (and_iff _ _).1 (
    eq_refl a.connection,
    (and_iff _ _).1 (eq_refl a.account, (and_iff _ _).1 (eq_refl a.campaign, eq_refl a.writer)),
  ),
)

pub same_scope_iff : (a b : TrustedScope) → (same_scope a b ≡ true) ↔ (a ≡ b)
same_scope_iff a b = (
  λ h.
      let (organization, rest) = (and_iff (a.organization == b.organization) _).0 h in
      let (connection, others) = (and_iff (a.connection == b.connection) _).0 rest in
      let (account, last) = (and_iff (a.account == b.account) _).0 others in
      let (campaign, writer) = (and_iff (a.campaign == b.campaign) (a.writer == b.writer)).0 last in
      let o : a.organization ≡ b.organization =
        (eq_iff a.organization b.organization).0 organization in
      let c : a.connection ≡ b.connection = (eq_iff a.connection b.connection).0 connection in
      let t : a.account ≡ b.account = (eq_iff a.account b.account).0 account in
      let k : a.campaign ≡ b.campaign = (eq_iff a.campaign b.campaign).0 campaign in
      let w : a.writer ≡ b.writer = (eq_iff a.writer b.writer).0 writer in
      λ i. record {
        organization = o i;
        connection = c i;
        account = t i;
        campaign = k i;
        writer = w i;
      },
  λ e. rw e (same_scope_refl b),
)

pub suspend_iff : (a : OptimizationAction) → (is_suspend a ≡ true) ↔ (a ≡ suspend_campaign)
suspend_iff increase_weekly_budget = (λ h. ground arith, λ h. ground arith)
suspend_iff decrease_weekly_budget = (λ h. ground arith, λ h. ground arith)
suspend_iff increase_search_bid = (λ h. ground arith, λ h. ground arith)
suspend_iff decrease_search_bid = (λ h. ground arith, λ h. ground arith)
suspend_iff set_ad_variant = (λ h. ground arith, λ h. ground arith)
suspend_iff resume_campaign = (λ h. ground arith, λ h. ground arith)
suspend_iff suspend_campaign = (λ h. refl, λ h. refl)

pub IsComparable-iff :
    (policy : PolicyFile) (prepared : PreparedChange) (facts : ExecutionFacts)
    → ((no_conversion_safety_stop policy prepared facts
          || (facts.comparability_status == "COMPARABLE"
              && (facts.confidence_status == "READY" && facts.financial_recommendations_allowed)))
        ≡ true)
      ↔ IsComparable policy prepared facts
unfolding no_conversion_safety_stop
IsComparable-iff policy prepared facts = (
  λ h. elim ((or_iff (no_conversion_safety_stop policy prepared facts) _).0 h) [
    | inl stop ↦
        let (suspends, rest) = (and_iff (is_suspend prepared.action) _).0 stop in
        let (comparable, spent) = (and_iff (facts.comparability_status == "COMPARABLE") _).0 rest in
        let (unconverted, dear) = (and_iff (nat_eq facts.conversions 0) _).0 spent in
        inl (
          (suspend_iff prepared.action).0 suspends,
          (eq_iff facts.comparability_status "COMPARABLE").0 comparable,
          (nat_eq_iff facts.conversions 0).0 unconverted,
          (leb_iff policy.no_conversion_stop_spend_rub facts.spend_rub).0 dear,
        )
    | inr ready ↦
        let (comparable, rest) = (and_iff (facts.comparability_status == "COMPARABLE") _).0 ready in
        let (confident, recommends) = (and_iff (facts.confidence_status == "READY") _).0 rest in
        inr (
          (eq_iff facts.comparability_status "COMPARABLE").0 comparable,
          (eq_iff facts.confidence_status "READY").0 confident,
          recommends,
        )
  ],
  λ c. (or_iff (no_conversion_safety_stop policy prepared facts) _).1 (elim c [
    | inl (suspends, comparable, unconverted, dear) ↦ inl (
        (and_iff (is_suspend prepared.action) _).1 (
          (suspend_iff prepared.action).1 suspends,
          (and_iff _ _).1 (
            (eq_iff facts.comparability_status "COMPARABLE").1 comparable,
            (and_iff _ _).1 (
              (nat_eq_iff facts.conversions 0).1 unconverted,
              (leb_iff policy.no_conversion_stop_spend_rub facts.spend_rub).1 dear,
            ),
          ),
        ))
    | inr (comparable, confident, recommends) ↦ inr (
        (and_iff _ _).1 (
          (eq_iff facts.comparability_status "COMPARABLE").1 comparable,
          (and_iff _ _).1 ((eq_iff facts.confidence_status "READY").1 confident, recommends),
        ))
  ]),
)
