-- ===== src/Mandate/Exact.antt =====
-- `_check_quota` of src/mox_adv/mandate_store.py against what a mandate admits.
use mox_adv.Prelude.{
  ℕ, ◌+◌, ◌/◌, ◌≤◌, ◌<◌, ◌≡◌, refl, ◌↔◌, true, false, List, [], ◌∷◌, ◌==◌, String, arith,
  Option-cases, Bool-cases, inl, inr, leb, ltb,
}
use mox_adv.Table.{count_rows}
use mox_adv.Control.Rows.{PreparedChange}
use mox_adv.Mandate.{ConsumptionRow, MandateState}
use mox_adv.Mandate.Execute.{new_consumption}
use mox_adv.Mandate.Invariant.Reservation.{check_quota-IsAdmitted}
use mox_adv.Mandate.Lawful.{AreObserved, IsAdmitted}
use mox_adv.Mandate.Quota.{
  check_exposure, check_step, check_quota, is_of, is_of_day, is_recent, is_at, is_later,
  latest_until, money_of, steps_of, microseconds_per_day,
}
use mox_adv.Mandate.State.{ok}
use mox_adv.Mandate.Terms.{MandateTerms, step_percent}
use mox_adv.Mandate.Trace.{Environment}

ltb-false : (m n : ℕ) → n ≤ m → ltb m n ≡ false
ltb-false m n h = ground arith

leb-holds : (m n : ℕ) → m ≤ n → leb m n ≡ true
leb-holds m n h = ground arith

ltb-holds : (m n : ℕ) → m < n → ltb m n ≡ true
ltb-holds m n h = ground arith

-- Where each window is over, so is the latest.
AreObserved-latest :
    (target : String) (now : ℕ) (rows : List ConsumptionRow)
    → AreObserved target now rows
    → is_later now (latest_until (is_at target) rows) ≡ false
AreObserved-latest target now [] h = refl
AreObserved-latest target now (row ∷ rows) (h, hs) = elim (Bool-cases (row.target == target)) [
  | inl e ↦ elim (Option-cases (latest_until (is_at target) rows)) [
    | inl f ↦ rw (e, f) (ltb-false now row.observation_until (h e))
    | inr (until, f) ↦
        let earlier : is_later now (latest_until (is_at target) rows) ≡ false =
          AreObserved-latest target now rows hs in
        let over : row.observation_until ≤ now = h e in rw (e, f) (ground arith)
  ]
  | inr e ↦ rw e (AreObserved-latest target now rows hs)
]

IsAdmitted-exposure :
    (env : Environment) (id : String) (terms : MandateTerms) (prepared : PreparedChange)
    (exposure change now : ℕ) (rows : List ConsumptionRow)
    → IsAdmitted id terms
        (new_consumption env.canonical_hash env.sign env.json env.parse_time id terms prepared
          exposure change now)
        rows
    → check_exposure id terms prepared.scope.campaign exposure now rows ≡ ok tt
unfolding check_exposure new_consumption
IsAdmitted-exposure env id terms prepared exposure change now rows
      (total, few, observed, daily, _, _, _) =
    rw
      (
        check_exposure,
        leb-holds (money_of (is_of id) rows + exposure) terms.total_monetary_limit total,
        ltb-holds (count_rows (is_recent id now) rows) terms.actions_per_24h few,
        AreObserved-latest prepared.scope.campaign now rows observed,
        leb-holds (money_of (is_of_day id (now / microseconds_per_day)) rows + exposure)
            terms.daily_monetary_limit daily,
      )
      refl

IsAdmitted-step :
    (env : Environment) (id : String) (terms : MandateTerms) (prepared : PreparedChange)
    (exposure change now : ℕ) (rows : List ConsumptionRow)
    → IsAdmitted id terms
        (new_consumption env.canonical_hash env.sign env.json env.parse_time id terms prepared
          exposure change now)
        rows
    → check_step id terms change now rows ≡ ok tt
unfolding check_step new_consumption
IsAdmitted-step env id terms prepared exposure change now rows (_, _, _, _, small, steps, _) =
    rw
      (
        check_step,
        leb-holds change terms.maximum_step_change small,
        leb-holds (steps_of (is_of_day id (now / microseconds_per_day)) rows + change)
            terms.maximum_daily_change steps,
      )
      refl

-- For a change whose step is an integer, `_check_quota` accepts it if and only if the row that would be
-- inserted keeps every account of the mandate within its terms, and no earlier row for its target is under
-- observation.
pub check_quota_iff :
    (env : Environment) (id : String) (terms : MandateTerms) (prepared : PreparedChange)
    (exposure change now : ℕ) (s : MandateState)
    → step_percent prepared ≡ ok change
    → (check_quota id terms prepared exposure now s ≡ ok change)
      ↔ IsAdmitted id terms
          (new_consumption env.canonical_hash env.sign env.json env.parse_time id terms prepared
            exposure change now)
          s.consumptions
unfolding check_quota
check_quota_iff env id terms prepared exposure change now s stepped = (
  check_quota-IsAdmitted env.canonical_hash env.sign env.json env.parse_time id terms prepared
      exposure change now s,
  λ admitted.
      rw
        (
          check_quota,
          IsAdmitted-exposure env id terms prepared exposure change now s.consumptions admitted,
          stepped,
          IsAdmitted-step env id terms prepared exposure change now s.consumptions admitted,
        )
        refl,
)
