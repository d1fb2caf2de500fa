-- ===== src/Mandate/Invariant/Reservation.antt =====
-- That a reservation of src/mox_adv/mandate_store.py is within the quotas that it was checked against.
use mox_adv.Prelude.{
  ℕ, ◌+◌, ◌/◌, ◌≤◌, ◌<◌, String, ◌≡◌, refl, subst, Bool, true, false, not, Option, List, [], ◌∷◌,
  ◌==◌, Option-cases, Bool-cases, inl, inr, arith, ltb, leb,
}
use mox_adv.Prelude.Json.{Json}
use mox_adv.Table.{count_rows}
use mox_adv.Control.Reason.{ReasonCode, boundary_rejected}
use mox_adv.Control.Rows.{PreparedChange}
use mox_adv.Mandate.{JsonText, ConsumptionRow, MandateState}
use mox_adv.Mandate.Lawful.{AreObserved, IsAdmitted}
use mox_adv.Mandate.Execute.{new_consumption}
use mox_adv.Mandate.Quota.{
  check_exposure, check_step, check_quota, is_of, is_of_day, is_recent, is_at, is_later,
  latest_until, money_of, steps_of, microseconds_per_day,
}
use mox_adv.Mandate.Results.{ok-injective, with_ok-Returned, check-passes}
use mox_adv.Mandate.State.{ok, check}
use mox_adv.Mandate.Terms.{MandateTerms, step_percent}

abbrev over : String → ReasonCode
over code = boundary_rejected code

-- The maximum of the windows is over, so each is.
latest-AreObserved :
    (target : String) (now : ℕ) (rows : List ConsumptionRow)
    → is_later now (latest_until (is_at target) rows) ≡ false
    → AreObserved target now rows
latest-AreObserved target now [] h = tt
latest-AreObserved target now (row ∷ rows) h = elim (Bool-cases (row.target == target)) [
  | inl e ↦ elim (Option-cases (latest_until (is_at target) rows)) [
    | inl none_ ↦ (λ same. ground arith, latest-AreObserved target now rows (ground arith))
    | inr (until, found) ↦ (λ same. ground arith, latest-AreObserved target now rows (ground arith))
  ]
  | inr e ↦ (λ same. cc, latest-AreObserved target now rows (ground arith))
]

leb-true : (m n : ℕ) → leb m n ≡ true → m ≤ n
leb-true m n h = ground arith

ltb-true : (m n : ℕ) → ltb m n ≡ true → m < n
ltb-true m n h = ground arith

not-true : (b : Bool) → not b ≡ true → b ≡ false
not-true true h = cc
not-true false h = refl

check_exposure-facts :
    (id : String) (terms : MandateTerms) (target : String) (exposure now : ℕ)
    (rows : List ConsumptionRow)
    → check_exposure id terms target exposure now rows ≡ ok tt
    → (money_of (is_of id) rows + exposure ≤ terms.total_monetary_limit)
      × (count_rows (is_recent id now) rows < terms.actions_per_24h)
      × AreObserved target now rows
      × (money_of (is_of_day id (now / microseconds_per_day)) rows + exposure
          ≤ terms.daily_monetary_limit)
unfolding check_exposure
check_exposure-facts id terms target exposure now rows h =
    let total = leb (money_of (is_of id) rows + exposure) terms.total_monetary_limit in
    let few = ltb (count_rows (is_recent id now) rows) terms.actions_per_24h in
    let observed = not (is_later now (latest_until (is_at target) rows)) in
    let (_, a, rest) = with_ok-Returned (check (over "MONETARY_CAP_REACHED") total) _ tt h in
    let (_, b, rest_2) = with_ok-Returned (check (over "ACTION_QUOTA_REACHED") few) _ tt rest in
    let (_, c, d) =
      with_ok-Returned (check (over "OBSERVATION_WINDOW_ACTIVE") observed) _ tt rest_2 in
    (
      leb-true _ _ (check-passes _ _ tt a),
      ltb-true _ _ (check-passes _ _ tt b),
      latest-AreObserved target now rows (not-true _ (check-passes _ _ tt c)),
      leb-true _ _ (check-passes _ _ tt d),
    )

check_step-facts :
    (id : String) (terms : MandateTerms) (change now : ℕ) (rows : List ConsumptionRow)
    → check_step id terms change now rows ≡ ok tt
    → (change ≤ terms.maximum_step_change)
      × (steps_of (is_of_day id (now / microseconds_per_day)) rows + change
          ≤ terms.maximum_daily_change)
unfolding check_step
check_step-facts id terms change now rows h =
    let small = leb change terms.maximum_step_change in
    let (_, a, b) = with_ok-Returned (check (over "STEP_LIMIT_EXCEEDED") small) _ tt h in
    (leb-true _ _ (check-passes _ _ tt a), leb-true _ _ (check-passes _ _ tt b))

-- What `_check_quota` accepts, the mandate admits.
pub check_quota-IsAdmitted :
    (canonical_hash : Json → String) (sign : String → String) (json : JsonText)
    (parse_time : String → Option ℕ) (id : String) (terms : MandateTerms)
    (prepared : PreparedChange) (exposure change now : ℕ) (s : MandateState)
    → check_quota id terms prepared exposure now s ≡ ok change
    → IsAdmitted id terms
        (new_consumption canonical_hash sign json parse_time id terms prepared exposure change now)
        s.consumptions
unfolding check_quota new_consumption
check_quota-IsAdmitted canonical_hash sign json parse_time id terms prepared exposure change now s
      h =
    let target = prepared.scope.campaign in
    let (_, first, rest) =
      with_ok-Returned (check_exposure id terms target exposure now s.consumptions) _ change h in
    let (n, stepped, rest_2) = with_ok-Returned (step_percent prepared) _ change rest in
    let (_, second, same) =
      with_ok-Returned (check_step id terms n now s.consumptions) (λ _. ok n) change rest_2 in
    let (total, few, observed, daily) =
      check_exposure-facts id terms target exposure now s.consumptions first in
    let e : n ≡ change = ok-injective n change same in
    let (small, steps) =
      check_step-facts id terms change now s.consumptions
        (subst (λ k. check_step id terms k now s.consumptions ≡ ok tt) e second) in
    (total, few, observed, daily, small, steps, refl)
