-- ===== src/Mandate/Lawful.antt =====
-- Consumptions of src/mox_adv/mandate_store.py, newest first, each within the quotas of its mandate.
use mox_adv.Prelude.{
  ℕ, ◌+◌, ◌*◌, ◌/◌, ◌≤◌, ◌<◌, ◌≡◌, sym, ap, ◌∙◌, subst, Bool, true, ◌&&◌, Option, some, List, [],
  ◌∷◌, ◌==◌, inl, inr, String, arith, eq_iff, Bool-cases, leb, nat_eq,
}
use mox_adv.Prelude.Lists.{All, All-both}
use mox_adv.Table.{count_rows}
use mox_adv.Table.Counts.{count_mono}
use mox_adv.Mandate.{ConsumptionRow}
use mox_adv.Mandate.Execute.{microseconds_per_hour}
use mox_adv.Mandate.Quota.{is_of, is_of_day, is_recent, money_of, steps_of, microseconds_per_day}
use mox_adv.Mandate.Results.{some-injective, and-true}
use mox_adv.Mandate.Terms.{MandateTerms}

-- The observation windows of earlier consumptions of the target are over.
abbrev pub AreObserved : String → ℕ → List ConsumptionRow → Type 0
AreObserved target now older =
    All (λ old. (old.target == target) ≡ true → old.observation_until ≤ now) older

-- What a mandate of this id, with these terms, admits after the older consumptions.
abbrev pub IsAdmitted : String → MandateTerms → ConsumptionRow → List ConsumptionRow → Type 0
IsAdmitted id terms row older =
    let day = row.reserved_at / microseconds_per_day in
    (money_of (is_of id) older + row.monetary_exposure_rub ≤ terms.total_monetary_limit)
    × (count_rows (is_recent id row.reserved_at) older < terms.actions_per_24h)
    × AreObserved row.target row.reserved_at older
    × (money_of (is_of_day id day) older + row.monetary_exposure_rub ≤ terms.daily_monetary_limit)
    × (row.step_change_percent ≤ terms.maximum_step_change)
    × (steps_of (is_of_day id day) older + row.step_change_percent ≤ terms.maximum_daily_change)
    × (row.observation_until
        ≡ row.reserved_at + terms.observation_window_hours * microseconds_per_hour)

-- `look` finds the terms of a mandate.
abbrev pub IsLawful : (String → Option MandateTerms) → List ConsumptionRow → Type 0
IsLawful look [] = Unit
IsLawful look (row ∷ older) =
    ((terms : MandateTerms) × (look row.mandate_id ≡ some terms)
      × IsAdmitted row.mandate_id terms row older)
    × IsLawful look older

-- More mandates leave the lawful ones lawful.
pub IsLawful-mono :
    (look more : String → Option MandateTerms) (rows : List ConsumptionRow)
    → ((id : String) (terms : MandateTerms) → look id ≡ some terms → more id ≡ some terms)
    → IsLawful look rows
    → IsLawful more rows
IsLawful-mono look more [] h k = tt
IsLawful-mono look more (row ∷ older) h ((terms, e, a), k) =
    ((terms, h row.mandate_id terms e, a), IsLawful-mono look more older h k)

-- The entry of a consumption of the mandate, at the terms of the mandate.
own :
    (look : String → Option MandateTerms) (id : String) (terms : MandateTerms)
    (row : ConsumptionRow) (older : List ConsumptionRow)
    → look id ≡ some terms
    → (row.mandate_id == id) ≡ true
    → ((t : MandateTerms) × (look row.mandate_id ≡ some t) × IsAdmitted row.mandate_id t row older)
    → IsAdmitted id terms row older
own look id terms row older found same (t, e, a) =
    let i : row.mandate_id ≡ id = (eq_iff row.mandate_id id).0 same in
    let k : some t ≡ some terms = sym e ∙ ap look i ∙ found in
    subst (λ u. IsAdmitted id u row older) (some-injective t terms k)
      (subst (λ n. IsAdmitted n t row older) i a)

nat_eq-true : (m n : ℕ) → nat_eq m n ≡ true → m ≡ n
nat_eq-true m n h = ground arith

-- WHERE mandate_id = ? AND reserved_at > now - 24 hours AND reserved_at <= now
abbrev pub is_in_window : String → ℕ → ConsumptionRow → Bool
is_in_window id now row = is_recent id now row && leb row.reserved_at now

module _ (look : String → Option MandateTerms) (id : String) (terms : MandateTerms)
    (found : look id ≡ some terms) where
  pub money_within :
      (rows : List ConsumptionRow)
      → IsLawful look rows
      → money_of (is_of id) rows ≤ terms.total_monetary_limit
  money_within [] h = omega arith
  money_within (row ∷ older) (entry, h) = elim (Bool-cases (row.mandate_id == id)) [
    | inl e ↦ rw e (omega (arith, (own look id terms row older found e entry).0))
    | inr e ↦ rw e (money_within older h)
  ]

  -- A consumption of the day is admitted at the limits of the day.
  of_day :
      (day : ℕ) (row : ConsumptionRow) (older : List ConsumptionRow)
      → is_of_day id day row ≡ true
      → ((t : MandateTerms) × (look row.mandate_id ≡ some t)
          × IsAdmitted row.mandate_id t row older)
      → (money_of (is_of_day id day) older + row.monetary_exposure_rub ≤ terms.daily_monetary_limit)
        × (steps_of (is_of_day id day) older + row.step_change_percent ≤ terms.maximum_daily_change)
  of_day day row older e entry =
      let (same, today) = and-true (row.mandate_id == id) _ e in
      let (_, _, _, money, _, steps, _) = own look id terms row older found same entry in
      let d : row.reserved_at / microseconds_per_day ≡ day = nat_eq-true _ day today in
      subst
        (λ n.
          (money_of (is_of_day id n) older + row.monetary_exposure_rub ≤ terms.daily_monetary_limit)
          × (steps_of (is_of_day id n) older + row.step_change_percent
              ≤ terms.maximum_daily_change))
        d (money, steps)

  pub day-money_within :
      (day : ℕ) (rows : List ConsumptionRow)
      → IsLawful look rows
      → money_of (is_of_day id day) rows ≤ terms.daily_monetary_limit
  day-money_within day [] h = omega arith
  day-money_within day (row ∷ older) (entry, h) = elim (Bool-cases (is_of_day id day row)) [
    | inl e ↦ rw e (omega (arith, (of_day day row older e entry).0))
    | inr e ↦ rw e (day-money_within day older h)
  ]

  pub day-steps_within :
      (day : ℕ) (rows : List ConsumptionRow)
      → IsLawful look rows
      → steps_of (is_of_day id day) rows ≤ terms.maximum_daily_change
  day-steps_within day [] h = omega arith
  day-steps_within day (row ∷ older) (entry, h) = elim (Bool-cases (is_of_day id day row)) [
    | inl e ↦ rw e (omega (arith, (of_day day row older e entry).1))
    | inr e ↦ rw e (day-steps_within day older h)
  ]

  recent_earlier :
      (now then_ : ℕ) (old : ConsumptionRow)
      → then_ ≤ now
      → is_in_window id now old ≡ true
      → is_recent id then_ old ≡ true
  recent_earlier now then_ old early h = ground arith

  -- The last consumption of a window saw every other of the window.
  pub window_within :
      (now : ℕ) (rows : List ConsumptionRow)
      → IsLawful look rows
      → count_rows (is_in_window id now) rows ≤ terms.actions_per_24h
  window_within now [] h = omega arith
  window_within now (row ∷ older) (entry, h) = elim (Bool-cases (is_in_window id now row)) [
    | inl e ↦
        let same : (row.mandate_id == id) ≡ true = ground arith in
        let early : row.reserved_at ≤ now = ground arith in
        let (_, few, _, _, _, _, _) = own look id terms row older found same entry in
        rw e (
          omega (
            arith,
            few,
            count_mono (is_in_window id now) (is_recent id row.reserved_at) older
                (λ old k. recent_earlier now row.reserved_at old early k),
          ))
    | inr e ↦ rw e (window_within now older h)
  ]

-- The consumptions of one target are an observation window of the policy apart.
abbrev pub IsSpaced : ℕ → List ConsumptionRow → Type 0
IsSpaced window [] = Unit
IsSpaced window (row ∷ older) =
    All (λ old. (old.target == row.target) ≡ true → old.reserved_at + window ≤ row.reserved_at)
      older
    × IsSpaced window older

module _ (look : String → Option MandateTerms) (window : ℕ)
    (long : (id : String) (terms : MandateTerms)
      → look id ≡ some terms
      → window ≤ terms.observation_window_hours * microseconds_per_hour) where
  lasting :
      (rows : List ConsumptionRow)
      → IsLawful look rows
      → All (λ old. old.reserved_at + window ≤ old.observation_until) rows
  lasting [] h = tt
  lasting (row ∷ older) ((terms, e, (_, _, _, _, _, _, until)), h) =
      (omega (arith, until, long row.mandate_id terms e), lasting older h)

  pub IsLawful-IsSpaced : (rows : List ConsumptionRow) → IsLawful look rows → IsSpaced window rows
  IsLawful-IsSpaced [] h = tt
  IsLawful-IsSpaced (row ∷ older) ((_, _, (_, _, observed, _, _, _, _)), h) = (
    All-both _ _ _ older (λ old over long_ same. omega (arith, over same, long_)) observed
        (lasting older h),
    IsLawful-IsSpaced older h,
  )
