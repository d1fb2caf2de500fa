-- ===== src/Mandate/Quotas.antt =====
-- The quotas of src/mox_adv/mandate_store.py over any sequence of calls.
use mox_adv.Prelude.{
  ℕ, ◌*◌, ◌≤◌, ◌≡◌, refl, subst, ◌==◌, ◌∙◌, String, Bool, some, List, [], ◌∷◌, Bool-cases, inl, inr,
  arith,
}
use mox_adv.Prelude.Lists.{All}
use mox_adv.Table.{first_row, count_rows}
use mox_adv.Control.Rows.{PreparedChange, ExecutionStatus}
use mox_adv.Control.State.{DurableControlState}
use mox_adv.Mandate.{MandateRow, MandateState, MandatePolicy, ConsumptionRow}
use mox_adv.Mandate.Bounds.{IsWithin}
use mox_adv.Mandate.Execute.{microseconds_per_hour}
use mox_adv.Mandate.Invariant.{
  HasRowTerms, IsSound, update_mandates-Keeps, append_event-Keeps, insert_mandate-Keeps,
}
use mox_adv.Mandate.Invariant.Reserving.{reserve_execution-Keeps}
use mox_adv.Mandate.Keeps.{Keeps}
use mox_adv.Mandate.Lawful.{
  IsSpaced, IsLawful-IsSpaced, money_within, day-money_within, day-steps_within, window_within,
  is_in_window,
}
use mox_adv.Mandate.Methods.{StatementLaws, run-Keeps}
use mox_adv.Mandate.Quota.{money_of, steps_of, is_of, is_of_day}
use mox_adv.Mandate.Recheck.{write_recheck}
use mox_adv.Mandate.Records.{is_mandate}
use mox_adv.Mandate.Results.{some-injective}
use mox_adv.Mandate.Terms.{MandateTerms}
use mox_adv.Mandate.Trace.{
  ReadsBack, row_terms, Environment, Call, start, run, terms_in, first_row-terms_in,
}

module _ (env : Environment) (policy : MandatePolicy) where
  abbrev Kept : MandateState → Type 0
  Kept = IsSound env.json env.parse_time policy

  write_recheck-Keeps :
      (prepared : PreparedChange) (id : String) (previous status : ExecutionStatus)
      (detail : String) (now : ℕ)
      → Keeps Kept (
          write_recheck env.canonical_hash env.sign env.json env.parse_time prepared id previous
            status detail now)
  unfolding write_recheck
  write_recheck-Keeps prepared id previous status detail now s h = h

  IsSound-laws : ReadsBack env → StatementLaws env policy (IsSound env.json env.parse_time policy)
  IsSound-laws reads = record {
    activating = λ id version now.
        update_mandates-Keeps env.json env.parse_time policy _ _ (λ r. (refl, refl));
    revoking = λ id version now reason.
        update_mandates-Keeps env.json env.parse_time policy _ _ (λ r. (refl, refl));
    appending = append_event-Keeps env.json env.parse_time policy;
    inserting = λ c principal now s terms parsed.
        insert_mandate-Keeps env policy c principal now s reads terms parsed;
    reserving = reserve_execution-Keeps env policy;
    rechecking = λ prepared id previous status detail now.
        write_recheck-Keeps prepared id previous status detail now;
    sharing = λ control s h. h;
  }

  run-IsSound :
      (reads : ReadsBack env) (calls : List Call) (control : DurableControlState)
      → Kept (run env policy calls (start control))
  run-IsSound reads calls control =
      run-Keeps env policy Kept (IsSound-laws reads) calls (start control) (tt, tt)

  -- What a mandate may still spend and change is bounded, each day and in all: by its own terms, and those by
  -- the policy.
  abbrev pub KeepsQuotas : String → MandateRow → List ConsumptionRow → Type 0
  KeepsQuotas id row consumptions =
      (terms : MandateTerms) × (row_terms env.json env.parse_time row ≡ some terms)
      × IsWithin policy terms
      × (money_of (is_of id) consumptions ≤ terms.total_monetary_limit)
      × ((day : ℕ)
          → (money_of (is_of_day id day) consumptions ≤ terms.daily_monetary_limit)
            × (steps_of (is_of_day id day) consumptions ≤ terms.maximum_daily_change))
      × ((now : ℕ) → count_rows (is_in_window id now) consumptions ≤ terms.actions_per_24h)

  row-HasTerms :
      (p : MandateRow → Bool) (rows : List MandateRow) (row : MandateRow)
      → All (λ r. HasRowTerms env.json env.parse_time policy r) rows
      → first_row p rows ≡ some row
      → HasRowTerms env.json env.parse_time policy row
  row-HasTerms p [] row h e = ground arith
  row-HasTerms p (other ∷ rows) row (h, hs) e = elim (Bool-cases (p other)) [
    | inl f ↦
        subst (λ r. HasRowTerms env.json env.parse_time policy r)
          (some-injective other row (ground arith)) h
    | inr f ↦ row-HasTerms p rows row hs (ground arith)
  ]

  -- Where parsed documents are read back from their texts: after any sequence of calls, every mandate that a method can read has complete terms, within the limits of
  -- the policy, and its consumptions keep to them: their exposure in all, their exposure and their steps on every
  -- day, and their number in every 24 hours.
  pub keeps_quotas :
      (reads : ReadsBack env) (calls : List Call) (control : DurableControlState) (id : String)
      (row : MandateRow)
      → let s = run env policy calls (start control) in
        first_row (is_mandate id) s.mandates ≡ some row → KeepsQuotas id row s.consumptions
  keeps_quotas reads calls control id row e =
      let s = run env policy calls (start control) in
      let (bounded, lawful) = run-IsSound reads calls control in
      let (terms, has, within) = row-HasTerms (is_mandate id) s.mandates row bounded e in
      let found : terms_in env.json env.parse_time s.mandates id ≡ some terms =
        first_row-terms_in env.json env.parse_time s.mandates id row e ∙ has in
      (
        terms,
        has,
        within,
        money_within (terms_in env.json env.parse_time s.mandates) id terms found s.consumptions
            lawful,
        λ day. (
          day-money_within (terms_in env.json env.parse_time s.mandates) id terms found day
              s.consumptions lawful,
          day-steps_within (terms_in env.json env.parse_time s.mandates) id terms found day
              s.consumptions lawful,
        ),
        λ now.
            window_within (terms_in env.json env.parse_time s.mandates) id terms found now
              s.consumptions lawful,
      )

  mul_mono : (m n : ℕ) → m ≤ n → m * microseconds_per_hour ≤ n * microseconds_per_hour
  mul_mono m n h = omega arith

  window-long :
      (rows : List MandateRow)
      → All (λ r. HasRowTerms env.json env.parse_time policy r) rows
      → (id : String) (terms : MandateTerms) → terms_in env.json env.parse_time rows id ≡ some terms
      → policy.observation_window_hours * microseconds_per_hour
        ≤ terms.observation_window_hours * microseconds_per_hour
  window-long [] h id terms found = ground arith
  window-long (row ∷ rows) ((t, has, (_, _, _, _, _, long)), hs) id terms found =
      elim (Bool-cases (row.mandate_id == id)) [
        | inl e ↦
            let same : t ≡ terms = some-injective t terms (ground arith) in
            subst
              (λ u.
                policy.observation_window_hours * microseconds_per_hour
                ≤ u.observation_window_hours * microseconds_per_hour)
              same (mul_mono policy.observation_window_hours t.observation_window_hours long)
        | inr e ↦ window-long rows hs id terms (ground arith)
      ]

  -- Where parsed documents are read back from their texts: after any sequence of calls, two consumptions for one target are at least the observation window of the
  -- policy apart, whichever mandates they are charged to.
  pub targets-IsSpaced :
      (reads : ReadsBack env) (calls : List Call) (control : DurableControlState)
      → IsSpaced
          (policy.observation_window_hours * microseconds_per_hour)
          (run env policy calls (start control)).consumptions
  targets-IsSpaced reads calls control =
      let s = run env policy calls (start control) in
      let (bounded, lawful) = run-IsSound reads calls control in
      IsLawful-IsSpaced (terms_in env.json env.parse_time s.mandates)
        (policy.observation_window_hours * microseconds_per_hour)
        (λ id terms found. window-long s.mandates bounded id terms found) s.consumptions lawful
