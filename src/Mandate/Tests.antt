-- ===== src/Mandate/Tests.antt =====
-- Runs of src/mox_adv/mandate_store.py, and the theorems at them.
use mox_adv.Prelude.{String, ◌↔◌, ◌+◌, ◌*◌, ◌≡◌, refl, true, false, some, none, [], ◌∷◌}
use mox_adv.Control.Rows.{execution_identity, PreparedChange, TrustedScope}
use mox_adv.Mandate.{MandateRecord, MandateRow, MandateState}
use mox_adv.Mandate.Quota.{check_quota, usage, microseconds_per_day}
use mox_adv.Mandate.Samples.{first_raise, env, env-ReadsBack, policy, issuer, terms, calls, quiet}
use mox_adv.Control.Principal.{AuthenticatedPrincipal}
use mox_adv.Mandate.{active}
use mox_adv.Mandate.Execute.{
  new_consumption, reserve_execution, claim_execution, require_dispatch_allowed,
  microseconds_per_hour,
}
use mox_adv.Mandate.History.{IsHistory}
use mox_adv.Mandate.History.Runs.{rows-IsHistory}
use mox_adv.Mandate.Lawful.{IsAdmitted, IsSpaced}
use mox_adv.Mandate.Lifecycle.{issue, new_mandate, activate, revoke}
use mox_adv.Mandate.Quotas.{KeepsQuotas, keeps_quotas, targets-IsSpaced}
use mox_adv.Mandate.Records.{is_revoked, load, load_active}
use mox_adv.Mandate.Aborted.{revoke-aborts}
use mox_adv.Interrupts.{any_active}
use mox_adv.Mandate.Revocable.{as_revoked, revoked_record, revoke-returns}
use mox_adv.Mandate.Revoked.{revocation_final}
use mox_adv.Mandate.State.{ok, is_ok, raises}
use mox_adv.Prelude.Json.{object, text}
use mox_adv.Prelude.Text.{is_blank, starts_nul, strip}
use mox_adv.Mandate.Exact.{check_quota_iff}
use mox_adv.Mandate.RoundTrip.{issue-load}
use mox_adv.Mandate.Terms.{MandateTerms, step_percent}
use mox_adv.Mandate.Validate.{validate_issuer, validate_payload}
use mox_adv.Mandate.Trace.{elsewhere, start, run}

abbrev final : MandateState
final = run env policy calls (start quiet)

-- The second raise was accepted once, in time.
two_raises : usage "mandate-m" none final ≡ record {
  action_count = 2;
  total_monetary_exposure_rub = 200;
  daily_cumulative_change_percent = 20;
  latest_observation_until = some (2 * microseconds_per_day + 10);
}
unfolding usage run execution_identity
two_raises = refl

abbrev row : MandateRow
row = record (new_mandate env.canonical_hash env.sign env.json env.parse_time policy terms) {
  status = active;
  activation_version = 1;
  activated_at = some 6;
}

abbrev loaded : MandateRecord
loaded = record { row = row; canonical = terms }

keeps_quotas_example : KeepsQuotas env policy "mandate-m" row final.consumptions
unfolding run execution_identity
keeps_quotas_example = keeps_quotas env policy env-ReadsBack calls quiet "mandate-m" row refl

targets-IsSpaced_example :
    IsSpaced (policy.observation_window_hours * microseconds_per_hour) final.consumptions
targets-IsSpaced_example = targets-IsSpaced env policy env-ReadsBack calls quiet

-- The mandate is revoked while the second raise is RESERVED, which is then not claimed.
revocation_final_example :
    let t =
      run env policy
        (elsewhere quiet ∷ [])
        (revoke env.canonical_hash env.sign env.json env.parse_time policy "mandate-m" "stop" issuer
          30 final).1 in
    (is_ok (load_active env.canonical_hash env.sign env.json env.parse_time "mandate-m" 40 t)
      ≡ false)
    × ((who : AuthenticatedPrincipal)
        → is_ok
            (activate env.canonical_hash env.sign env.json env.parse_time policy "mandate-m" who 40
              t).0
          ≡ false)
    × ((prepared : PreparedChange)
        → (is_ok
              (reserve_execution env.canonical_hash env.sign env.json env.parse_time prepared
                "mandate-m" 40 t).0
            ≡ false)
          × (is_ok
                (claim_execution env.canonical_hash env.sign env.json env.parse_time prepared
                  "mandate-m" 40 t).0
              ≡ false))
    × ((scope : TrustedScope)
        → is_ok (
            require_dispatch_allowed env.canonical_hash env.sign env.json env.parse_time "mandate-m"
              scope 40 t)
          ≡ false)
unfolding revoke run execution_identity
revocation_final_example =
    revocation_final env policy "mandate-m" "stop" issuer 30 final (elsewhere quiet ∷ []) 40 refl

-- The mandate was issued and activated; the events are numbered 2 and 1.
rows-IsHistory_example : IsHistory final
rows-IsHistory_example = rows-IsHistory env policy calls quiet

revoke-returns_example :
    ((revoke env.canonical_hash env.sign env.json env.parse_time policy "mandate-m" " stop " issuer
        30 final).0
      ≡ ok (revoked_record env policy loaded "stop" 30))
    × (is_revoked (as_revoked env policy row "stop" 30).status ≡ true)
unfolding load strip is_blank starts_nul run execution_identity validate_issuer
revoke-returns_example =
    revoke-returns env policy calls quiet loaded "mandate-m" " stop " issuer 30 refl refl refl refl
      refl

-- A reason that begins with U+0000.
abbrev nul_reason : String
nul_reason = "\0stop"

revoke-aborts_example :
    let (result, t) =
      revoke env.canonical_hash env.sign env.json env.parse_time policy "mandate-m" nul_reason
        issuer 30 final in
    (result ≡ raises)
    × (t.mandates ≡ final.mandates)
    × (t.events ≡ final.events)
    × (any_active "mandate" ("mandate-m" ∷ []) t.control.interrupts ≡ some true)
unfolding load strip is_blank starts_nul run execution_identity validate_issuer
revoke-aborts_example =
    revoke-aborts env policy loaded "mandate-m" nul_reason issuer 30 final refl refl refl refl refl
      refl

abbrev issued_record : MandateRecord
issued_record = record {
  row = new_mandate env.canonical_hash env.sign env.json env.parse_time policy terms;
  canonical = terms;
}

issue-load_example :
    let (r, t) =
      issue env.canonical_hash env.sign env.json env.parse_time policy env.canonicalize
        env.parse_int env.same_fields
        (object terms)
        issuer
        5
        (start quiet) in
    (r ≡ ok issued_record)
    × (load env.canonical_hash env.sign env.json env.parse_time issued_record.row.mandate_id t
        ≡ ok issued_record)
    × (issue env.canonical_hash env.sign env.json env.parse_time policy env.canonicalize
          env.parse_int env.same_fields
          (object terms)
          issuer
          7
          t
        ≡ (ok issued_record, t))
unfolding validate_payload
issue-load_example =
    issue-load env policy terms (object terms) issuer 5 7 (start quiet) env-ReadsBack refl refl refl
      (refl, refl, refl)

abbrev mandate_terms : MandateTerms
mandate_terms = record {
  organization = text "o";
  connection = text "c";
  account = text "a";
  policy_version = text "v1";
  targets = text "k" ∷ [];
  allowed = text "INCREASE_WEEKLY_BUDGET" ∷ [];
  prohibited = text "DELETE" ∷ [];
  expiry = 3 * microseconds_per_day;
  total_monetary_limit = 400;
  daily_monetary_limit = 300;
  maximum_step_change = 10;
  maximum_daily_change = 20;
  actions_per_24h = 2;
  observation_window_hours = 24;
}

check_quota_iff_example :
    (check_quota "mandate-m" mandate_terms first_raise 100 10 (start quiet) ≡ ok 10)
    ↔ IsAdmitted "mandate-m" mandate_terms
        (new_consumption env.canonical_hash env.sign env.json env.parse_time "mandate-m"
          mandate_terms first_raise 100 10 10)
        []
unfolding step_percent
check_quota_iff_example =
    check_quota_iff env "mandate-m" mandate_terms first_raise 100 10 10 (start quiet) refl
