-- ===== src/Mandate/Sequences.antt =====
-- What every method of src/mox_adv/mandate_store.py keeps, any sequence of calls keeps.
use mox_adv.Control.Executions.{is_reserved_key, set_in_flight}
use mox_adv.Control.Principal.{AuthenticatedPrincipal}
use mox_adv.Control.Reason.{boundary_rejected}
use mox_adv.Control.Rows.{
  ExecutionStatus, PreparedChange, applied, execution_key, has_key, is_reserved,
}
use mox_adv.Control.State.{DurableControlState}
use mox_adv.Mandate.{MandatePolicy, MandateState}
use mox_adv.Mandate.Execute.{
  claim_execution, claim_reserved, refuse_switched, require_consumption, reserve_execution,
  set_sending,
}
use mox_adv.Mandate.Keeps.{Keeps, bind-Keeps, lift-Keeps, read-Keeps, transaction-Keeps}
use mox_adv.Mandate.Lifecycle.{activate, issue, revoke}
use mox_adv.Mandate.Quota.{validate_binding}
use mox_adv.Mandate.Recheck.{
  find_execution, is_recheckable, record_recheck, record_recheck_applied, record_recheck_unknown,
  write_recheck,
}
use mox_adv.Mandate.Records.{load_active}
use mox_adv.Mandate.State.{check, read}
use mox_adv.Mandate.Trace.{
  Call, Environment, activating, claiming, elsewhere, issuing, rechecking_applied,
  rechecking_unknown, reserving, revoking, run, step,
}
use mox_adv.Prelude.{Bool-cases, List, Option-cases, String, [], inl, inr, ℕ, ◌∷◌}
use mox_adv.Prelude.Json.{Json}
use mox_adv.Table.{first_row, update_rows}

module _ (env : Environment) (policy : MandatePolicy) where
  -- A property that every method keeps.
  pub record MethodLaws (P : MandateState → Type 0) : Type 0 where
    pub issuing_all :
        (payload : Json) (principal : AuthenticatedPrincipal) (now : ℕ)
        → Keeps P (
            issue env.canonical_hash env.sign env.json env.parse_time policy env.canonicalize
              env.parse_int env.same_fields payload principal now)
    pub activating_all :
        (id : String) (principal : AuthenticatedPrincipal) (now : ℕ)
        → Keeps P
            (activate env.canonical_hash env.sign env.json env.parse_time policy id principal now)
    pub revoking_all :
        (id reason : String) (principal : AuthenticatedPrincipal) (now : ℕ)
        → Keeps P (
            revoke env.canonical_hash env.sign env.json env.parse_time policy id reason principal
              now)
    pub reserving_all :
        (prepared : PreparedChange) (id : String) (now : ℕ)
        → Keeps P
            (reserve_execution env.canonical_hash env.sign env.json env.parse_time prepared id now)
    pub rechecking_all :
        (prepared : PreparedChange) (id : String) (previous status : ExecutionStatus)
        (detail : String) (now : ℕ)
        → Keeps P (
            write_recheck env.canonical_hash env.sign env.json env.parse_time prepared id previous
              status detail now)
    pub sharing_all :
        (control : DurableControlState) (s : MandateState)
        → P s
        → P (record s { control = control })

module _ (env : Environment) (policy : MandatePolicy) (P : MandateState → Type 0)
    (laws : MethodLaws env policy P) where
  set_sending-Keeps :
      (prepared : PreparedChange) (now : ℕ)
      → Keeps P (set_sending env.canonical_hash env.sign env.json env.parse_time prepared now)
  unfolding set_sending
  set_sending-Keeps prepared now s h =
      elim (Option-cases (
        first_row (has_key (execution_key env.canonical_hash prepared)) (
          update_rows (is_reserved_key (execution_key env.canonical_hash prepared))
            (set_in_flight now) s.control.executions))) [
              | inl e ↦ rw (set_sending, e) h
              | inr (row, e) ↦ rw (set_sending, e) (laws.sharing_all _ s h)
            ]

  claim_reserved-Keeps :
      (prepared : PreparedChange) (id : String) (now : ℕ)
      → Keeps P (claim_reserved env.canonical_hash env.sign env.json env.parse_time prepared id now)
  unfolding claim_reserved
  claim_reserved-Keeps prepared id now s h =
      elim (Option-cases
        (first_row (has_key (execution_key env.canonical_hash prepared)) s.control.executions)) [
          | inl e ↦ rw (claim_reserved, e) h
          | inr (row, e) ↦ elim (Bool-cases (is_reserved row.status)) [
            | inl f ↦
                rw (claim_reserved, e, f)
                  ((read-Keeps P
                      (require_consumption (execution_key env.canonical_hash prepared) id) _
                      λ _.
                        read-Keeps P (refuse_switched prepared.scope) _
                          λ _. set_sending-Keeps prepared now)
                    s h)
            | inr f ↦ rw (claim_reserved, e, f) h
          ]
        ]

  claim_execution-Keeps :
      (prepared : PreparedChange) (id : String) (now : ℕ)
      → Keeps P
          (claim_execution env.canonical_hash env.sign env.json env.parse_time prepared id now)
  unfolding claim_execution
  claim_execution-Keeps prepared id now = transaction-Keeps _ _ (
      read-Keeps _ (load_active env.canonical_hash env.sign env.json env.parse_time id now) _
        λ active.
          lift-Keeps _ (validate_binding active.1 prepared) _
            λ _. claim_reserved-Keeps prepared id now)

  record_recheck-Keeps :
      (prepared : PreparedChange) (id : String) (status : ExecutionStatus) (detail : String)
      (now : ℕ)
      → Keeps P (
          record_recheck env.canonical_hash env.sign env.json env.parse_time prepared id status
            detail now)
  unfolding record_recheck write_recheck
  record_recheck-Keeps prepared id status detail now = transaction-Keeps _ _ (
      read-Keeps _ (find_execution env.canonical_hash env.sign env.json env.parse_time prepared) _
        λ row.
          lift-Keeps _
            (check (boundary_rejected "EXECUTION_NOT_RECHECKABLE") (is_recheckable row.status)) _
            λ _.
              read-Keeps _ (require_consumption (execution_key env.canonical_hash prepared) id) _
                λ _.
                  bind-Keeps _
                    (write_recheck env.canonical_hash env.sign env.json env.parse_time prepared id
                      row.status status detail now)
                    (λ _.
                      read (
                        find_execution env.canonical_hash env.sign env.json env.parse_time
                          prepared))
                    (laws.rechecking_all prepared id row.status status detail now) (λ _ s h. h))

  step-Keeps : (call : Call) (s : MandateState) → P s → P (step env policy call s)
  unfolding step record_recheck_unknown record_recheck_applied
  step-Keeps (issuing payload principal now) s h = laws.issuing_all payload principal now s h
  step-Keeps (activating id principal now) s h = laws.activating_all id principal now s h
  step-Keeps (revoking id reason principal now) s h = laws.revoking_all id reason principal now s h
  step-Keeps (reserving prepared id now) s h = laws.reserving_all prepared id now s h
  step-Keeps (claiming prepared id now) s h = claim_execution-Keeps prepared id now s h
  step-Keeps (rechecking_unknown prepared id now) s h =
      record_recheck-Keeps prepared id ExecutionStatus.unknown_result
        "RECHECK_READBACK_INDETERMINATE" now s h
  step-Keeps (rechecking_applied prepared id now) s h =
      record_recheck-Keeps prepared id applied "RECHECK_TARGET_STATE_CONFIRMED" now s h
  step-Keeps (elsewhere control) s h = laws.sharing_all control s h

  -- What every method keeps, every sequence of calls keeps.
  pub run_methods-Keeps : (calls : List Call) (s : MandateState) → P s → P (run env policy calls s)
  unfolding run
  run_methods-Keeps [] s h = h
  run_methods-Keeps (call ∷ calls) s h =
      run_methods-Keeps calls (step env policy call s) (step-Keeps call s h)
