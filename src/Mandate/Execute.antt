-- ===== src/Mandate/Execute.antt =====
-- `reserve_execution`, `send_once` and `require_dispatch_allowed` of src/mox_adv/mandate_store.py.
use mox_adv.Prelude.{
  ℕ, ◌+◌, ◌*◌, String, Bool, true, false, not, Option, none, some, ◌∷◌, ◌==◌, ltb, if◌then◌else◌,
}
use mox_adv.Prelude.Json.{Json}
use mox_adv.Table.{first_row, any_row, update_rows}
use mox_adv.Interrupts.{any_active}
use mox_adv.Control.Executions.{
  is_unresolved_row, is_active_row, is_reserved_key, set_in_flight, replay_status, new_execution,
}
use mox_adv.Control.KillSwitches.{scopes_of, kill_switch_active_in_connection}
use mox_adv.Control.Reason.{
  boundary_rejected, execution_not_found, kill_switch_active, kill_switch_unavailable,
  unknown_result,
}
use mox_adv.Control.Rows.{
  ExecutionStatus, reserved, in_flight, blocked, TrustedScope, PreparedChange, action_text,
  ExecutionRecord, has_key, is_reserved, execution_key,
}
use mox_adv.Mandate.{JsonText, ConsumptionRow, MandateState}
use mox_adv.Mandate.State.{
  MandateResult, ok, rejected, raises, check, with_ok, Authority, read, lift, pure, transaction,
  ◌>>=◌, ◌>>◌,
}
use mox_adv.Mandate.Quota.{check_quota, validate_binding}
use mox_adv.Mandate.Records.{
  load, load_active, read_terms, require_no_mandate_interrupt, is_in_force,
}
use mox_adv.Mandate.Terms.{MandateTerms, monetary_exposure_rub}

abbrev pub microseconds_per_hour : ℕ
microseconds_per_hour = 3_600_000_000

abbrev pub Answer : Type 0
Answer = ExecutionStatus × ExecutionRecord

abbrev pub is_consumption : String → ConsumptionRow → Bool
is_consumption key row = row.execution_key == key

-- No row of `kill_switches` is engaged.
unfoldable pub refuse_switched : TrustedScope → MandateState → MandateResult (Unit {0})
unfolding kill_switch_active_in_connection
refuse_switched scope s =
    check kill_switch_active (not (kill_switch_active_in_connection s.control scope))

-- consumption is None or consumption["mandate_id"] != mandate_id
abbrev pub require_consumption : String → String → MandateState → MandateResult ConsumptionRow
require_consumption key id s = elim (first_row (is_consumption key) s.consumptions) [
  | none ↦ rejected (boundary_rejected "MANDATE_RESERVATION_MISMATCH")
  | some row ↦
      if row.mandate_id == id
      then ok row
      else rejected (boundary_rejected "MANDATE_RESERVATION_MISMATCH")
]

-- What `send_once` does next: report an execution, or send.
pub data Claim : Type 0 where
  reported : ExecutionStatus → ExecutionRecord → Claim
  claimed : ExecutionRecord → Claim

module _ (canonical_hash : Json → String) (sign : String → String) (json : JsonText)
    (parse_time : String → Option ℕ) where
  unfoldable pub new_consumption :
      String → MandateTerms → PreparedChange → ℕ → ℕ → ℕ → ConsumptionRow
  unfolding execution_key action_text
  new_consumption id terms prepared exposure step now = record {
    execution_key = execution_key canonical_hash prepared;
    mandate_id = id;
    action = action_text prepared.action;
    target = prepared.scope.campaign;
    monetary_exposure_rub = exposure;
    step_change_percent = step;
    reserved_at = now;
    observation_until = now + terms.observation_window_hours * microseconds_per_hour;
  }

  -- The two INSERTs; the execution is new, and the key of a consumption is primary.
  unfoldable pub insert_reservation :
      String → MandateTerms → PreparedChange → ℕ → ℕ → ℕ → Authority Answer
  unfolding new_execution new_consumption execution_key
  insert_reservation id terms prepared exposure step now s =
      if any_row (is_consumption (execution_key canonical_hash prepared)) s.consumptions
      then (raises, s)
      else (
        ok (reserved, new_execution canonical_hash prepared now),
        record s {
          control = record s.control {
            executions = new_execution canonical_hash prepared now ∷ s.control.executions;
          };
          consumptions = new_consumption id terms prepared exposure step now ∷ s.consumptions;
        },
      )

  -- From the check of the kill switches on: nothing stands in the way.
  unfoldable pub reserve_fresh : String → MandateTerms → PreparedChange → ℕ → ℕ → Authority Answer
  unfolding check_quota insert_reservation refuse_switched
  reserve_fresh id terms prepared exposure now = do
    read (refuse_switched prepared.scope)
    step ← read (check_quota id terms prepared exposure now)
    insert_reservation id terms prepared exposure step now

  -- From the first SELECT of executions on.
  unfoldable pub reserve_bound : String → MandateTerms → PreparedChange → ℕ → ℕ → Authority Answer
  unfolding reserve_fresh execution_key
  reserve_bound id terms prepared exposure now s =
      elim (first_row (has_key (execution_key canonical_hash prepared)) s.control.executions) [
        | some row ↦ (ok (replay_status row.status, row), s)
        | none ↦
            if any_row is_unresolved_row s.control.executions
            then (rejected unknown_result, s)
            else elim (first_row is_active_row s.control.executions) [
              | some row ↦ (ok (blocked, row), s)
              | none ↦ reserve_fresh id terms prepared exposure now s
            ]
      ]

  unfoldable pub reserve_execution : PreparedChange → String → ℕ → Authority Answer
  unfolding monetary_exposure_rub load_active validate_binding reserve_bound
  reserve_execution prepared id now = transaction do
    exposure ← lift (monetary_exposure_rub prepared)
    active ← read (load_active canonical_hash sign json parse_time id now)
    lift (validate_binding active.1 prepared)
    reserve_bound id active.1 prepared exposure now

  -- The UPDATE to IN_FLIGHT, with the row that is read after it.
  unfoldable pub set_sending : PreparedChange → ℕ → Authority Claim
  unfolding execution_key
  set_sending prepared now s =
      let key = execution_key canonical_hash prepared in
      let after = update_rows (is_reserved_key key) (set_in_flight now) s.control.executions in
      elim (first_row (has_key key) after) [
        | none ↦ (raises, s)
        | some row ↦
            (ok (claimed row), record s { control = record s.control { executions = after } })
      ]

  unfoldable pub claim_reserved : PreparedChange → String → ℕ → Authority Claim
  unfolding execution_key set_sending refuse_switched
  claim_reserved prepared id now s =
      elim (first_row (has_key (execution_key canonical_hash prepared)) s.control.executions) [
        | none ↦ (rejected execution_not_found, s)
        | some row ↦
            if is_reserved row.status
            then (read (require_consumption (execution_key canonical_hash prepared) id) >>= λ _.
                  read (refuse_switched prepared.scope) >>= λ _. set_sending prepared now)
                s
            else (ok (reported (replay_status row.status) row), s)
      ]

  -- The transaction of `send_once`.
  unfoldable pub claim_execution : PreparedChange → String → ℕ → Authority Claim
  unfolding load_active validate_binding claim_reserved
  claim_execution prepared id now = transaction do
    active ← read (load_active canonical_hash sign json parse_time id now)
    lift (validate_binding active.1 prepared)
    claim_reserved prepared id now

  unfoldable pub require_unswitched : TrustedScope → MandateState → MandateResult (Unit {0})
  unfolding any_active
  require_unswitched scope s =
      elim (any_active "kill_switch" (scopes_of scope) s.control.interrupts) [
        | none ↦ rejected kill_switch_unavailable
        | some is_engaged ↦ check kill_switch_active (not is_engaged)
      ]

  unfoldable pub require_dispatch_allowed :
      String → TrustedScope → ℕ → MandateState → MandateResult (Unit {0})
  unfolding require_no_mandate_interrupt require_unswitched load read_terms refuse_switched
  require_dispatch_allowed id scope now s = with_ok (require_no_mandate_interrupt id s) λ _.
      with_ok (require_unswitched scope s) λ _.
        with_ok (load canonical_hash sign json parse_time id s) λ r.
          with_ok (check (boundary_rejected "MANDATE_REVOKED") (is_in_force r.row.status)) λ _.
            with_ok (read_terms canonical_hash sign json parse_time r) λ terms.
              with_ok (check (boundary_rejected "MANDATE_EXPIRED") (ltb now terms.expiry))
                λ _. refuse_switched scope s

  -- A callback of the caller: other writers may have moved the state when it comes back.
  abbrev pub Callback : Type 0
  Callback = Option (Authority ℕ)

  abbrev call_or : ℕ → Callback → Authority ℕ
  call_or now none = pure now
  call_or now (some callback) = callback

  -- What follows the claim, up to `sender`: the three checks around the callbacks.
  unfoldable pub cross_boundary :
      PreparedChange → String → ℕ → Callback → Callback → Callback → Authority (Unit {0})
  unfolding require_dispatch_allowed
  cross_boundary prepared id now before_dispatch at_dispatch_boundary immediate_pre_transport = do
    call_or now before_dispatch
    read (require_dispatch_allowed id prepared.scope now)
    dispatch_at ← call_or now at_dispatch_boundary
    read (require_dispatch_allowed id prepared.scope dispatch_at)
    immediate_at ← call_or dispatch_at immediate_pre_transport
    read (require_dispatch_allowed id prepared.scope immediate_at)

  -- The result, the state, and whether `sender` was called; the execution stays IN_FLIGHT where a check
  -- refuses, and `finish_execution` of the control state settles it.
  pub record SendOutcome : Type 0 where
    pub result : MandateResult Answer
    pub state : MandateState
    pub sent : Bool

  unfoldable pub conclude : ExecutionRecord → MandateResult (Unit {0}) × MandateState → SendOutcome
  conclude row (ok _, s) = record { result = ok (in_flight, row); state = s; sent = true }
  conclude row (rejected reason, s) = record { result = rejected reason; state = s; sent = false }
  conclude row (raises, s) = record { result = raises; state = s; sent = false }

  unfoldable pub dispatch :
      PreparedChange
      → String
      → ℕ
      → Callback
      → Callback
      → Callback
      → MandateResult Claim × MandateState
      → SendOutcome
  unfolding cross_boundary conclude
  dispatch prepared id now before boundary immediate (ok (claimed row), s) =
      conclude row (cross_boundary prepared id now before boundary immediate s)
  dispatch prepared id now before boundary immediate (ok (reported status row), s) = record {
    result = ok (status, row);
    state = s;
    sent = false;
  }
  dispatch prepared id now before boundary immediate (rejected reason, s) = record {
    result = rejected reason;
    state = s;
    sent = false;
  }
  dispatch prepared id now before boundary immediate (raises, s) = record {
    result = raises;
    state = s;
    sent = false;
  }

  unfoldable pub send_once :
      PreparedChange → String → ℕ → Callback → Callback → Callback → MandateState → SendOutcome
  unfolding claim_execution dispatch
  send_once prepared id now before boundary immediate s =
      dispatch prepared id now before boundary immediate (claim_execution prepared id now s)
