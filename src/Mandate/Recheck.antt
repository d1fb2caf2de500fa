-- ===== src/Mandate/Recheck.antt =====
-- `record_recheck_unknown`, `record_recheck_applied` and `validate_blocked_recheck` of
-- src/mox_adv/mandate_store.py.
use mox_adv.Prelude.{
  ℕ, ◌+◌, String, Bool, true, false, ◌&&◌, Option, none, some, List, [], ◌∷◌, ◌==◌, leb, ltb,
  if◌then◌else◌,
}
use mox_adv.Prelude.Json.{Json}
use mox_adv.Table.{first_row, update_rows}
use mox_adv.Control.Executions.{set_finished}
use mox_adv.Control.Reason.{boundary_rejected, execution_not_found}
use mox_adv.Control.Rows.{
  ExecutionStatus, applied, blocked, failed, PreparedChange, ExecutionRecord, has_key,
  execution_key,
}
use mox_adv.Mandate.{JsonText, RecheckRow, MandateState}
use mox_adv.Mandate.State.{
  MandateResult, ok, rejected, check, with_ok, Authority, read, lift, transaction, ◌>>=◌, ◌>>◌,
}
use mox_adv.Mandate.Execute.{require_consumption}
use mox_adv.Mandate.Quota.{validate_binding}
use mox_adv.Mandate.Records.{load_active}

-- status IN ('BLOCKED', 'FAILED')
abbrev pub is_recheckable : ExecutionStatus → Bool
is_recheckable blocked = true
is_recheckable failed = true
is_recheckable _ = false

abbrev pub is_recheckable_key : String → ExecutionRecord → Bool
is_recheckable_key key row = row.execution_key == key && is_recheckable row.status

-- COALESCE(MAX(attempt), 0) of an execution.
abbrev pub last_attempt : String → List RecheckRow → ℕ
last_attempt key [] = 0
last_attempt key (row ∷ rows) =
    let rest = last_attempt key rows in
    if row.execution_key == key && ltb rest row.attempt then row.attempt else rest

module _ (canonical_hash : Json → String) (sign : String → String) (json : JsonText)
    (parse_time : String → Option ℕ) where
  unfoldable pub find_execution : PreparedChange → MandateState → MandateResult ExecutionRecord
  unfolding execution_key
  find_execution prepared s =
      elim (first_row (has_key (execution_key canonical_hash prepared)) s.control.executions) [
        | none ↦ rejected execution_not_found
        | some row ↦ ok row
      ]

  -- INSERT INTO mandate_rechecks, UPDATE executions.
  unfoldable pub write_recheck :
      PreparedChange
      → String
      → ExecutionStatus
      → ExecutionStatus
      → String
      → ℕ
      → Authority (Unit {0})
  unfolding execution_key
  write_recheck prepared id previous status detail now s =
      let key = execution_key canonical_hash prepared in
      (
        ok tt,
        record s {
          control = record s.control {
            executions =
                update_rows (is_recheckable_key key) (set_finished status (some detail) now)
                  s.control.executions;
          };
          rechecks =
              record {
                execution_key = key;
                attempt = last_attempt key s.rechecks + 1;
                mandate_id = id;
                previous_status = previous;
                requested_at = now;
              }
              ∷ s.rechecks;
        },
      )

  -- What the two methods share.
  unfoldable pub record_recheck :
      PreparedChange → String → ExecutionStatus → String → ℕ → Authority ExecutionRecord
  unfolding write_recheck execution_key find_execution
  record_recheck prepared id status detail now = transaction do
    row ← read (find_execution prepared)
    lift (check (boundary_rejected "EXECUTION_NOT_RECHECKABLE") (is_recheckable row.status))
    read (require_consumption (execution_key canonical_hash prepared) id)
    write_recheck prepared id row.status status detail now
    read (find_execution prepared)

  unfoldable pub record_recheck_unknown : PreparedChange → String → ℕ → Authority ExecutionRecord
  unfolding record_recheck
  record_recheck_unknown prepared id now =
      record_recheck prepared id ExecutionStatus.unknown_result "RECHECK_READBACK_INDETERMINATE" now

  unfoldable pub record_recheck_applied : PreparedChange → String → ℕ → Authority ExecutionRecord
  unfolding record_recheck
  record_recheck_applied prepared id now =
      record_recheck prepared id applied "RECHECK_TARGET_STATE_CONFIRMED" now

  unfoldable pub validate_blocked_recheck :
      PreparedChange → String → ℕ → MandateState → MandateResult (Unit {0})
  unfolding load_active validate_binding execution_key
  validate_blocked_recheck prepared id now s =
      with_ok (load_active canonical_hash sign json parse_time id now s) λ active.
        with_ok (validate_binding active.1 prepared) λ _.
          with_ok (require_consumption (execution_key canonical_hash prepared) id s) λ row.
            check (boundary_rejected "OBSERVATION_WINDOW_ACTIVE") (leb row.observation_until now)
