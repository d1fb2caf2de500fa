-- ===== src/Control/Safe/Updates.antt =====
-- How the UPDATE statements on `approvals` and `executions` move the counts of the invariant.
use mox_adv.Prelude.{
  ℕ, ◌+◌, ◌≤◌, String, ◌≡◌, true, Option, none, some, List, refl, arith, holds_text, eq_iff, ◌==◌,
  inl, inr, Bool-cases, if◌then◌else◌,
}
use mox_adv.Table.{count_rows, update_rows}
use mox_adv.Table.Counts.{
  count-update-le_add, count-update-le, count-update, count-update-add, count-update-drop,
  count-update-ge,
}
use mox_adv.Control.Approvals.{
  is_reservable, set_reserved, is_held_unused, set_used, clear_reservation,
}
use mox_adv.Control.Dispatch.{is_consumed_by}
use mox_adv.Control.Executions.{
  is_active_row, is_reserved_key, is_active_key, set_in_flight, set_finished, is_terminal,
}
use mox_adv.Control.Rows.{ApprovalRecord, ExecutionRecord, ExecutionStatus, has_key, used}
use mox_adv.Control.Safe.{holds, spent}

-- A column that holds `key` holds just what is equal to it.
pub holds_text-key :
    (o : Option String) (key k : String) → holds_text o key ≡ true → holds_text o k ≡ (key == k)
holds_text-key none key k h = cc
holds_text-key (some u) key k h = rw ((eq_iff u key).0 h)

module _ (rows : List ApprovalRecord) (id key k : String) (now : ℕ) where
  pub holds-set_reserved :
      count_rows (holds k) (update_rows (is_reservable id) (set_reserved now key) rows)
      ≤ count_rows (holds k) rows + (if key == k then count_rows (is_reservable id) rows else 0)
  holds-set_reserved = elim (Bool-cases (key == k)) [
    | inl e ↦ rw e (count-update-le_add (is_reservable id) (holds k) (set_reserved now key) rows)
    | inr e ↦ rw e (
        omega (
          arith,
          count-update-le (is_reservable id) (holds k) (set_reserved now key) rows
              (λ x h p. ground arith),
        ))
  ]

  pub spent-set_reserved :
      count_rows (spent k) (update_rows (is_reservable id) (set_reserved now key) rows)
      ≡ count_rows (spent k) rows
  spent-set_reserved =
      count-update (is_reservable id) (spent k) (set_reserved now key) rows (λ x h. ground arith)

  pub used-set_reserved :
      count_rows used (update_rows (is_reservable id) (set_reserved now key) rows)
      ≡ count_rows used rows
  used-set_reserved =
      count-update (is_reservable id) used (set_reserved now key) rows (λ x h. ground arith)

  pub holds-clear :
      count_rows (holds k) (update_rows (is_held_unused id key) clear_reservation rows)
      ≤ count_rows (holds k) rows
  holds-clear =
      count-update-le (is_held_unused id key) (holds k) clear_reservation rows
        (λ x h p. ground arith)

  pub spent-clear :
      count_rows (spent k) (update_rows (is_held_unused id key) clear_reservation rows)
      ≡ count_rows (spent k) rows
  spent-clear =
      count-update (is_held_unused id key) (spent k) clear_reservation rows (λ x h. ground arith)

  pub used-clear :
      count_rows used (update_rows (is_held_unused id key) clear_reservation rows)
      ≡ count_rows used rows
  used-clear =
      count-update (is_held_unused id key) used clear_reservation rows (λ x h. ground arith)

  -- The consuming UPDATE turns as many reservations of its key into spent ones as it writes.
  pub spent-consume :
      count_rows (spent k) (update_rows (is_consumed_by id key) (set_used now key) rows)
      ≡ count_rows (spent k) rows
        + (if key == k then count_rows (is_consumed_by id key) rows else 0)
  spent-consume = elim (Bool-cases (key == k)) [
    | inl e ↦ rw e (
        count-update-add (is_consumed_by id key) (spent k) (set_used now key) rows
          (λ x h. ground (arith, eq_iff key k)))
    | inr e ↦ rw e (
        omega (
          arith,
          count-update (is_consumed_by id key) (spent k) (set_used now key) rows
              (λ x h. ground (arith, holds_text-key x.reserved_execution_key key k)),
        ))
  ]

  pub holds-set_used :
      count_rows (holds k) (update_rows (is_consumed_by id key) (set_used now key) rows)
      ≡ count_rows (holds k) rows
  holds-set_used =
      count-update (is_consumed_by id key) (holds k) (set_used now key) rows (λ x h. refl)

  pub used-consume :
      count_rows used (update_rows (is_consumed_by id key) (set_used now key) rows)
      ≡ count_rows used rows + count_rows (is_consumed_by id key) rows
  used-consume =
      count-update-add (is_consumed_by id key) used (set_used now key) rows (λ x h. ground arith)

  pub spent-mark :
      count_rows (spent k) rows
      ≤ count_rows (spent k) (update_rows (is_held_unused id key) (set_used now key) rows)
  spent-mark =
      count-update-ge (is_held_unused id key) (spent k) (set_used now key) rows
        (λ x h. ground arith)

  pub used-mark :
      count_rows used rows
      ≤ count_rows used (update_rows (is_held_unused id key) (set_used now key) rows)
  used-mark =
      count-update-ge (is_held_unused id key) used (set_used now key) rows (λ x h. ground arith)

module _ (rows : List ExecutionRecord) (key k : String) (now : ℕ) where
  pub reserved-set_in_flight :
      count_rows (is_reserved_key k) (update_rows (is_reserved_key key) (set_in_flight now) rows)
        + (if key == k then count_rows (is_reserved_key key) rows else 0)
      ≤ count_rows (is_reserved_key k) rows
  reserved-set_in_flight = elim (Bool-cases (key == k)) [
    | inl e ↦
        rw (e, (eq_iff key k).0 e)
          (omega (
            arith,
            count-update-drop (is_reserved_key k) (is_reserved_key k) (set_in_flight now) rows
                (λ x h. ground arith),
          ))
    | inr e ↦ rw e (
        omega (
          arith,
          count-update-le (is_reserved_key key) (is_reserved_key k) (set_in_flight now) rows
              (λ x h p. ground arith),
        ))
  ]

  pub key-set_in_flight :
      count_rows (has_key k) (update_rows (is_reserved_key key) (set_in_flight now) rows)
      ≡ count_rows (has_key k) rows
  key-set_in_flight =
      count-update (is_reserved_key key) (has_key k) (set_in_flight now) rows (λ x h. refl)

  pub active-set_in_flight :
      count_rows is_active_row (update_rows (is_reserved_key key) (set_in_flight now) rows)
      ≡ count_rows is_active_row rows
  active-set_in_flight =
      count-update (is_reserved_key key) is_active_row (set_in_flight now) rows
        (λ x h. ground arith)

  module _ (status : ExecutionStatus) (detail : Option String)
      (ends : is_terminal status ≡ true) where
    pub key-set_finished :
        count_rows
          (has_key k)
          (update_rows (is_active_key key) (set_finished status detail now) rows)
        ≡ count_rows (has_key k) rows
    key-set_finished =
        count-update (is_active_key key) (has_key k) (set_finished status detail now) rows
          (λ x h. refl)

    pub reserved-set_finished :
        count_rows
          (is_reserved_key k)
          (update_rows (is_active_key key) (set_finished status detail now) rows)
        ≤ count_rows (is_reserved_key k) rows
    reserved-set_finished =
        count-update-le (is_active_key key) (is_reserved_key k) (set_finished status detail now)
          rows (λ x h p. ground arith)

    pub active-set_finished :
        count_rows is_active_row
          (update_rows (is_active_key key) (set_finished status detail now) rows)
        ≤ count_rows is_active_row rows
    active-set_finished =
        count-update-le (is_active_key key) is_active_row (set_finished status detail now) rows
          (λ x h p. ground arith)
