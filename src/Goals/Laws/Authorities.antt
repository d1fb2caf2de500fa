-- ===== src/Goals/Laws/Authorities.antt =====
-- That the statements on reservations and authorities of src/mox_adv/goal_store.py keep a property.
use mox_adv.Prelude.{
  ℕ, String, ◌≡◌, refl, ◌&&◌, true, not, ◌==◌, Option-cases, inl, inr, nat_eq, leb,
}
use mox_adv.Table.{first_row, count_rows, update_rows}
use mox_adv.Goals.{CreationReservation, GoalAuthority, AuthorityProof, GoalAuthorityRow, GoalState}
use mox_adv.Goals.Authorities.{
  AuthorityRequest, same_reservation, same_authority, same_proof, is_reservation, is_authority,
  is_usable, is_free, free_status, set_held, is_held, register_reservation, register_authority,
  reserve_authority, finish_authority,
}
use mox_adv.Goals.State.{GoalResult, ok, check, ◌>>◌}
use mox_adv.Goals.Laws.{Holds, skip-Holds, if-Holds, last-true, StatementLaws, Leaves}

module _ (P : GoalState → Type 0) (laws : StatementLaws P) where
  pub register_reservation-Leaves :
      (r : CreationReservation) (s : GoalState) → P s → Leaves P (register_reservation r s)
  unfolding register_reservation
  register_reservation-Leaves r s p =
      elim (Option-cases (first_row (is_reservation r.reservation_id) s.reservations)) [
        | inl e ↦
            rw (register_reservation, e) (laws.sharing _ s.claims s.publications s.cleanups s p)
        | inr (row, e) ↦
            rw (register_reservation, e)
              (if-Holds _ (same_reservation r row) _ _ (λ _. p) (λ _. tt))
      ]

  pub register_authority-Leaves :
      (a : GoalAuthority) (proof : AuthorityProof) (s : GoalState)
      → P s
      → Leaves P (register_authority a proof s)
  unfolding register_authority
  register_authority-Leaves a proof s p =
      if-Holds _ (not (a.policy_id == "") && (not (a.binding_hash == "") && leb 1 a.action_quota)) _
        _
        (λ valid.
          let positive : leb 1 a.action_quota ≡ true = last-true _ _ _ valid in
          elim (Option-cases (first_row (is_authority a.authority_id) s.authorities)) [
            | inl e ↦ rw e (laws.registering a proof s positive p)
            | inr (row, e) ↦ rw e (
                if-Holds _ (same_authority row.authority a && same_proof row.proof proof) _ _
                  (λ _. p) (λ _. tt))
          ])
        (λ _. tt)

  pub finish_authority-Holds :
      (id key : String) (s : GoalState) → P s → Holds P (finish_authority id key s)
  unfolding finish_authority
  finish_authority-Holds id key s p =
      elim (Option-cases (first_row (is_held id key) s.authorities)) [
        | inl e ↦ rw (finish_authority, e) tt
        | inr (row, e) ↦ rw (finish_authority, e) (laws.charging id key s p)
      ]

module _ (P : GoalState → Type 0) where
  -- Kept, with the same executions.
  abbrev pub Same : GoalState → GoalState → Type 0
  Same s t = P t × (t.executions ≡ s.executions)

module _ (verify_row : GoalAuthorityRow → GoalResult (Unit {0})) (P : GoalState → Type 0)
    (laws : StatementLaws P) where
  pub reserve_authority-Holds :
      (r : AuthorityRequest) (now : ℕ) (s : GoalState)
      → P s
      → Holds (Same P s) (reserve_authority verify_row r now s)
  unfolding reserve_authority
  reserve_authority-Holds r now s p =
      elim (Option-cases (first_row (is_authority r.authority_id) s.authorities)) [
        | inl e ↦ rw (reserve_authority, e) tt
        | inr (row, e) ↦
            rw (reserve_authority, e)
              (skip-Holds (Same P s)
                (verify_row row
                  >> check "AUTHORITY_INVALID" (is_usable r now row)
                  >> check "AUTHORITY_INVALID" (
                      nat_eq
                        (count_rows (is_free r.authority_id (free_status row.authority.kind))
                          s.authorities)
                        1))
                (λ _. ok (record s {
                  authorities =
                      update_rows (is_free r.authority_id (free_status row.authority.kind))
                        (set_held r.execution_key) s.authorities;
                }))
                (λ _. (laws.holding r.authority_id r.execution_key row.authority.kind s p, refl)))
      ]
