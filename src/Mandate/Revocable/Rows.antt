-- ===== src/Mandate/Revocable/Rows.antt =====
-- The UPDATE of `revoke` in src/mox_adv/mandate_store.py: the trigger passes it, and it writes one row.
use mox_adv.Prelude.{
  ℕ, ◌+◌, ◌≤◌, ◌≡◌, refl, ap, subst, String, Bool, true, false, not, ◌&&◌, Option, none, some, List,
  [], ◌∷◌, ◌==◌, Bool-cases, inl, inr, arith, nat_eq,
}
use mox_adv.Table.{first_row, any_row, count_rows, update_rows}
use mox_adv.Mandate.{MandateRow}
use mox_adv.Mandate.Lifecycle.{is_revocable, set_revoked}
use mox_adv.Mandate.Records.{
  is_mandate, is_issued, is_revoked, is_legal_transition, is_illegal_update, has_reason, same_time,
}
use mox_adv.Mandate.Results.{some-injective}

pub nat_eq_refl : (n : ℕ) → nat_eq n n ≡ true
nat_eq_refl n = ground arith

pub same_time_refl : (t : Option ℕ) → same_time t t ≡ true
same_time_refl none = refl
same_time_refl (some n) = ground arith

legal-revocation :
    (row : MandateRow) (now : ℕ) (reason : String)
    → is_revoked row.status ≡ false
    → has_reason (some reason) ≡ true
    → is_legal_transition row (set_revoked (row.revocation_version + 1) now reason row) ≡ true
unfolding is_legal_transition
legal-revocation row now reason alive stated = elim (Bool-cases (is_issued row.status)) [
  | inl e ↦
      rw
        (
          e,
          alive,
          nat_eq_refl row.activation_version,
          nat_eq_refl (row.revocation_version + 1),
          same_time_refl row.activated_at,
          stated,
        )
        refl
  | inr e ↦
      rw
        (
          e,
          alive,
          nat_eq_refl row.activation_version,
          nat_eq_refl (row.revocation_version + 1),
          same_time_refl row.activated_at,
          stated,
        )
        refl
]

and-not : (a b : Bool) → b ≡ true → (a && not b) ≡ false
and-not a b h = ground arith

-- The trigger lets the revocation of a live row through.
legal-update :
    (p : MandateRow → Bool) (row : MandateRow) (now : ℕ) (reason : String)
    → is_revoked row.status ≡ false
    → has_reason (some reason) ≡ true
    → is_illegal_update p (set_revoked (row.revocation_version + 1) now reason) row ≡ false
unfolding is_illegal_update
legal-update p row now reason alive stated =
    and-not (p row) _ (legal-revocation row now reason alive stated)

pub skipped-update :
    (p : MandateRow → Bool) (f : MandateRow → MandateRow) (row : MandateRow)
    → p row ≡ false
    → is_illegal_update p f row ≡ false
unfolding is_illegal_update
skipped-update p f row h = ap (λ b. b && not (is_legal_transition row (f row))) h

absent-legal :
    (id : String) (version now : ℕ) (reason : String) (rows : List MandateRow)
    → count_rows (is_mandate id) rows ≡ 0
    → (any_row (is_illegal_update (is_revocable id) (set_revoked version now reason)) rows ≡ false)
      × (count_rows (is_revocable id) rows ≡ 0)
unfolding is_illegal_update
absent-legal id version now reason [] h = (refl, refl)
absent-legal id version now reason (row ∷ rows) h = elim (Bool-cases (row.mandate_id == id)) [
  | inl e ↦ ground arith
  | inr e ↦
      let (quiet, none_left) = absent-legal id version now reason rows (ground arith) in
      rw (e, quiet, none_left) (refl, refl)
]

module _ (id : String) (now : ℕ) (reason : String) (stated : has_reason (some reason) ≡ true) where
  -- The trigger lets the UPDATE of a live row through, and the UPDATE writes that row alone.
  pub only-row :
      (rows : List MandateRow) (row : MandateRow)
      → first_row (is_mandate id) rows ≡ some row
      → count_rows (is_mandate id) rows ≤ 1
      → is_revoked row.status ≡ false
      → (any_row
            (is_illegal_update
              (is_revocable id)
              (set_revoked (row.revocation_version + 1) now reason))
            rows
          ≡ false)
        × (count_rows (is_revocable id) rows ≡ 1)
        × (first_row (is_mandate id) (
              update_rows
                (is_revocable id)
                (set_revoked (row.revocation_version + 1) now reason)
                rows)
            ≡ some (set_revoked (row.revocation_version + 1) now reason row))
  only-row [] row found one alive = ground arith
  only-row (other ∷ rows) row found one alive = elim (Bool-cases (other.mandate_id == id)) [
    | inl e ↦
        let same : other ≡ row = some-injective other row (ground arith) in
        let (quiet, none_left) =
          absent-legal id (row.revocation_version + 1) now reason rows (ground arith) in
        let legal = legal-update (is_revocable id) row now reason alive stated in
        let e2 : (row.mandate_id == id) ≡ true = subst (λ r. (r.mandate_id == id) ≡ true) same e in
        rw (same, e2, alive, legal, quiet, none_left) (refl, refl, rw e2 refl)
    | inr e ↦
        let (quiet, one_row, written) = only-row rows row (ground arith) (ground arith) alive in
        let other_row : is_revocable id other ≡ false =
          ap (λ b. b && not (is_revoked other.status)) e in
        let skipped =
          skipped-update (is_revocable id) (set_revoked (row.revocation_version + 1) now reason)
            other other_row in
        rw (skipped, quiet) (rw (e, one_row) (refl, refl, rw e written))
  ]
