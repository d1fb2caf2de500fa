-- ===== src/Mandate/Invariant/Reserving.antt =====
-- `reserve_execution` of src/mox_adv/mandate_store.py keeps the invariant.
use mox_adv.Prelude.{
  refl, ap, subst, ltb, ℕ, String, ◌≡◌, ◌∙◌, false, some, Option-cases, Bool-cases, inl, inr, arith,
}
use mox_adv.Table.{first_row, any_row}
use mox_adv.Control.Executions.{is_unresolved_row, is_active_row}
use mox_adv.Control.Rows.{PreparedChange, has_key, execution_key}
use mox_adv.Control.Reason.{boundary_rejected}
use mox_adv.Mandate.{List, document, MandateRecord, MandateRow, MandateState, MandatePolicy}
use mox_adv.Mandate.Execute.{
  is_consumption, refuse_switched, insert_reservation, reserve_fresh, reserve_bound,
  reserve_execution, new_consumption,
}
use mox_adv.Mandate.Invariant.{true, sym, IsSound}
use mox_adv.Mandate.Invariant.Reservation.{check_quota-IsAdmitted}
use mox_adv.Mandate.Keeps.{Keeps, read-Keeps, lift-Keeps, read-ok-Keeps, transaction-Keeps}
use mox_adv.Mandate.Quota.{check_quota, validate_binding}
use mox_adv.Mandate.Records.{
  find_mandate, is_intact, require_current, require_no_mandate_interrupt, is_mandate,
  record_from_row, load, load_active, read_terms, require_active, is_revoked, is_in_force,
}
use mox_adv.Mandate.Results.{with_ok-Returned, ok-injective}
use mox_adv.Mandate.State.{with_ok, check, ok}
use mox_adv.Mandate.Terms.{MandateTerms, monetary_exposure_rub, terms_of}
use mox_adv.Mandate.Trace.{document-row_terms, row_terms, Environment, terms_in, first_row-terms_in}

module _ (env : Environment) where
  -- The record that a method reads is intact: it has the document of its row, which is that of the mandate.
  pub record_from_row-facts :
      (row : MandateRow) (r : MandateRecord)
      → record_from_row env.canonical_hash env.sign env.json env.parse_time row ≡ ok r
      → (r.row ≡ row)
        × (document env.json row.canonical_json ≡ some r.canonical)
        × (is_intact env.canonical_hash env.sign env.json env.parse_time row r.canonical ≡ true)
  unfolding record_from_row
  record_from_row-facts row r h = elim (Option-cases (document env.json row.canonical_json)) [
    | inl e ↦ let no = (rw (record_from_row, e) at h) in ground arith
    | inr (c, e) ↦
        elim (Bool-cases (is_intact env.canonical_hash env.sign env.json env.parse_time row c)) [
          | inl i ↦
              let made : record { row = row; canonical = c } ≡ r =
                ok-injective _ r (rw (record_from_row, e, i) at h) in
              (
                ap (λ x. x.row) (sym made),
                e ∙ ap (λ x. some x.canonical) made,
                subst
                    (λ x.
                      is_intact env.canonical_hash env.sign env.json env.parse_time row x.canonical
                      ≡ true)
                    made i,
              )
          | inr i ↦ let no = (rw (record_from_row, e, i) at h) in ground arith
        ]
  ]

  found-ok :
      (id : String) (rows : List MandateRow) (row : MandateRow)
      → first_row (is_mandate id) rows ≡ some row
      → find_mandate id rows ≡ ok row
  found-ok id rows row found = rw (find_mandate, found) refl

  -- `load` reads the row that is found, and checks it.
  pub load-record_from_row :
      (id : String) (t : MandateState) (row : MandateRow)
      → first_row (is_mandate id) t.mandates ≡ some row
      → load env.canonical_hash env.sign env.json env.parse_time id t
        ≡ record_from_row env.canonical_hash env.sign env.json env.parse_time row
  unfolding load
  load-record_from_row id t row found =
      ap (λ r. with_ok r (record_from_row env.canonical_hash env.sign env.json env.parse_time))
        (found-ok id t.mandates row found)

  load-found_row :
      (id : String) (s : MandateState) (r : MandateRecord)
      → load env.canonical_hash env.sign env.json env.parse_time id s ≡ ok r
      → (row : MandateRow) × (first_row (is_mandate id) s.mandates ≡ some row)
        × (record_from_row env.canonical_hash env.sign env.json env.parse_time row ≡ ok r)
  unfolding load
  load-found_row id s r h = elim (Option-cases (first_row (is_mandate id) s.mandates)) [
    | inl e ↦ ground arith
    | inr (found, e) ↦ (found, e, sym (load-record_from_row id s found e) ∙ h)
  ]

  pub load-row :
      (id : String) (s : MandateState) (r : MandateRecord)
      → load env.canonical_hash env.sign env.json env.parse_time id s ≡ ok r
      → first_row (is_mandate id) s.mandates ≡ some r.row
  load-row id s r h =
      let (row, found, made) = load-found_row id s r h in
      found ∙ ap some (sym (record_from_row-facts row r made).0)

  load-document :
      (id : String) (s : MandateState) (r : MandateRecord)
      → load env.canonical_hash env.sign env.json env.parse_time id s ≡ ok r
      → document env.json r.row.canonical_json ≡ some r.canonical
  load-document id s r h =
      let (row, found, made) = load-found_row id s r h in
      let (same, holds, _) = record_from_row-facts row r made in
      ap (λ x. document env.json x.canonical_json) same ∙ holds

  read_terms-terms :
      (r : MandateRecord) (terms : MandateTerms)
      → read_terms env.canonical_hash env.sign env.json env.parse_time r ≡ ok terms
      → terms_of env.parse_time r.canonical ≡ some terms
  unfolding read_terms
  read_terms-terms r terms h = elim (Option-cases (terms_of env.parse_time r.canonical)) [
    | inl e ↦ ground arith
    | inr (found, e) ↦ ground arith
  ]

  require_current-facts :
      (r found : MandateRecord) (now : ℕ) (s : MandateState) (terms : MandateTerms)
      → require_current env.canonical_hash env.sign env.json env.parse_time r now s
        ≡ ok (found, terms)
      → (r ≡ found) × (terms_of env.parse_time r.canonical ≡ some terms)
  unfolding require_current
  require_current-facts r found now s terms h =
      let (t, a, rest) =
        with_ok-Returned (read_terms env.canonical_hash env.sign env.json env.parse_time r) _
          (found, terms) h in
      let (_, _, rest_2) =
        with_ok-Returned (check (boundary_rejected "MANDATE_EXPIRED") (ltb now t.expiry)) _
          (found, terms) rest in
      let (_, _, same) =
        with_ok-Returned (require_no_mandate_interrupt r.row.mandate_id s) (λ _. ok (r, t))
          (found, terms) rest_2 in
      let pair : (r, t) ≡ (found, terms) = ok-injective (r, t) (found, terms) same in
      (ap (λ p. p.0) pair, read_terms-terms r t a ∙ ap (λ p. some p.1) pair)

  require_active-facts :
      (r found : MandateRecord) (now : ℕ) (s : MandateState) (terms : MandateTerms)
      → require_active env.canonical_hash env.sign env.json env.parse_time r now s
        ≡ ok (found, terms)
      → (r ≡ found)
        × (is_revoked r.row.status ≡ false)
        × (terms_of env.parse_time r.canonical ≡ some terms)
  unfolding require_active
  require_active-facts r found now s terms h = elim (Bool-cases (is_revoked r.row.status)) [
    | inl e ↦ ground arith
    | inr e ↦ elim (Bool-cases (is_in_force r.row.status)) [
      | inl f ↦
          let (same, terms_) = require_current-facts r found now s terms (ground arith) in
          (same, e, terms_)
      | inr f ↦ ground arith
    ]
  ]

  pub load_active-facts :
      (id : String) (now : ℕ) (s : MandateState) (r : MandateRecord) (terms : MandateTerms)
      → load_active env.canonical_hash env.sign env.json env.parse_time id now s ≡ ok (r, terms)
      → (first_row (is_mandate id) s.mandates ≡ some r.row)
        × (is_revoked r.row.status ≡ false)
        × (row_terms env.json env.parse_time r.row ≡ some terms)
  unfolding load_active
  load_active-facts id now s r terms h =
      let (x, a, b) =
        with_ok-Returned (load env.canonical_hash env.sign env.json env.parse_time id s) _
          (r, terms) h in
      let (same, alive, found) = require_active-facts x r now s terms b in
      let holds = load-document id s x a in
      (
        load-row id s x a ∙ ap (λ y. some y.row) same,
        subst (λ y. is_revoked y.row.status ≡ false) same alive,
        subst (λ y. row_terms env.json env.parse_time y.row ≡ some terms) same
            (document-row_terms env.json env.parse_time x.row x.canonical holds ∙ found),
      )

module _ (env : Environment) (policy : MandatePolicy) (id : String) (terms : MandateTerms) where
  -- The invariant, with the terms that the mandate was found to have.
  abbrev IsSoundAt : MandateState → Type 0
  IsSoundAt s =
      IsSound env.json env.parse_time policy s
      × (terms_in env.json env.parse_time s.mandates id ≡ some terms)

  insert_reservation-IsSoundAt :
      (prepared : PreparedChange) (exposure change now : ℕ) (s : MandateState)
      → check_quota id terms prepared exposure now s ≡ ok change
      → IsSoundAt s
      → IsSoundAt
          (insert_reservation env.canonical_hash env.sign env.json env.parse_time id terms prepared
            exposure change now s).1
  unfolding insert_reservation new_consumption
  insert_reservation-IsSoundAt prepared exposure change now s h ((bounded, lawful), found) =
      elim (Bool-cases
        (any_row (is_consumption (execution_key env.canonical_hash prepared)) s.consumptions)) [
          | inl e ↦ rw (insert_reservation, e) ((bounded, lawful), found)
          | inr e ↦
              rw (insert_reservation, e)
                (
                  (
                    bounded,
                    (
                      (
                        terms,
                        found,
                        check_quota-IsAdmitted env.canonical_hash env.sign env.json env.parse_time
                            id terms prepared exposure change now s h,
                      ),
                      lawful,
                    ),
                  ),
                  found,
                )
        ]

  reserve_fresh-Keeps :
      (prepared : PreparedChange) (exposure now : ℕ)
      → Keeps IsSoundAt (
          reserve_fresh env.canonical_hash env.sign env.json env.parse_time id terms prepared
            exposure now)
  unfolding reserve_fresh
  reserve_fresh-Keeps prepared exposure now = read-Keeps _ (refuse_switched prepared.scope) _ λ _.
      read-ok-Keeps _ (check_quota id terms prepared exposure now) _
        λ change s e p. insert_reservation-IsSoundAt prepared exposure change now s e p

  reserve_bound-Keeps :
      (prepared : PreparedChange) (exposure now : ℕ)
      → Keeps IsSoundAt (
          reserve_bound env.canonical_hash env.sign env.json env.parse_time id terms prepared
            exposure now)
  unfolding reserve_bound
  reserve_bound-Keeps prepared exposure now s p =
      elim (Option-cases
        (first_row (has_key (execution_key env.canonical_hash prepared)) s.control.executions)) [
          | inr (row, e) ↦ rw (reserve_bound, e) p
          | inl e ↦ elim (Bool-cases (any_row is_unresolved_row s.control.executions)) [
            | inl f ↦ rw (reserve_bound, e, f) p
            | inr f ↦ elim (Option-cases (first_row is_active_row s.control.executions)) [
              | inr (row, g) ↦ rw (reserve_bound, e, f, g) p
              | inl g ↦ rw (reserve_bound, e, f, g) (reserve_fresh-Keeps prepared exposure now s p)
            ]
          ]
        ]

module _ (env : Environment) (policy : MandatePolicy) where
  pub reserve_execution-Keeps :
      (prepared : PreparedChange) (id : String) (now : ℕ)
      → Keeps
          (IsSound env.json env.parse_time policy)
          (reserve_execution env.canonical_hash env.sign env.json env.parse_time prepared id now)
  unfolding reserve_execution
  reserve_execution-Keeps prepared id now = transaction-Keeps _ _ (
      lift-Keeps _ (monetary_exposure_rub prepared) _ λ exposure.
        read-ok-Keeps _ (load_active env.canonical_hash env.sign env.json env.parse_time id now) _
          λ (r, terms) s e p.
            let (found, _, has_terms) = load_active-facts env id now s r terms e in
            (lift-Keeps (IsSoundAt env policy id terms) (validate_binding terms prepared) _
              (λ _. reserve_bound-Keeps env policy id terms prepared exposure now) s
              (
                p,
                first_row-terms_in env.json env.parse_time s.mandates id r.row found ∙ has_terms,
              )).0)
