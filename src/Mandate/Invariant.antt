-- ===== src/Mandate/Invariant.antt =====
-- The invariant of src/mox_adv/mandate_store.py: the terms of every mandate are within the policy, and every
-- consumption was within the quotas of its mandate. Each method keeps it.
pub mod Reservation
pub mod Reserving
use mox_adv.Prelude.{
  ℕ, ◌+◌, ltb, nat_eq, String, ◌≡◌, refl, sym, ap, ◌∙◌, subst, Bool, true, false, not, ◌||◌, Option,
  none, some, List, [], ◌∷◌, ◌==◌, Option-cases, Bool-cases, inl, inr, arith, eq_iff,
}
use mox_adv.Prelude.Json.{Json, Fields}
use mox_adv.Prelude.Lists.{All}
use mox_adv.Table.{first_row, any_row, update_rows}
use mox_adv.Interrupts.{engage}
use mox_adv.Control.Principal.{AuthenticatedPrincipal}
use mox_adv.Control.Reason.{ReasonCode, boundary_rejected, invalid_input}
use mox_adv.Mandate.State.{read, lift, check, transaction, ◌>>=◌, ◌>>◌}
use mox_adv.Mandate.{
  JsonText, object_of, MandateRow, EventType, was_activated, was_revoked, MandateState,
  MandatePolicy,
}
use mox_adv.Mandate.Bounds.{IsWithin, HasTerms, validate_payload-HasTerms}
use mox_adv.Mandate.Keeps.{
  Keeps, bind-Keeps, if-Keeps, read-Keeps, lift-Keeps, lift-ok-Keeps, continue-holds, keep-holds,
  transaction-Keeps,
}
use mox_adv.Mandate.Lawful.{IsLawful, IsLawful-mono}
use mox_adv.Mandate.Lifecycle.{
  is_activatable, set_active, is_revocable, set_revoked, engage_mandate, new_mandate,
  insert_mandate, issue_canonical, issue, activate_record, activate, revoke_record, revoke,
  has_hash, is_event,
}
use mox_adv.Mandate.Records.{
  record_from_row, load, read_terms, is_mandate, is_illegal_update, update_mandates, append_event,
  is_revoked, is_in_force,
}
use mox_adv.Mandate.Results.{Returned-cases}
use mox_adv.Mandate.Validate.{validate_issuer, validate_payload}
use mox_adv.Prelude.Text.{is_blank, strip}
use mox_adv.Mandate.Terms.{MandateTerms}
use mox_adv.Mandate.Trace.{
  document-row_terms, row_terms, IsParsed, ReadsBack, Environment, Call, issuing, activating,
  revoking, reserving, claiming, rechecking_unknown, rechecking_applied, elsewhere, start, step,
  run, terms_in,
}

-- The row of a mandate holds complete terms within the limits of the policy.
abbrev pub HasRowTerms : JsonText → (String → Option ℕ) → MandatePolicy → MandateRow → Type 0
HasRowTerms json parse_time policy row =
    (terms : MandateTerms) × (row_terms json parse_time row ≡ some terms) × IsWithin policy terms

module _ (json : JsonText) (parse_time : String → Option ℕ) (policy : MandatePolicy) where
  abbrev pub IsSound : MandateState → Type 0
  IsSound s =
      All (λ row. HasRowTerms json parse_time policy row) s.mandates
      × IsLawful (terms_in json parse_time s.mandates) s.consumptions

  -- An UPDATE of a status leaves what a mandate says.
  abbrev KeepsCanonical : (MandateRow → MandateRow) → Type 0
  KeepsCanonical f =
      (row : MandateRow)
      → ((f row).canonical_json ≡ row.canonical_json) × ((f row).mandate_id ≡ row.mandate_id)

  update-All :
      (p : MandateRow → Bool) (f : MandateRow → MandateRow)
      → KeepsCanonical f
      → (rows : List MandateRow) → All (λ row. HasRowTerms json parse_time policy row) rows
      → All (λ row. HasRowTerms json parse_time policy row) (update_rows p f rows)
  update-All p f k [] h = tt
  update-All p f k (row ∷ rows) (h, hs) = elim (Bool-cases (p row)) [
    | inl e ↦ rw e (rw (k row).0 h, update-All p f k rows hs)
    | inr e ↦ rw e (h, update-All p f k rows hs)
  ]

  terms_in-update :
      (p : MandateRow → Bool) (f : MandateRow → MandateRow)
      → KeepsCanonical f
      → (rows : List MandateRow) (id : String)
      → terms_in json parse_time (update_rows p f rows) id ≡ terms_in json parse_time rows id
  terms_in-update p f k [] id = refl
  terms_in-update p f k (row ∷ rows) id = elim (Bool-cases (p row)) [
    | inl e ↦ rw (e, (k row).0, (k row).1, terms_in-update p f k rows id) refl
    | inr e ↦ rw (e, terms_in-update p f k rows id) refl
  ]

  pub update_mandates-Keeps :
      (p : MandateRow → Bool) (f : MandateRow → MandateRow)
      → KeepsCanonical f
      → Keeps IsSound (update_mandates p f)
  unfolding update_mandates
  update_mandates-Keeps p f k s (h, l) =
      elim (Bool-cases (any_row (is_illegal_update p f) s.mandates)) [
        | inl e ↦ rw e (h, l)
        | inr e ↦ rw e (
          update-All p f k s.mandates h,
          IsLawful-mono _ _ s.consumptions
              (λ id terms found. terms_in-update p f k s.mandates id ∙ found) l,
        )
      ]

  pub append_event-Keeps :
      (id : String) (kind : EventType) (principal : AuthenticatedPrincipal) (now : ℕ)
      (reason : Option String)
      → Keeps IsSound (append_event id kind principal now reason)
  unfolding append_event
  append_event-Keeps id kind principal now reason s h = h

  none-terms_in :
      (rows : List MandateRow) (id : String)
      → first_row (is_mandate id) rows ≡ none
      → terms_in json parse_time rows id ≡ none
  none-terms_in [] id h = refl
  none-terms_in (row ∷ rows) id h = elim (Bool-cases (row.mandate_id == id)) [
    | inl e ↦ ground arith
    | inr e ↦ rw e (none-terms_in rows id (ground arith))
  ]

  -- A new mandate hides no other.
  more-terms :
      (row : MandateRow) (rows : List MandateRow)
      → first_row (is_mandate row.mandate_id) rows ≡ none
      → (id : String) (terms : MandateTerms) → terms_in json parse_time rows id ≡ some terms
      → terms_in json parse_time (row ∷ rows) id ≡ some terms
  more-terms row rows fresh id terms found = elim (Bool-cases (row.mandate_id == id)) [
    | inl e ↦
        let i : row.mandate_id ≡ id = (eq_iff row.mandate_id id).0 e in
        let absent : terms_in json parse_time rows id ≡ none =
          subst (λ n. terms_in json parse_time rows n ≡ none) i
            (none-terms_in rows row.mandate_id fresh) in
        ground arith
    | inr e ↦ rw e found
  ]

module _ (env : Environment) (policy : MandatePolicy) where
  pub insert_mandate-Keeps :
      (c : Fields) (principal : AuthenticatedPrincipal) (now : ℕ) (s : MandateState)
      → ReadsBack env
      → HasTerms env.parse_time policy c
      → IsParsed env c
      → first_row
          (is_mandate
            (new_mandate env.canonical_hash env.sign env.json env.parse_time policy c).mandate_id)
          s.mandates
        ≡ none
      → IsSound env.json env.parse_time policy s
      → IsSound env.json env.parse_time policy
          (insert_mandate env.canonical_hash env.sign env.json env.parse_time policy c principal now
            s).1
  unfolding insert_mandate new_mandate
  insert_mandate-Keeps c principal now s reads (terms, has, within) parsed fresh (h, l) =
      let row = new_mandate env.canonical_hash env.sign env.json env.parse_time policy c in
      elim (Bool-cases (
        any_row (has_hash row.canonical_hash) s.mandates
        || any_row (is_event row.mandate_id 1) s.events)) [
          | inl e ↦ rw (insert_mandate, e) (h, l)
          | inr e ↦
              rw (insert_mandate, e)
                (
                  (
                    (
                      terms,
                      document-row_terms env.json env.parse_time row c
                            (ap object_of (reads c parsed))
                          ∙ has,
                      within,
                    ),
                    h,
                  ),
                  IsLawful-mono _ _ s.consumptions
                      (more-terms env.json env.parse_time policy row s.mandates fresh) l,
                )
        ]
