-- ===== src/Mandate/History/Methods.antt =====
-- That every method of src/mox_adv/mandate_store.py keeps rows and events in step.
use mox_adv.Prelude.{
  ℕ, ◌+◌, ◌≡◌, refl, subst, ap, String, Bool, true, false, not, Option, none, some, List, ◌∷◌, ◌==◌,
  eq_iff, eq_refl, Bool-cases, inl, inr, nat_eq, ltb, ◌&&◌,
}
use mox_adv.Table.{first_row, any_row, count_rows, update_rows}
use mox_adv.Control.Principal.{AuthenticatedPrincipal}
use mox_adv.Control.Reason.{ReasonCode, boundary_rejected}
use mox_adv.Mandate.{
  MandateRecord, MandateRow, MandateState, MandatePolicy, EventType, was_activated, was_revoked,
}
use mox_adv.Mandate.History.{log, IsTold, IsHistory}
use mox_adv.Mandate.History.Statements.{
  status-cases, told-active, told-revoked, numbered-last, first-updated, first-untouched,
}
use mox_adv.Mandate.Lifecycle.{
  set_active, set_revoked, is_activatable, is_revocable, activate_record, revoke_record,
}
use mox_adv.Mandate.Records.{
  is_mandate, is_issued, is_in_force, is_revoked, is_illegal_update, update_mandates, append_event,
  read_terms,
}
use mox_adv.Mandate.Refusals.{ok-then-ensures}
use mox_adv.Mandate.State.{is_ok, lift, check, ◌>>=◌}
use mox_adv.Mandate.Trace.{Environment}

other-name : (a b c : String) → (a == b) ≡ false → (c == b) ≡ true → (c == a) ≡ false
other-name a b c h k = elim (Bool-cases (c == a)) [
  | inl e ↦ let equal : (a == b) ≡ true = subst (λ x. (x == b) ≡ true) ((eq_iff c a).0 e) k in cc
  | inr e ↦ e
]

-- An UPDATE of one mandate, with its event, moves its history on.
move-IsHistory :
    (row : MandateRow) (p : MandateRow → Bool) (f : MandateRow → MandateRow) (kind : EventType)
    (principal : AuthenticatedPrincipal) (now : ℕ) (reason : Option String) (s : MandateState)
    → ((r : MandateRow) → (f r).mandate_id ≡ r.mandate_id)
    → ((r : MandateRow) → (r.mandate_id == row.mandate_id) ≡ false → p r ≡ false)
    → p row ≡ true
    → first_row (is_mandate row.mandate_id) s.mandates ≡ some row
    → ((events : List EventType) → IsTold (some row) events → IsTold (some (f row)) (kind ∷ events))
    → IsHistory s
    → IsHistory
        (append_event row.mandate_id kind principal now reason
          (record s { mandates = update_rows p f s.mandates })).1
unfolding append_event
move-IsHistory row p f kind principal now reason s keeps only selects found moves (numbered, told) =
    (
      (ap (λ n. n + 1) (numbered-last row.mandate_id s.events numbered), numbered),
      λ id. elim (Bool-cases (row.mandate_id == id)) [
        | inl e ↦
            let same = (eq_iff row.mandate_id id).0 e in
            let here : IsTold (some row) (log id s.events) =
              subst (λ o. IsTold o (log id s.events))
                (subst (λ n. first_row (is_mandate n) s.mandates ≡ some row) same found)
                (told id) in
            let written =
              first-updated id p f s.mandates row keeps selects
                (subst (λ n. first_row (is_mandate n) s.mandates ≡ some row) same found) in
            rw (e, written) (moves (log id s.events) here)
        | inr e ↦
            rw
              (
                e,
                first-untouched id p f s.mandates keeps
                    (λ r h. only r (other-name row.mandate_id id r.mandate_id e h)),
              )
              (told id)
      ],
    )

idle-issued :
    (row : MandateRow)
    → is_revoked row.status ≡ false
    → is_in_force row.status ≡ false
    → is_issued row.status ≡ true
idle-issued row alive idle = elim (status-cases row.status) [
  | inl e ↦ rw e refl
  | inr (inl e) ↦ let no = (rw e at idle) in cc
  | inr (inr e) ↦ let no = (rw e at alive) in cc
]

-- The same as the methods write it: the rowcount is checked in between.
moved-IsHistory :
    (row : MandateRow) (p : MandateRow → Bool) (f : MandateRow → MandateRow) (kind : EventType)
    (conflict : ReasonCode) (principal : AuthenticatedPrincipal) (now : ℕ) (reason : Option String)
    (s : MandateState)
    → ((r : MandateRow) → (f r).mandate_id ≡ r.mandate_id)
    → ((r : MandateRow) → (r.mandate_id == row.mandate_id) ≡ false → p r ≡ false)
    → p row ≡ true
    → first_row (is_mandate row.mandate_id) s.mandates ≡ some row
    → ((events : List EventType) → IsTold (some row) events → IsTold (some (f row)) (kind ∷ events))
    → IsHistory s
    → let m = update_mandates p f >>= λ changed. lift (check conflict (nat_eq changed 1)) >>= λ _.
        append_event row.mandate_id kind principal now reason in
      is_ok (m s).0 ≡ true → IsHistory (m s).1
unfolding update_mandates
moved-IsHistory row p f kind conflict principal now reason s keeps only selects found moves h
      returns =
    elim (Bool-cases (any_row (is_illegal_update p f) s.mandates)) [
      | inl i ↦ rw i h
      | inr i ↦ elim (Bool-cases (nat_eq (count_rows p s.mandates) 1)) [
        | inl n ↦
            rw (i, n)
              (move-IsHistory row p f kind principal now reason s keeps only selects found moves h)
        | inr n ↦ let no = (rw (i, n) at returns) in cc
      ]
    ]

module _ (env : Environment) (policy : MandatePolicy) where
  pub revoke_record-IsHistory :
      (r : MandateRecord) (reason : String) (principal : AuthenticatedPrincipal) (now : ℕ)
      (s : MandateState)
      → IsHistory s
      → first_row (is_mandate r.row.mandate_id) s.mandates ≡ some r.row
      → is_ok
          (revoke_record env.canonical_hash env.sign env.json env.parse_time policy r reason
            principal now s).0
        ≡ true
      → IsHistory
          (revoke_record env.canonical_hash env.sign env.json env.parse_time policy r reason
            principal now s).1
  unfolding revoke_record
  revoke_record-IsHistory r reason principal now s h found returns =
      elim (Bool-cases (is_revoked r.row.status)) [
        | inl e ↦ rw (revoke_record, e) h
        | inr e ↦
            rw (revoke_record, e)
              (moved-IsHistory r.row (is_revocable r.row.mandate_id)
                (set_revoked (r.row.revocation_version + 1) now reason) was_revoked
                (boundary_rejected "MANDATE_REVOCATION_CONFLICT") principal now (some reason) s
                (λ x. refl) (λ x d. ap (λ b. b && not (is_revoked x.status)) d)
                (rw (eq_refl, e) refl) found
                (λ events told. told-revoked r.row now reason events e told) h
                (rw (revoke_record, e) at returns))
      ]

  pub activate_record-IsHistory :
      (r : MandateRecord) (principal : AuthenticatedPrincipal) (now : ℕ) (s : MandateState)
      → IsHistory s
      → first_row (is_mandate r.row.mandate_id) s.mandates ≡ some r.row
      → is_ok
          (activate_record env.canonical_hash env.sign env.json env.parse_time policy r principal
            now s).0
        ≡ true
      → IsHistory
          (activate_record env.canonical_hash env.sign env.json env.parse_time policy r principal
            now s).1
  unfolding activate_record
  activate_record-IsHistory r principal now s h found returns =
      elim (Bool-cases (is_revoked r.row.status)) [
        | inl e ↦ rw (activate_record, e) h
        | inr e ↦ elim (Bool-cases (is_in_force r.row.status)) [
          | inl d ↦ rw (activate_record, e, d) h
          | inr d ↦
              rw (activate_record, e, d)
                (ok-then-ensures IsHistory
                  (read_terms env.canonical_hash env.sign env.json env.parse_time r) _ s
                  (λ terms _.
                    ok-then-ensures IsHistory
                      (check (boundary_rejected "MANDATE_EXPIRED") (ltb now terms.expiry)) _ s
                      λ _ _.
                        moved-IsHistory r.row (is_activatable r.row.mandate_id)
                          (set_active (r.row.activation_version + 1) now) was_activated
                          (boundary_rejected "MANDATE_ACTIVATION_CONFLICT") principal now none s
                          (λ x. refl) (λ x f. ap (λ b. b && is_issued x.status) f)
                          (rw (eq_refl, idle-issued r.row e d) refl) found
                          (λ events told. told-active r.row now events e d told) h)
                  (rw (activate_record, e, d) at returns))
        ]
      ]
