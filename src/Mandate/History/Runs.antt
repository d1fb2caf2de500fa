-- ===== src/Mandate/History/Runs.antt =====
-- The history of the mandates of src/mox_adv/mandate_store.py over any sequence of calls.
use mox_adv.Prelude.{
  ℕ, ◌≡◌, refl, sym, subst, String, true, not, none, some, List, [], ◌∷◌, ◌==◌, eq_iff, Bool-cases,
  Option-cases, inl, inr,
}
use mox_adv.Prelude.Json.{Json, Fields}
use mox_adv.Prelude.Text.{is_blank, strip}
use mox_adv.Interrupts.{engage}
use mox_adv.Table.{first_row, any_row}
use mox_adv.Control.Principal.{AuthenticatedPrincipal}
use mox_adv.Control.Reason.{invalid_input}
use mox_adv.Control.Rows.{PreparedChange, ExecutionStatus, execution_key}
use mox_adv.Control.State.{DurableControlState}
use mox_adv.Mandate.{MandateRecord, MandateRow, MandateState, MandatePolicy, EventRow, was_issued}
use mox_adv.Mandate.Execute.{is_consumption, insert_reservation}
use mox_adv.Mandate.History.{log, IsTold, IsHistory}
use mox_adv.Mandate.History.Methods.{revoke_record-IsHistory, activate_record-IsHistory}
use mox_adv.Mandate.History.Statements.{log-count}
use mox_adv.Mandate.Invariant.Reserving.{load-row}
use mox_adv.Mandate.Keeps.{
  Keeps, bind-Keeps, continue-holds, keep-holds, lift-Keeps, transaction-if_ok,
}
use mox_adv.Mandate.Lifecycle.{
  activate, activate_record, engage_mandate, has_hash, insert_mandate, is_event, issue,
  issue_canonical, new_mandate, revoke, revoke_record,
}
use mox_adv.Mandate.Methods.{reserve_execution-Keeps}
use mox_adv.Mandate.Recheck.{write_recheck}
use mox_adv.Mandate.Records.{is_mandate, load, record_from_row}
use mox_adv.Mandate.Refusals.{ok-then-ensures}
use mox_adv.Mandate.Revoked.{found-id}
use mox_adv.Mandate.Sequences.{MethodLaws, run_methods-Keeps}
use mox_adv.Mandate.State.{Authority, check, is_ok, read, transaction, ◌>>=◌}
use mox_adv.Mandate.Terms.{MandateTerms}
use mox_adv.Mandate.Trace.{Environment, Call, start, run}
use mox_adv.Mandate.Validate.{validate_issuer, validate_payload}

-- A new row and its first event.
inserted-IsHistory :
    (row : MandateRow) (event : EventRow) (s : MandateState)
    → IsTold (some row) (was_issued ∷ [])
    → event.mandate_id ≡ row.mandate_id
    → event.event_type ≡ was_issued
    → event.event_version ≡ 1
    → first_row (is_mandate row.mandate_id) s.mandates ≡ none
    → IsHistory s
    → IsHistory (record s { mandates = row ∷ s.mandates; events = event ∷ s.events })
inserted-IsHistory row event s new about kind first fresh (numbered, told) =
    let no_events : log row.mandate_id s.events ≡ [] =
      subst (λ o. IsTold o (log row.mandate_id s.events)) fresh (told row.mandate_id) in
    let none_yet = log-count row.mandate_id s.events no_events in
    (
      (rw (about, none_yet, first) refl, numbered),
      λ id. elim (Bool-cases (row.mandate_id == id)) [
        | inl e ↦
            let unlogged : log id s.events ≡ [] =
              subst (λ n. log n s.events ≡ []) ((eq_iff row.mandate_id id).0 e) no_events in
            rw (about, e, kind, unlogged) new
        | inr e ↦ rw (about, e) (told id)
      ],
    )

module _ (env : Environment) (policy : MandatePolicy) where
  insert_mandate-IsHistory :
      (c : Fields) (principal : AuthenticatedPrincipal) (now : ℕ) (s : MandateState)
      → first_row
          (is_mandate
            (new_mandate env.canonical_hash env.sign env.json env.parse_time policy c).mandate_id)
          s.mandates
        ≡ none
      → IsHistory s
      → IsHistory
          (insert_mandate env.canonical_hash env.sign env.json env.parse_time policy c principal now
            s).1
  unfolding insert_mandate new_mandate
  insert_mandate-IsHistory c principal now s fresh h =
      let row = new_mandate env.canonical_hash env.sign env.json env.parse_time policy c in
      elim (Bool-cases (any_row (has_hash row.canonical_hash) s.mandates)) [
        | inl e ↦ rw (insert_mandate, e) h
        | inr e ↦ elim (Bool-cases (any_row (is_event row.mandate_id 1) s.events)) [
          | inl f ↦ rw (insert_mandate, e, f) h
          | inr f ↦
              rw (insert_mandate, e, f)
                (inserted-IsHistory row
                  (record {
                    mandate_id = row.mandate_id;
                    event_version = 1;
                    event_type = was_issued;
                    principal = principal.identity;
                    authentication = principal.authentication;
                    reason = none;
                    occurred_at = now;
                  })
                  s (refl, (refl, refl)) refl refl refl fresh h)
        ]
      ]

  issue_canonical-IsHistory :
      (c : Fields) (principal : AuthenticatedPrincipal) (now : ℕ)
      → Keeps IsHistory (
          issue_canonical env.canonical_hash env.sign env.json env.parse_time policy env.same_fields
            c principal now)
  unfolding issue_canonical
  issue_canonical-IsHistory c principal now s h =
      let row = new_mandate env.canonical_hash env.sign env.json env.parse_time policy c in
      let insertion =
        insert_mandate env.canonical_hash env.sign env.json env.parse_time policy c principal now in
      elim (Option-cases (first_row (is_mandate row.mandate_id) s.mandates)) [
        | inl e ↦
            rw (issue_canonical, e)
              (continue-holds IsHistory _ (λ _ t k. k) (transaction insertion s)
                (keep-holds IsHistory s (insertion s) h
                  (insert_mandate-IsHistory c principal now s e h)))
        | inr (other, e) ↦
            rw (issue_canonical, e)
              (lift-Keeps IsHistory
                (record_from_row env.canonical_hash env.sign env.json env.parse_time other) _
                (λ _ t k. k) s h)
      ]

  issue-IsHistory :
      (payload : Json) (principal : AuthenticatedPrincipal) (now : ℕ)
      → Keeps IsHistory (
          issue env.canonical_hash env.sign env.json env.parse_time policy env.canonicalize
            env.parse_int env.same_fields payload principal now)
  unfolding issue
  issue-IsHistory payload principal now =
      lift-Keeps IsHistory
        (validate_payload env.canonicalize env.parse_time env.parse_int policy payload principal
          now)
        _ λ c. issue_canonical-IsHistory c principal now

  -- A transaction that reads the record, and keeps the history where it returns.
  with-record :
      (id : String) (m : MandateRecord → Authority (Unit {0}))
      → ((r : MandateRecord) (s : MandateState)
          → IsHistory s
          → first_row (is_mandate r.row.mandate_id) s.mandates ≡ some r.row
          → is_ok (m r s).0 ≡ true
          → IsHistory (m r s).1)
      → Keeps IsHistory
          (transaction (read (load env.canonical_hash env.sign env.json env.parse_time id) >>= m))
  with-record id m keeps s h =
      transaction-if_ok IsHistory
        (read (load env.canonical_hash env.sign env.json env.parse_time id) >>= m) s h
        (ok-then-ensures IsHistory (load env.canonical_hash env.sign env.json env.parse_time id s) m
          s
          λ r loaded.
            let found = load-row env id s r loaded in
            keeps r s h (
              subst (λ n. first_row (is_mandate n) s.mandates ≡ some r.row)
                (sym (found-id id s.mandates r.row found)) found))

  activate-IsHistory :
      (id : String) (principal : AuthenticatedPrincipal) (now : ℕ)
      → Keeps IsHistory
          (activate env.canonical_hash env.sign env.json env.parse_time policy id principal now)
  unfolding activate
  activate-IsHistory id principal now =
      lift-Keeps IsHistory (validate_issuer policy principal) _ λ _.
        bind-Keeps IsHistory _ _
          (with-record id
            (λ row.
              activate_record env.canonical_hash env.sign env.json env.parse_time policy row
                principal now)
            (λ row. activate_record-IsHistory env policy row principal now))
          λ _ s h. h

  engage_mandate-IsHistory :
      (id reason : String) (now : ℕ) → Keeps IsHistory (engage_mandate id reason now)
  unfolding engage_mandate
  engage_mandate-IsHistory id reason now s h =
      elim (Option-cases (engage "mandate" id reason now s.control.interrupts)) [
        | inl e ↦ rw (engage_mandate, e) h
        | inr (interrupts, e) ↦ rw (engage_mandate, e) h
      ]

  revoke-IsHistory :
      (id reason : String) (principal : AuthenticatedPrincipal) (now : ℕ)
      → Keeps IsHistory (
          revoke env.canonical_hash env.sign env.json env.parse_time policy id reason principal now)
  unfolding revoke
  revoke-IsHistory id reason principal now =
      lift-Keeps IsHistory (validate_issuer policy principal) _ λ _.
        lift-Keeps IsHistory (check invalid_input (not (is_blank reason))) _ λ _.
          bind-Keeps IsHistory (engage_mandate id (strip reason) now) _
            (engage_mandate-IsHistory id (strip reason) now)
            λ _.
              bind-Keeps IsHistory _ _
                (with-record id
                  (λ row.
                    revoke_record env.canonical_hash env.sign env.json env.parse_time policy row
                      (strip reason) principal now)
                  (λ row. revoke_record-IsHistory env policy row (strip reason) principal now))
                λ _ s h. h

  insert_reservation-IsHistory :
      (id : String) (terms : MandateTerms) (prepared : PreparedChange) (exposure change now : ℕ)
      → Keeps IsHistory (
          insert_reservation env.canonical_hash env.sign env.json env.parse_time id terms prepared
            exposure change now)
  unfolding insert_reservation
  insert_reservation-IsHistory id terms prepared exposure change now s h =
      elim (Bool-cases
        (any_row (is_consumption (execution_key env.canonical_hash prepared)) s.consumptions)) [
          | inl e ↦ rw (insert_reservation, e) h
          | inr e ↦ rw (insert_reservation, e) h
        ]

  write_recheck-IsHistory :
      (prepared : PreparedChange) (id : String) (previous status : ExecutionStatus)
      (detail : String) (now : ℕ)
      → Keeps IsHistory (
          write_recheck env.canonical_hash env.sign env.json env.parse_time prepared id previous
            status detail now)
  unfolding write_recheck
  write_recheck-IsHistory prepared id previous status detail now s h = h

  IsHistory-laws : MethodLaws env policy IsHistory
  IsHistory-laws = record {
    issuing_all = issue-IsHistory;
    activating_all = activate-IsHistory;
    revoking_all = revoke-IsHistory;
    reserving_all = reserve_execution-Keeps env IsHistory insert_reservation-IsHistory;
    rechecking_all = write_recheck-IsHistory;
    sharing_all = λ control s h. h;
  }

  -- After any sequence of calls, the events of each mandate are numbered from 1 on without a gap, and every
  -- mandate's row says what its events tell: its status, and how often it was activated and revoked; a mandate
  -- without a row has no events.
  pub rows-IsHistory :
      (calls : List Call) (control : DurableControlState)
      → IsHistory (run env policy calls (start control))
  rows-IsHistory calls control =
      run_methods-Keeps env policy IsHistory IsHistory-laws calls (start control) (tt, λ id. refl)
