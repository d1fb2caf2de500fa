-- ===== src/Mandate/Revoked.antt =====
-- That `revoke` of src/mox_adv/mandate_store.py, where it returns, has revoked the mandate for good.
use mox_adv.Prelude.{
  ℕ, ◌+◌, ◌≡◌, refl, sym, subst, String, true, false, not, some, List, [], ◌∷◌, ◌==◌, eq_iff,
  Bool-cases, inl, inr, arith, nat_eq,
}
use mox_adv.Prelude.Text.{is_blank, strip}
use mox_adv.Table.{first_row, any_row, update_rows}
use mox_adv.Control.Principal.{AuthenticatedPrincipal}
use mox_adv.Control.Reason.{boundary_rejected, invalid_input}
use mox_adv.Control.Rows.{PreparedChange, TrustedScope}
use mox_adv.Mandate.{MandateRecord, MandateRow, MandateState, MandatePolicy, was_revoked}
use mox_adv.Mandate.Execute.{reserve_execution, claim_execution, require_dispatch_allowed}
use mox_adv.Mandate.Invariant.Reserving.{load-row}
use mox_adv.Mandate.Lifecycle.{
  is_revocable, set_revoked, engage_mandate, activate, revoke, revoke_record,
}
use mox_adv.Mandate.Keeps.{lift-Keeps}
use mox_adv.Mandate.Methods.{run-Keeps}
use mox_adv.Mandate.Records.{
  is_mandate, is_revoked, is_illegal_update, update_mandates, append_event, load, load_active,
}
use mox_adv.Mandate.Refusals.{
  then-kept, Ensures, read-Ensures, lift-Ensures, bind-Ensures, then-read-Ensures,
  transaction-Ensures,
}
use mox_adv.Mandate.Results.{some-injective}
use mox_adv.Mandate.Revocation.{
  is_revoked_in, IsRevoked, IsRevoked-laws, append_event-IsRevoked, load_active-refused,
  reserve_execution-Refuses, claim_execution-Refuses, activate-Refuses, dispatch-refused,
}
use mox_adv.Mandate.State.{is_ok, check, read, transaction, ◌>>=◌}
use mox_adv.Mandate.Trace.{Environment, Call, run}
use mox_adv.Mandate.Validate.{validate_issuer}

pub found-id :
    (id : String) (rows : List MandateRow) (row : MandateRow)
    → first_row (is_mandate id) rows ≡ some row
    → row.mandate_id ≡ id
found-id id [] row h = ground arith
found-id id (other ∷ rows) row h = elim (Bool-cases (other.mandate_id == id)) [
  | inl e ↦
      subst (λ r. r.mandate_id ≡ id) (some-injective other row (ground arith))
        ((eq_iff other.mandate_id id).0 e)
  | inr e ↦ found-id id rows row (ground arith)
]

found-revoked :
    (id : String) (rows : List MandateRow) (row : MandateRow)
    → first_row (is_mandate id) rows ≡ some row
    → is_revoked row.status ≡ true
    → is_revoked_in id rows ≡ true
found-revoked id [] row h k = ground arith
found-revoked id (other ∷ rows) row h k = elim (Bool-cases (other.mandate_id == id)) [
  | inl e ↦
      let same : row ≡ other = some-injective row other (ground arith) in
      rw e (subst (λ r. is_revoked r.status ≡ true) same k)
  | inr e ↦ rw e (found-revoked id rows row (ground arith) k)
]

-- The UPDATE revokes the mandate, where there is one.
update-revokes :
    (id : String) (version now : ℕ) (reason : String) (rows : List MandateRow) (row : MandateRow)
    → first_row (is_mandate id) rows ≡ some row
    → is_revoked_in id (update_rows (is_revocable id) (set_revoked version now reason) rows) ≡ true
update-revokes id version now reason [] row h = ground arith
update-revokes id version now reason (other ∷ rows) row h =
    elim (Bool-cases (other.mandate_id == id)) [
      | inl e ↦ elim (Bool-cases (is_revoked other.status)) [
        | inl f ↦ rw (e, f) (rw e f)
        | inr f ↦ rw (e, f) (rw e refl)
      ]
      | inr e ↦ rw e (rw e (update-revokes id version now reason rows row (ground arith)))
    ]

update_mandates-revokes :
    (id : String) (version now : ℕ) (reason : String) (s : MandateState) (row : MandateRow)
    → first_row (is_mandate id) s.mandates ≡ some row
    → is_ok (update_mandates (is_revocable id) (set_revoked version now reason) s).0 ≡ true
    → IsRevoked id (update_mandates (is_revocable id) (set_revoked version now reason) s).1
unfolding update_mandates
update_mandates-revokes id version now reason s row found h =
    elim (Bool-cases
      (any_row (is_illegal_update (is_revocable id) (set_revoked version now reason)) s.mandates)) [
        | inl e ↦ ground arith
        | inr e ↦ rw e (update-revokes id version now reason s.mandates row found)
      ]

module _ (env : Environment) (policy : MandatePolicy) where
  revoke_record-revokes :
      (reason : String) (principal : AuthenticatedPrincipal) (now : ℕ) (r : MandateRecord)
      (s : MandateState)
      → first_row (is_mandate r.row.mandate_id) s.mandates ≡ some r.row
      → is_ok
          (revoke_record env.canonical_hash env.sign env.json env.parse_time policy r reason
            principal now s).0
        ≡ true
      → IsRevoked r.row.mandate_id
          (revoke_record env.canonical_hash env.sign env.json env.parse_time policy r reason
            principal now s).1
  unfolding revoke_record append_event
  revoke_record-revokes reason principal now r s found h =
      elim (Bool-cases (is_revoked r.row.status)) [
        | inl e ↦ rw (revoke_record, e) (found-revoked r.row.mandate_id s.mandates r.row found e)
        | inr e ↦
            rw (revoke_record, e)
              (then-kept (IsRevoked r.row.mandate_id)
                (update_mandates (is_revocable r.row.mandate_id)
                  (set_revoked (r.row.revocation_version + 1) now reason) s)
                _
                (λ changed.
                  lift-Keeps (IsRevoked r.row.mandate_id)
                    (check (boundary_rejected "MANDATE_REVOCATION_CONFLICT") (nat_eq changed 1)) _
                    λ _.
                      append_event-IsRevoked env policy r.row.mandate_id r.row.mandate_id
                        was_revoked principal now (some reason))
                (update_mandates-revokes r.row.mandate_id (r.row.revocation_version + 1) now reason
                  s r.row found)
                (rw (revoke_record, e) at h))
      ]

  pub revoke-Ensures :
      (id reason : String) (principal : AuthenticatedPrincipal) (now : ℕ)
      → Ensures (IsRevoked id) (
          revoke env.canonical_hash env.sign env.json env.parse_time policy id reason principal now)
  unfolding revoke
  revoke-Ensures id reason principal now =
      lift-Ensures (IsRevoked id) (validate_issuer policy principal) _ λ _.
        lift-Ensures (IsRevoked id) (check invalid_input (not (is_blank reason))) _ λ _.
          bind-Ensures (IsRevoked id) (engage_mandate id (strip reason) now) _ λ _.
            then-read-Ensures (IsRevoked id)
              (transaction (do
                row ← read (load env.canonical_hash env.sign env.json env.parse_time id)
                revoke_record env.canonical_hash env.sign env.json env.parse_time policy row
                    (strip reason) principal now))
              (λ _. load env.canonical_hash env.sign env.json env.parse_time id)
              (transaction-Ensures (IsRevoked id) _ (
                read-Ensures (IsRevoked id)
                  (load env.canonical_hash env.sign env.json env.parse_time id) _
                  λ r s e h.
                    let found = load-row env id s r e in
                    let same = found-id id s.mandates r.row found in
                    subst
                      (λ n.
                        IsRevoked n
                          (revoke_record env.canonical_hash env.sign env.json env.parse_time policy
                            r (strip reason) principal now s).1)
                      same
                      (revoke_record-revokes (strip reason) principal now r s
                        (subst (λ n. first_row (is_mandate n) s.mandates ≡ some r.row) (sym same)
                          found)
                        h)))

  -- Once `revoke` has returned, whatever calls follow, nothing is activated, reserved, claimed for sending or
  -- let through to the transport under the mandate.
  pub revocation_final :
      (id reason : String) (principal : AuthenticatedPrincipal) (now : ℕ) (s : MandateState)
      (calls : List Call) (later : ℕ)
      → is_ok
          (revoke env.canonical_hash env.sign env.json env.parse_time policy id reason principal now
            s).0
        ≡ true
      → let t =
          run env policy calls
            (revoke env.canonical_hash env.sign env.json env.parse_time policy id reason principal
              now s).1 in
        (is_ok (load_active env.canonical_hash env.sign env.json env.parse_time id later t) ≡ false)
        × ((who : AuthenticatedPrincipal)
            → is_ok
                (activate env.canonical_hash env.sign env.json env.parse_time policy id who later
                  t).0
              ≡ false)
        × ((prepared : PreparedChange)
            → (is_ok
                  (reserve_execution env.canonical_hash env.sign env.json env.parse_time prepared id
                    later t).0
                ≡ false)
              × (is_ok
                    (claim_execution env.canonical_hash env.sign env.json env.parse_time prepared id
                      later t).0
                  ≡ false))
        × ((scope : TrustedScope)
            → is_ok (
                require_dispatch_allowed env.canonical_hash env.sign env.json env.parse_time id
                  scope later t)
              ≡ false)
  revocation_final id reason principal now s calls later h =
      let after =
        (revoke env.canonical_hash env.sign env.json env.parse_time policy id reason principal now
          s).1 in
      let t = run env policy calls after in
      let dead : IsRevoked id t =
        run-Keeps env policy (IsRevoked id) (IsRevoked-laws env policy id) calls after
          (revoke-Ensures id reason principal now s h) in
      (
        load_active-refused env policy id t later dead,
        λ who. activate-Refuses env policy id who later t dead,
        λ prepared. (
          reserve_execution-Refuses env policy id prepared later t dead,
          claim_execution-Refuses env policy id prepared later t dead,
        ),
        λ scope. dispatch-refused env policy id t scope later dead,
      )
