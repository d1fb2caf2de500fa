-- ===== src/Boundary/Laws.antt =====
-- What the boundaries of src/mox_adv/trust_boundary.py and src/mox_adv/application_control.py leave.
use mox_adv.Prelude.{
  ℕ, ◌≡◌, refl, sym, ◌∙◌, ap, String, Bool, true, false, ◌==◌, Option, none, some, arith, eq_refl,
  Bool-cases, inl, inr, ◌⊎◌,
}
use mox_adv.Boundary.{
  Services, Raised, Answer, returned, raised, Step, Journal, pre_write, final, reserve_and_check,
  authorize_guarded, allowed, close, audit_and_close, authorize_application, checked,
}
use mox_adv.Boundary.Clear.{IsClear, allowed-IsClear}
use mox_adv.Commands.{member}
use mox_adv.Control.KillSwitches.{
  require_dispatch_allowed, any_kill_switch_active, require_no_interrupt,
}
use mox_adv.Control.Reason.{ReasonCode, Result, ok, rejected}
use mox_adv.Control.Rows.{TrustedScope}
use mox_adv.Control.State.{DurableControlState}
use mox_adv.WriteWindow.{Gate, claim, release, reserve}
use mox_adv.WriteWindow.Coordinator.{reserve_window, settled, state_unavailable}

abbrev pub is_returned : {A : Type 0} → Answer A → Bool
is_returned (returned _) = true
is_returned (raised _) = false

-- The gate after an authorization that was tried on an open one.
abbrev pub held_if : Bool → String → ℕ → Gate
held_if true key now = some (claim key now)
held_if false key now = none

release-claim : (key : String) (now : ℕ) → release key (some (claim key now)) ≡ none
unfolding release
release-claim key now = ground (arith, eq_refl key)

Answer-cases :
    {A : Type 0} (a : Answer A) → ((e : Raised) × (a ≡ raised e)) ⊎ ((x : A) × (a ≡ returned x))
Answer-cases (raised e) = inl (e, refl)
Answer-cases (returned x) = inr (x, refl)

Result-cases : (r : Result (Unit {0})) → ((e : ReasonCode) × (r ≡ rejected e)) ⊎ (r ≡ ok tt)
Result-cases (ok x) = inr refl
Result-cases (rejected e) = inl (e, refl)

reserve_open :
    (key : String) (now : ℕ)
    → (reserve_window key now none ≡ (settled, some (claim key now)))
      ⊎ (reserve_window key now none ≡ (state_unavailable, none))
unfolding reserve_window reserve
reserve_open key now = elim (Bool-cases (key == "")) [
  | inl e ↦ inr (rw e refl)
  | inr e ↦ inl (rw e refl)
]

module _ (sha256 : String → String) where
  pre_write-gate :
      (journal : Journal) (key : String) (s : Services)
      → (pre_write sha256 journal key s).1.gate ≡ s.gate
  unfolding pre_write
  pre_write-gate journal key s = ground arith

  written-member :
      (journal : Journal) (key : String) (s : Services) (x : Unit {0})
      → (pre_write sha256 journal key s).0 ≡ returned x
      → member (sha256 key) (pre_write sha256 journal key s).1.evidence ≡ true
  unfolding pre_write
  written-member journal key s x h = ground (arith, eq_refl (sha256 key))

  final-gate :
      (check : Step ℕ) (key : String) (now : ℕ) (s : Services)
      → ((t : Services) → (check t).1.gate ≡ t.gate)
      → s.gate ≡ some (claim key now)
      → (final sha256 (some check) key s).1.gate
        ≡ held_if (is_returned (final sha256 (some check) key s).0) key now
  unfolding final
  final-gate check key now s keeps h = elim (Answer-cases (check s).0) [
    | inl (e, r) ↦ rw (final, r, keeps s, h) (release-claim key now)
    | inr (at, r) ↦ rw (final, r) (keeps s ∙ h)
  ]

  reserve-gate :
      (check : Step ℕ) (key : String) (now : ℕ) (s : Services)
      → ((t : Services) → (check t).1.gate ≡ t.gate)
      → s.gate ≡ none
      → (reserve_and_check sha256 key now (some check) s).1.gate
        ≡ held_if (is_returned (reserve_and_check sha256 key now (some check) s).0) key now
  unfolding reserve_and_check
  reserve-gate check key now s keeps h = elim (reserve_open key now) [
    | inl e ↦
        let r = ap (reserve_window key now) h ∙ e in
        rw (reserve_and_check, r)
          (final-gate check key now (record s { gate = (reserve_window key now s.gate).1 }) keeps
            (ap (λ x. x.1) r))
    | inr e ↦
        let r = ap (reserve_window key now) h ∙ e in rw (reserve_and_check, r) (ap (λ x. x.1) r)
  ]

  -- On an open write window, and with a check that leaves the window alone, the guarded boundary holds
  -- the window for the key if it authorizes, and leaves it open if it raises, whether the audit,
  -- the reservation or the check did.
  pub held_iff_authorized :
      (journal : Journal) (key : String) (now : ℕ) (check : Step ℕ) (s : Services)
      → ((t : Services) → (check t).1.gate ≡ t.gate)
      → s.gate ≡ none
      → (authorize_guarded sha256 journal key now (some check) s).1.gate
        ≡ held_if (is_returned (authorize_guarded sha256 journal key now (some check) s).0) key now
  unfolding authorize_guarded
  held_iff_authorized journal key now check s keeps h =
      elim (Answer-cases (pre_write sha256 journal key s).0) [
        | inl (e, r) ↦ rw (authorize_guarded, r) (pre_write-gate journal key s ∙ h)
        | inr (x, r) ↦
            rw (authorize_guarded, r)
              (reserve-gate check key now (pre_write sha256 journal key s).1 keeps
                (pre_write-gate journal key s ∙ h))
      ]

  allowed-settled :
      (scope : TrustedScope) (c : DurableControlState) → (require_dispatch_allowed scope c).1 ≡ c
  unfolding require_dispatch_allowed any_kill_switch_active require_no_interrupt
  allowed-settled scope c = ground arith

  allowed-state : (scope : TrustedScope) (s : Services) → (allowed sha256 scope s).1 ≡ s
  allowed-state scope s = elim (Result-cases (require_dispatch_allowed scope s.control).0) [
    | inl (reason, e) ↦
        rw (allowed, e) (ap (λ c. record s { control = c }) (allowed-settled scope s.control))
    | inr e ↦ rw (allowed, e) (ap (λ c. record s { control = c }) (allowed-settled scope s.control))
  ]

  -- What holds once the last test of the application boundary was passed.
  abbrev pub IsClosed : String → TrustedScope → Services → Type 0
  IsClosed key scope s = IsClear scope s.control × (member (sha256 key) s.evidence ≡ true)

  close-IsClosed :
      (key : String) (scope : TrustedScope) (result : Option ℕ) (s : Services)
      → member (sha256 key) s.evidence ≡ true
      → is_returned (close sha256 scope result s).0 ≡ true
      → IsClosed key scope (close sha256 scope result s).1
  unfolding close
  close-IsClosed key scope result s m h =
      elim (Result-cases (require_dispatch_allowed scope s.control).0) [
        | inl (reason, e) ↦
            let no : is_returned (close sha256 scope result s).0 ≡ false = rw (close, e) refl in cc
        | inr e ↦ rw (close, e, allowed-state scope s) (allowed-IsClear scope s.control e, m)
      ]

  audit-IsClosed :
      (journal : Journal) (key : String) (scope : TrustedScope) (result : Option ℕ) (s : Services)
      → is_returned (audit_and_close sha256 journal key scope result s).0 ≡ true
      → IsClosed key scope (audit_and_close sha256 journal key scope result s).1
  unfolding audit_and_close
  audit-IsClosed journal key scope result s h =
      elim (Answer-cases (pre_write sha256 journal key s).0) [
        | inl (e, r) ↦
            let no : is_returned (audit_and_close sha256 journal key scope result s).0 ≡ false =
              rw (audit_and_close, r) refl in
            cc
        | inr (x, r) ↦
            let t = (pre_write sha256 journal key s).1 in
            let same : audit_and_close sha256 journal key scope result s
                ≡ close sha256 scope result t =
              rw (audit_and_close, r) refl in
            rw same (
              close-IsClosed key scope result t (written-member journal key s x r)
                (ap (λ o. is_returned o.0) (sym same) ∙ h))
      ]

  -- If the application boundary authorizes, whatever the check and other callers did meanwhile, then in
  -- the state that it leaves the sidecar can be read, neither the main table nor the sidecar has an active
  -- kill switch, be it global or for the organization, the connection or the campaign of the scope, and the
  -- audit has evidence of the key.
  pub authorize_application-IsClosed :
      (journal : Journal) (key : String) (scope : TrustedScope) (check : Option (Step ℕ))
      (s : Services)
      → is_returned (authorize_application sha256 journal key scope check s).0 ≡ true
      → IsClosed key scope (authorize_application sha256 journal key scope check s).1
  unfolding authorize_application
  authorize_application-IsClosed journal key scope check s h =
      elim (Answer-cases (allowed sha256 scope s).0) [
        | inl (e, r) ↦
            let no : is_returned (authorize_application sha256 journal key scope check s).0
                ≡ false =
              rw (authorize_application, r) refl in
            cc
        | inr (x, r) ↦
            let t = (allowed sha256 scope s).1 in
            elim (Answer-cases (checked sha256 check t).0) [
              | inl (e, c) ↦
                  let no : is_returned (authorize_application sha256 journal key scope check s).0
                      ≡ false =
                    rw (authorize_application, r, c) refl in
                  cc
              | inr (value, c) ↦
                  let u = (checked sha256 check t).1 in
                  let same : authorize_application sha256 journal key scope check s
                      ≡ audit_and_close sha256 journal key scope value u =
                    rw (authorize_application, r, c) refl in
                  rw same (
                    audit-IsClosed journal key scope value u
                      (ap (λ o. is_returned o.0) (sym same) ∙ h))
            ]
      ]
