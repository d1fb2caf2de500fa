-- ===== src/Boundary.antt =====
-- The boundaries right before a transport: `DurablePreWriteAudit` and `GuardedDispatchBoundary` of
-- src/mox_adv/trust_boundary.py, `ApplicationWriteBoundary` of src/mox_adv/application_control.py.
pub mod Clear
pub mod Laws
mod Tests
use mox_adv.Prelude.{ℕ, String, Bool, true, false, Option, none, some, List, [], ◌∷◌, if◌then◌else◌}
use mox_adv.Commands.{member}
use mox_adv.Control.KillSwitches.{require_dispatch_allowed}
use mox_adv.Control.Reason.{ReasonCode, Result, ok, rejected}
use mox_adv.Control.Rows.{TrustedScope}
use mox_adv.Control.State.{DurableControlState}
use mox_adv.WriteWindow.{Gate, release}
use mox_adv.WriteWindow.Coordinator.{Outcome, settled, control_rejected, unexpected, reserve_window}

-- `evidence` lists the digests of the keys whose journal or anchor file exists.
pub record Services : Type 0 where
  pub control : DurableControlState
  pub gate : Gate
  pub evidence : List String

pub data Raised : Type 0 where
  control : ReasonCode → Raised
  audit_write_blocked : String → Raised
  other : Raised

pub data Answer (A : Type 0) : Type 0 where
  returned : A → Answer A
  raised : Raised → Answer A

abbrev pub Step : Type 0 → Type 0
Step A = Services → Answer A × Services

-- How the journal fares: it is written, or it fails before or after its file exists.
pub data Journal : Type 0 where
  written : Journal
  fails_early fails_late : String → Journal

module _ (sha256 : String → String) where
  -- `DurablePreWriteAudit.authorize`
  unfoldable pub pre_write : Journal → String → Step (Unit {0})
  pre_write journal key s =
      if member (sha256 key) s.evidence
      then (raised (audit_write_blocked "PRE_WRITE_AUDIT_ALREADY_EXISTS"), s)
      else elim journal [
        | written ↦ (returned tt, record s { evidence = sha256 key ∷ s.evidence })
        | fails_early reason ↦ (raised (audit_write_blocked reason), s)
        | fails_late reason ↦
            (raised (audit_write_blocked reason), record s { evidence = sha256 key ∷ s.evidence })
      ]

  -- The `try` around `final_check`; `none` is a boundary without one.
  unfoldable pub final : Option (Step ℕ) → String → Step (Option ℕ)
  unfolding release
  final none key s = (returned none, s)
  final (some check) key s =
      let (answer, t) = check s in
      elim answer [
        | returned at ↦ (returned (some at), t)
        | raised e ↦ (raised e, record t { gate = release key t.gate })
      ]

  -- `GuardedDispatchBoundary.authorize` after the audit.
  unfoldable pub reserve_and_check : String → ℕ → Option (Step ℕ) → Step (Option ℕ)
  unfolding final
  reserve_and_check key now check s =
      let (outcome, gate) = reserve_window key now s.gate in
      let t = record s { gate = gate } in
      elim outcome [
        | settled ↦ final check key t
        | control_rejected reason ↦ (raised (control reason), t)
        | unexpected ↦ (raised other, t)
      ]

  unfoldable pub authorize_guarded : Journal → String → ℕ → Option (Step ℕ) → Step (Option ℕ)
  unfolding pre_write reserve_and_check
  authorize_guarded journal key now check s =
      let (answer, t) = pre_write journal key s in
      elim answer [ raised e ↦ (raised e, t) | returned _ ↦ reserve_and_check key now check t ]

  -- A method of the control state, among the services.
  abbrev pub allowed : TrustedScope → Step (Unit {0})
  allowed scope s =
      let (r, c) = require_dispatch_allowed scope s.control in
      elim r [
        | ok _ ↦ (returned tt, record s { control = c })
        | rejected reason ↦ (raised (control reason), record s { control = c })
      ]

  abbrev pub checked : Option (Step ℕ) → Step (Option ℕ)
  checked none s = (returned none, s)
  checked (some check) s =
      let (answer, t) = check s in
      elim answer [ returned at ↦ (returned (some at), t) | raised e ↦ (raised e, t) ]

  -- The last test of `ApplicationWriteBoundary.authorize`.
  unfoldable pub close : TrustedScope → Option ℕ → Step (Option ℕ)
  close scope result s =
      let (answer, t) = allowed scope s in
      elim answer [ raised e ↦ (raised e, t) | returned _ ↦ (returned result, t) ]

  unfoldable pub audit_and_close : Journal → String → TrustedScope → Option ℕ → Step (Option ℕ)
  unfolding pre_write close
  audit_and_close journal key scope result s =
      let (answer, t) = pre_write journal key s in
      elim answer [ raised e ↦ (raised e, t) | returned _ ↦ close scope result t ]

  -- `ApplicationWriteBoundary.authorize`
  unfoldable pub authorize_application :
      Journal → String → TrustedScope → Option (Step ℕ) → Step (Option ℕ)
  unfolding audit_and_close
  authorize_application journal key scope check s =
      let (answer, t) = allowed scope s in
      elim answer [
        | raised e ↦ (raised e, t)
        | returned _ ↦
            let (result, u) = checked check t in
            elim result [
              | raised e ↦ (raised e, u)
              | returned value ↦ audit_and_close journal key scope value u
            ]
      ]
