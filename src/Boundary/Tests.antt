-- ===== src/Boundary/Tests.antt =====
-- The boundaries at concrete services, and the theorems at them.
use mox_adv.Prelude.{ℕ, String, ◌≡◌, refl, true, concat_text, some, none, [], ◌∷◌}
use mox_adv.Interrupts.{any_active, kill_switch_scopes}
use mox_adv.Boundary.{
  Services, returned, raised, Step, written, control, audit_write_blocked, authorize_guarded,
  authorize_application, pre_write, reserve_and_check, final, audit_and_close, close,
}
use mox_adv.Boundary.Laws.{
  is_returned, held_if, held_iff_authorized, IsClosed, authorize_application-IsClosed,
}
use mox_adv.Control.KillSwitches.{
  require_dispatch_allowed, any_kill_switch_active, require_no_interrupt,
  kill_switch_active_in_connection,
}
use mox_adv.Control.Reason.{boundary_rejected}
use mox_adv.Control.Rows.{TrustedScope}
use mox_adv.WriteWindow.{reserve, release}
use mox_adv.WriteWindow.Coordinator.{reserve_window}

abbrev digest : String → String
digest s = concat_text "digest " s

abbrev services : Services
services = record {
  control = record {
    approvals = [];
    executions = [];
    kill_switches = [];
    interrupts = record { signals = []; available = true };
  };
  gate = none;
  evidence = "digest old" ∷ [];
}

abbrev scope : TrustedScope
scope = record { organization = "o"; connection = "c"; account = "a"; campaign = "k"; writer = "w" }

-- A check that finds the target changed.
abbrev refuse : Step ℕ
refuse s = (raised (control (boundary_rejected "CURRENT_STATE_MISMATCH")), s)

abbrev accept : Step ℕ
accept s = (returned 8, s)

held_iff_authorized_example :
    (authorize_guarded digest written "key" 7 (some refuse) services).1.gate
    ≡ held_if
        (is_returned (authorize_guarded digest written "key" 7 (some refuse) services).0)
        "key"
        7
held_iff_authorized_example =
    held_iff_authorized digest written "key" 7 refuse services (λ s. refl) refl

-- The window is given back when the check raises.
given_back : (authorize_guarded digest written "key" 7 (some refuse) services).1.gate ≡ none
unfolding authorize_guarded pre_write reserve_and_check reserve_window reserve final release
given_back = refl

-- A second intent of one key is blocked.
blocked_again :
    (authorize_guarded digest written "old" 7 (some accept) services).0
    ≡ raised (audit_write_blocked "PRE_WRITE_AUDIT_ALREADY_EXISTS")
unfolding authorize_guarded pre_write
blocked_again = refl

authorize_application-IsClosed_example :
    IsClosed digest "key" scope
      (authorize_application digest written "key" scope (some accept) services).1
unfolding authorize_application require_dispatch_allowed any_kill_switch_active require_no_interrupt
    kill_switch_active_in_connection any_active kill_switch_scopes pre_write audit_and_close close
authorize_application-IsClosed_example =
    authorize_application-IsClosed digest written "key" scope (some accept) services refl
