-- ===== src/Control/KillSwitches.antt =====
-- The kill switches of src/mox_adv/control_state.py.
use mox_adv.Prelude.{ℕ, String, Bool, true, false, ◌&&◌, none, some, List, ◌∷◌, ◌==◌, if◌then◌else◌}
use mox_adv.Table.{any_row, update_rows}
use mox_adv.Interrupts.{engage, release, any_active, is_one_of, kill_switch_scopes}
use mox_adv.Control.Principal.{
  AuthenticatedPrincipal, Principal, who, is_verified, validate_incident_control,
}
use mox_adv.Control.Reason.{
  ok, rejected, kill_switch_active, kill_switch_unavailable, elevated_reauthentication_required,
}
use mox_adv.Control.Rows.{TrustedScope, KillSwitch}
use mox_adv.Control.State.{DurableControlState, Control, continue}

abbrev pub scopes_of : TrustedScope → List String
scopes_of scope = kill_switch_scopes scope.organization scope.connection scope.campaign

abbrev pub is_switch : String → KillSwitch → Bool
is_switch scope row = row.scope == scope

abbrev pub is_engaged : List String → KillSwitch → Bool
is_engaged scopes row = row.active && is_one_of row.scope scopes

-- INSERT … ON CONFLICT(scope) DO UPDATE
unfoldable pub upsert_switch :
    String → Bool → String → String → ℕ → List KillSwitch → List KillSwitch
upsert_switch scope active reason principal now rows =
    if any_row (is_switch scope) rows
    then update_rows (is_switch scope)
        (λ row. record row {
          active = active;
          reason = reason;
          principal = principal;
          updated_at = now;
        })
        rows
    else record {
      scope = scope;
      active = active;
      reason = reason;
      principal = principal;
      updated_at = now;
    }
      ∷ rows

-- The sidecar is engaged first, the main table second.
unfoldable pub engage_kill_switch :
    String → String → AuthenticatedPrincipal → ℕ → Control (Unit {0})
unfolding validate_incident_control engage upsert_switch
engage_kill_switch scope reason principal now s =
    continue (validate_incident_control scope reason principal)
      (λ _ t. elim (engage "kill_switch" scope reason now t.interrupts) [
        | none ↦ (rejected kill_switch_unavailable, t)
        | some interrupts ↦ (
          ok tt,
          record t {
            kill_switches = upsert_switch scope true reason principal.identity now t.kill_switches;
            interrupts = interrupts;
          },
        )
      ])
      s

-- The main table is released first; where the sidecar fails, it stays engaged.
unfoldable pub release_kill_switch : String → String → Principal → ℕ → Control (Unit {0})
unfolding validate_incident_control release upsert_switch
release_kill_switch scope reason principal now s =
    if is_verified principal
    then continue (validate_incident_control scope reason (who principal))
        (λ _ t.
          let u = record t {
            kill_switches =
                upsert_switch scope false reason (who principal).identity now t.kill_switches;
          } in
          elim (release "kill_switch" scope reason now u.interrupts) [
            | none ↦ (rejected kill_switch_unavailable, u)
            | some interrupts ↦ (ok tt, record u { interrupts = interrupts })
          ])
        s
    else (rejected elevated_reauthentication_required, s)

unfoldable pub kill_switch_active_in_connection : DurableControlState → TrustedScope → Bool
kill_switch_active_in_connection s scope = any_row (is_engaged (scopes_of scope)) s.kill_switches

unfoldable pub require_no_interrupt : TrustedScope → Control (Unit {0})
unfolding any_active kill_switch_scopes
require_no_interrupt scope s = elim (any_active "kill_switch" (scopes_of scope) s.interrupts) [
  | none ↦ (rejected kill_switch_unavailable, s)
  | some active ↦ if active then (rejected kill_switch_active, s) else (ok tt, s)
]

-- `raise ControlRejected("KILL_SWITCH_ACTIVE", …)` where a row of the main table is engaged.
unfoldable pub refuse_engaged : TrustedScope → Control (Unit {0})
unfolding kill_switch_active_in_connection
refuse_engaged scope s =
    if kill_switch_active_in_connection s scope
    then (rejected kill_switch_active, s)
    else (ok tt, s)

unfoldable pub any_kill_switch_active : TrustedScope → Control Bool
unfolding require_no_interrupt kill_switch_active_in_connection
any_kill_switch_active scope s =
    let (clear, t) = require_no_interrupt scope s in
    continue clear (λ _ u. (ok (kill_switch_active_in_connection u scope), u)) t

unfoldable pub require_dispatch_allowed : TrustedScope → Control (Unit {0})
unfolding any_kill_switch_active
require_dispatch_allowed scope s =
    let (active, t) = any_kill_switch_active scope s in
    continue active (λ a u. if a then (rejected kill_switch_active, u) else (ok tt, u)) t
