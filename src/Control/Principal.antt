-- ===== src/Control/Principal.antt =====
-- Who may act: the principals of src/mox_adv/control_state.py.
use mox_adv.Prelude.{String, Bool, false, not, ◌&&◌, ◌||◌, ◌==◌, if◌then◌else◌}
use mox_adv.Prelude.Text.{is_blank, starts_with}
use mox_adv.Control.Reason.{Result, ok, rejected, invalid_input, unauthenticated_principal}

pub record AuthenticatedPrincipal : Type 0 where
  pub identity : String
  pub authentication : String

-- A principal as a caller hands it over: the plain class, or the elevated subclass with whether
-- its private seal is the one that `ElevatedAuthenticatedPrincipal.verified` sets.
pub data Principal : Type 0 where
  plain : AuthenticatedPrincipal → Principal
  elevated : AuthenticatedPrincipal → Bool → Principal

abbrev pub who : Principal → AuthenticatedPrincipal
who (plain p) = p
who (elevated p _) = p

abbrev pub is_verified : Principal → Bool
is_verified (plain _) = false
is_verified (elevated _ seal) = seal

unfoldable pub is_gate0_principal : AuthenticatedPrincipal → Bool
is_gate0_principal p = p.identity == "sviridov" && p.authentication == "authenticated_macos_user"

unfoldable pub is_valid_scope : String → Bool
unfolding starts_with
is_valid_scope scope =
    scope == "global"
    || (starts_with scope "organization:"
        || (starts_with scope "connection:" || starts_with scope "campaign:"))

unfoldable pub validate_incident_control :
    String → String → AuthenticatedPrincipal → Result (Unit {0})
unfolding is_valid_scope is_blank is_gate0_principal
validate_incident_control scope reason principal =
    if is_valid_scope scope && not (is_blank reason)
    then (if is_gate0_principal principal then ok tt else rejected unauthenticated_principal)
    else rejected invalid_input
