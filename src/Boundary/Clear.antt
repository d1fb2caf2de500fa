-- ===== src/Boundary/Clear.antt =====
-- What `require_dispatch_allowed` of src/mox_adv/control_state.py says of the tables, once it returned.
use mox_adv.Prelude.{
  ◌≡◌, refl, sym, subst, String, Bool, true, false, List, [], ◌∷◌, ◌==◌, eq_refl, concat_text,
  Bool-cases, inl, inr, arith, eq_iff,
}
use mox_adv.Prelude.Lists.{All, All-map}
use mox_adv.Table.{any_row}
use mox_adv.Control.KillSwitches.{
  scopes_of, is_engaged, require_dispatch_allowed, any_kill_switch_active, require_no_interrupt,
  kill_switch_active_in_connection,
}
use mox_adv.Control.Reason.{ok}
use mox_adv.Control.Rows.{TrustedScope, KillSwitch}
use mox_adv.Control.State.{DurableControlState}
use mox_adv.Interrupts.{Signal, any_active, is_one_of, is_active_signal, kill_switch_scopes}

-- No row and no signal of a kill switch of this name is active.
abbrev pub IsQuiet : String → DurableControlState → Type 0
IsQuiet name c =
    All (λ row. row.scope ≡ name → row.active ≡ false) c.kill_switches
    × All (λ row. row.kind ≡ "kill_switch" → row.scope ≡ name → row.active ≡ false)
        c.interrupts.signals

-- The sidecar can be read, and the four kill switches over the scope are all off, in both places.
abbrev pub IsClear : TrustedScope → DurableControlState → Type 0
IsClear scope c =
    (c.interrupts.available ≡ true)
    × IsQuiet "global" c
    × IsQuiet (concat_text "organization:" scope.organization) c
    × IsQuiet (concat_text "connection:" scope.connection) c
    × IsQuiet (concat_text "campaign:" scope.campaign) c

module _ {A : Type 0} where
  any_row-All :
      (p : A → Bool) (rows : List A) → any_row p rows ≡ false → All (λ row. p row ≡ false) rows
  any_row-All p [] h = tt
  any_row-All p (row ∷ rows) h = elim (Bool-cases (p row)) [
    | inl e ↦ ground arith
    | inr e ↦ (e, any_row-All p rows (rw e at h))
  ]

row-off :
    (name : String) (scopes : List String) (row : KillSwitch)
    → is_one_of name scopes ≡ true
    → is_engaged scopes row ≡ false
    → row.scope ≡ name
    → row.active ≡ false
row-off name scopes row listed h same =
    let covered : is_one_of row.scope scopes ≡ true =
      subst (λ n. is_one_of n scopes ≡ true) (sym same) listed in
    ground (arith, covered)

signal-off :
    (name : String) (scopes : List String) (row : Signal)
    → is_one_of name scopes ≡ true
    → is_active_signal "kill_switch" scopes row ≡ false
    → row.kind ≡ "kill_switch"
    → row.scope ≡ name
    → row.active ≡ false
signal-off name scopes row listed h kind same =
    let covered : is_one_of row.scope scopes ≡ true =
      subst (λ n. is_one_of n scopes ≡ true) (sym same) listed in
    let named : (row.kind == "kill_switch") ≡ true = (eq_iff row.kind "kill_switch").1 kind in
    ground (arith, covered, named)

allowed-tables :
    (scope : TrustedScope) (c : DurableControlState)
    → (require_dispatch_allowed scope c).0 ≡ ok tt
    → (c.interrupts.available ≡ true)
      × (any_row (is_active_signal "kill_switch" (scopes_of scope)) c.interrupts.signals ≡ false)
      × (any_row (is_engaged (scopes_of scope)) c.kill_switches ≡ false)
unfolding require_dispatch_allowed any_kill_switch_active require_no_interrupt
    kill_switch_active_in_connection any_active kill_switch_scopes
allowed-tables scope c h = ground arith

listed_first : (name : String) (rest : List String) → is_one_of name (name ∷ rest) ≡ true
listed_first name rest = rw eq_refl refl

listed_later :
    (name other : String) (rest : List String)
    → is_one_of name rest ≡ true
    → is_one_of name (other ∷ rest) ≡ true
listed_later name other rest h = ground (arith, h)

-- A return of `require_dispatch_allowed` says what the tables hold.
pub allowed-IsClear :
    (scope : TrustedScope) (c : DurableControlState)
    → (require_dispatch_allowed scope c).0 ≡ ok tt
    → IsClear scope c
unfolding kill_switch_scopes
allowed-IsClear scope c h =
    let (open_, signals, rows) = allowed-tables scope c h in
    let quiet : (name : String) → is_one_of name (scopes_of scope) ≡ true → IsQuiet name c =
      λ name listed. (
        All-map _ _ c.kill_switches (λ row off. row-off name (scopes_of scope) row listed off)
            (any_row-All _ c.kill_switches rows),
        All-map _ _ c.interrupts.signals
            (λ row off. signal-off name (scopes_of scope) row listed off)
            (any_row-All _ c.interrupts.signals signals),
      ) in
    let organization = concat_text "organization:" scope.organization in
    let connection = concat_text "connection:" scope.connection in
    let campaign = concat_text "campaign:" scope.campaign in
    let last = campaign ∷ [] in
    let two = connection ∷ last in
    let three = organization ∷ two in
    let third = listed_later connection organization two (listed_first connection last) in
    let fourth =
      listed_later campaign organization two
        (listed_later campaign connection last (listed_first campaign [])) in
    (
      open_,
      quiet "global" (listed_first "global" three),
      quiet organization (listed_later organization "global" three (listed_first organization two)),
      quiet connection (listed_later connection "global" three third),
      quiet campaign (listed_later campaign "global" three fourth),
    )
