-- ===== src/Control/Trace/Halting.antt =====
-- A kill switch stays engaged until it is released, and refuses every dispatch that it covers.
use mox_adv.Prelude.{
  ℕ, String, ◌≡◌, refl, ◌⊎◌, inl, inr, Bool, true, false, ◌&&◌, ◌||◌, List, [], ◌∷◌, arith, eq_iff,
  eq_refl, ap, Bool-cases, ◌==◌,
}
use mox_adv.Prelude.Json.{Json}
use mox_adv.Table.{any_row, update_rows}
use mox_adv.Interrupts.{is_one_of}
use mox_adv.Control.Approvals.{insert_approval, release_approval_reservation}
use mox_adv.Control.Dispatch.{authorize_dispatch, consume_reserved_approval, take_authority}
use mox_adv.Control.Dispatch.Effects.{authorize-effect, consume-effect}
use mox_adv.Control.Effects.{
  revoke-effect, mark-effect, finish-effect, reserve-effect, begin-effect, grant-effect,
  grant-unprepared,
}
use mox_adv.Control.KillSwitches.{
  is_switch, is_engaged, scopes_of, upsert_switch, engage_kill_switch, release_kill_switch,
}
use mox_adv.Control.Principal.{AuthenticatedPrincipal, Principal, who}
use mox_adv.Control.Reason.{ok, rejected, is_ok}
use mox_adv.Control.Rows.{PreparedChange, KillSwitch}
use mox_adv.Control.State.{DurableControlState}
use mox_adv.Control.Trace.{
  Op, grant, revoke, mark_used, give_back, reserve, begin, finish, engage, disengage, authorize,
  consume, send, sidecar, World, apply, step, run,
}

abbrev pub engaged_on : String → KillSwitch → Bool
engaged_on x row = row.active && row.scope == x

abbrev pub IsEngaged : String → DurableControlState → Type 0
IsEngaged x s = any_row (engaged_on x) s.kill_switches ≡ true

-- Whether a step may release the switch of a scope.
abbrev pub releases : String → Op → Bool
releases x (disengage scope reason principal now) = scope == x
releases x _ = false

abbrev pub releases_any : String → List Op → Bool
releases_any x [] = false
releases_any x (op ∷ ops) = releases x op || releases_any x ops

module _ (x reason principal : String) (now : ℕ) where
  update_engages :
      (scope : String) (rows : List KillSwitch)
      → any_row (is_switch scope) rows ≡ true
      → any_row (engaged_on scope) (
          update_rows
            (is_switch scope)
            (λ row. record row {
              active = true;
              reason = reason;
              principal = principal;
              updated_at = now;
            })
            rows)
        ≡ true
  update_engages scope [] h = cc
  update_engages scope (row ∷ rows) h = ground (arith, update_engages scope rows)

  update_keeps :
      (scope : String) (active : Bool) (rows : List KillSwitch)
      → (active ≡ true) ⊎ ((scope == x) ≡ false)
      → any_row (engaged_on x) rows ≡ true
      → any_row (engaged_on x) (
          update_rows
            (is_switch scope)
            (λ row. record row {
              active = active;
              reason = reason;
              principal = principal;
              updated_at = now;
            })
            rows)
        ≡ true
  update_keeps scope active [] ok_ h = cc
  update_keeps scope active (row ∷ rows) ok_ h = ground (
    arith,
    update_keeps scope active rows ok_,
    eq_iff row.scope scope,
    eq_iff row.scope x,
    eq_iff scope x,
  )

  upsert_keeps :
      (scope : String) (active : Bool) (rows : List KillSwitch)
      → (active ≡ true) ⊎ ((scope == x) ≡ false)
      → any_row (engaged_on x) rows ≡ true
      → any_row (engaged_on x) (upsert_switch scope active reason principal now rows) ≡ true
  unfolding upsert_switch
  upsert_keeps scope active rows ok_ h = ground (arith, update_keeps scope active rows ok_ h)

  upsert_engages :
      (rows : List KillSwitch)
      → any_row (engaged_on x) (upsert_switch x true reason principal now rows) ≡ true
  unfolding upsert_switch
  upsert_engages rows = ground (arith, update_engages x rows, eq_refl x)

-- A successful `engage_kill_switch` engages its scope.
pub engage-IsEngaged :
    (x reason : String) (principal : AuthenticatedPrincipal) (now : ℕ) (s : DurableControlState)
    → is_ok (engage_kill_switch x reason principal now s).0 ≡ true
    → IsEngaged x (engage_kill_switch x reason principal now s).1
unfolding engage_kill_switch
engage-IsEngaged x reason principal now s h =
    unfold engage_kill_switch in
    ground (arith, upsert_engages x reason principal.identity now s.kill_switches)

engage_keeps :
    (x scope reason : String) (principal : AuthenticatedPrincipal) (now : ℕ)
    (s : DurableControlState)
    → IsEngaged x s
    → IsEngaged x (engage_kill_switch scope reason principal now s).1
unfolding engage_kill_switch
engage_keeps x scope reason principal now s h =
    ground
      (arith, upsert_keeps x reason principal.identity now scope true s.kill_switches (inl refl) h)

disengage_keeps :
    (x scope reason : String) (principal : Principal) (now : ℕ) (s : DurableControlState)
    → (scope == x) ≡ false
    → IsEngaged x s
    → IsEngaged x (release_kill_switch scope reason principal now s).1
unfolding release_kill_switch
disengage_keeps x scope reason principal now s ne h = ground (
  arith,
  upsert_keeps x reason (who principal).identity now scope false s.kill_switches (inr ne) h,
)

-- A row of another scope list is no matter: one engaged row that the change falls under is enough.
engaged_covers :
    (x : String) (scopes : List String) (rows : List KillSwitch)
    → is_one_of x scopes ≡ true
    → any_row (engaged_on x) rows ≡ true
    → any_row (is_engaged scopes) rows ≡ true
engaged_covers x scopes [] c h = cc
engaged_covers x scopes (row ∷ rows) c h = elim (Bool-cases (engaged_on x row)) [
  | inl e ↦
      let same : row.scope ≡ x = ground (arith, eq_iff row.scope x) in
      ground (arith, ap (λ y. is_one_of y scopes) same)
  | inr e ↦ ground (arith, engaged_covers x scopes rows c)
]

module _ (canonical_hash : Json → String) (x : String) (s : DurableControlState)
    (on : IsEngaged x s) where
  apply-IsEngaged : (op : Op) → releases x op ≡ false → IsEngaged x (apply canonical_hash op s)
  unfolding apply release_approval_reservation
  apply-IsEngaged (grant (rejected r) id expires_at reason principal now) h =
      rw (grant-unprepared canonical_hash s id expires_at reason principal now r) on
  apply-IsEngaged (grant (ok prepared) id expires_at reason principal now) h =
      elim (grant-effect canonical_hash s id expires_at reason principal now prepared) [
        | inl e ↦ rw e on
        | inr e ↦ rw e.1 (unfold insert_approval in ground arith)
      ]
  apply-IsEngaged (revoke id principal now) h = ground (arith, revoke-effect s id principal now)
  apply-IsEngaged (mark_used id key now) h = ground (arith, mark-effect s id key now)
  apply-IsEngaged (give_back id key) h = on
  apply-IsEngaged (reserve prepared now) h =
      ground (arith, reserve-effect canonical_hash s prepared now)
  apply-IsEngaged (begin prepared id now) h =
      ground (arith, begin-effect canonical_hash s prepared id now)
  apply-IsEngaged (finish key status detail now) h =
      ground (arith, finish-effect s key status detail now)
  apply-IsEngaged (engage scope reason principal now) h =
      engage_keeps x scope reason principal now s on
  apply-IsEngaged (disengage scope reason principal now) h =
      disengage_keeps x scope reason principal now s h on
  apply-IsEngaged (authorize prepared id now) h =
      ground (arith, authorize-effect canonical_hash prepared id now s)
  apply-IsEngaged (consume prepared id now) h =
      ground (arith, consume-effect canonical_hash prepared id now s)
  apply-IsEngaged (send key) h = on
  apply-IsEngaged (sidecar readable) h = on

  -- What an engaged switch refuses: nothing is authorized and nothing is consumed.
  refuses :
      (prepared : PreparedChange) (id : String) (now : ℕ)
      → is_one_of x (scopes_of prepared.scope) ≡ true
      → (is_ok (consume_reserved_approval canonical_hash prepared id now s).0 ≡ false)
        × ((consume_reserved_approval canonical_hash prepared id now s).1 ≡ s)
        × ((authorize_dispatch canonical_hash prepared id now s).1 ≡ s)
  refuses prepared id now c =
      let active : any_row (is_engaged (scopes_of prepared.scope)) s.kill_switches ≡ true =
        engaged_covers x (scopes_of prepared.scope) s.kill_switches c on in
      let idle : is_ok (consume_reserved_approval canonical_hash prepared id now s).0 ≡ false =
        unfold consume_reserved_approval in ground arith in
      (
        idle,
        ground (arith, consume-effect canonical_hash prepared id now s),
        unfold authorize_dispatch take_authority in ground arith,
      )

module _ (canonical_hash : Json → String) where
  run-IsEngaged :
      (x : String) (ops : List Op) (w : World)
      → releases_any x ops ≡ false
      → IsEngaged x w.control
      → IsEngaged x (run canonical_hash ops w).control
  unfolding run
  run-IsEngaged x [] w h on = on
  run-IsEngaged x (send key ∷ ops) w h on =
      run-IsEngaged x ops (step canonical_hash (send key) w) h (ground arith)
  run-IsEngaged x (op ∷ ops) w h on =
      run-IsEngaged x ops (step canonical_hash op w) (ground arith)
        (apply-IsEngaged canonical_hash x w.control on op (ground arith))

  -- Once `engage_kill_switch` has succeeded for a scope that covers a change, and until a step
  -- releases that very scope, whatever else the callers do: the change is neither authorized nor
  -- consumed, and a caller that tries leaves the state as it was.
  pub halted :
      (x reason : String) (principal : AuthenticatedPrincipal) (at : ℕ) (s : DurableControlState)
      (w : World) (ops : List Op) (prepared : PreparedChange) (id : String) (now : ℕ)
      → is_ok (engage_kill_switch x reason principal at s).0 ≡ true
      → w.control ≡ (engage_kill_switch x reason principal at s).1
      → releases_any x ops ≡ false
      → is_one_of x (scopes_of prepared.scope) ≡ true
      → let t = (run canonical_hash ops w).control in
        (is_ok (consume_reserved_approval canonical_hash prepared id now t).0 ≡ false)
        × ((consume_reserved_approval canonical_hash prepared id now t).1 ≡ t)
        × ((authorize_dispatch canonical_hash prepared id now t).1 ≡ t)
  halted x reason principal at s w ops prepared id now good e kept covers =
      let start : IsEngaged x w.control = rw e (engage-IsEngaged x reason principal at s good) in
      refuses canonical_hash x (run canonical_hash ops w).control (run-IsEngaged x ops w kept start)
        prepared id now covers
