-- ===== src/Control/Trace.antt =====
-- Any number of callers on one state: the operations of control_state.py as steps, in any order.
-- The transactions of `send_once` are steps of their own, so that other callers come between them.
pub mod Ledger
pub mod Spending
pub mod Sends
pub mod Halting
pub mod Finality
pub mod Provenance
pub mod Interleaving
pub mod SendOnce
use mox_adv.Prelude.{
  ℕ, suc, String, Bool, true, false, Option, none, some, List, [], ◌∷◌, ◌==◌, if◌then◌else◌,
}
use mox_adv.Prelude.Json.{Json}
use mox_adv.Control.Approvals.{
  grant_approval, revoke_approval, mark_approval_used, release_approval_reservation,
}
use mox_adv.Control.Dispatch.{authorize_dispatch, consume_reserved_approval}
use mox_adv.Control.Executions.{reserve_execution, begin_execution, finish_execution}
use mox_adv.Control.KillSwitches.{engage_kill_switch, release_kill_switch}
use mox_adv.Control.Principal.{AuthenticatedPrincipal, Principal}
use mox_adv.Control.Reason.{Result, is_ok}
use mox_adv.Control.Rows.{PreparedChange, ExecutionStatus, execution_key}
use mox_adv.Control.State.{DurableControlState, Control}

pub data Op : Type 0 where
  grant : Result PreparedChange → String → ℕ → String → AuthenticatedPrincipal → ℕ → Op
  revoke : String → AuthenticatedPrincipal → ℕ → Op
  mark_used : String → String → ℕ → Op
  give_back : String → String → Op
  reserve : PreparedChange → ℕ → Op
  begin : PreparedChange → String → ℕ → Op
  finish : String → ExecutionStatus → Option String → ℕ → Op
  engage : String → String → AuthenticatedPrincipal → ℕ → Op
  disengage : String → String → Principal → ℕ → Op
  authorize : PreparedChange → String → ℕ → Op
  consume : PreparedChange → String → ℕ → Op
  send : String → Op
  -- the sidecar file becomes readable or unreadable
  sidecar : Bool → Op

-- `pending` holds the keys whose approval is consumed and whose `sender` is not yet called, `sent`
-- those of the calls made.
pub record World : Type 0 where
  pub control : DurableControlState
  pub pending : List String
  pub sent : List String

abbrev pub occurrences : String → List String → ℕ
occurrences k [] = 0
occurrences k (j ∷ js) = let rest = occurrences k js in if j == k then suc rest else rest

abbrev pub length {ℓ} : {A : Type ℓ} → List A → ℕ
length [] = 0
length (x ∷ xs) = suc (length xs)

-- The list without its first `k`, if it has one.
unfoldable pub remove_one : String → List String → Option (List String)
remove_one k [] = none
remove_one k (j ∷ js) =
    if j == k then some js else elim (remove_one k js) [ none ↦ none | some rest ↦ some (j ∷ rest) ]

module _ (canonical_hash : Json → String) where
  -- What a step does to the durable state.
  unfoldable pub apply : Op → DurableControlState → DurableControlState
  apply (grant loaded id expires_at reason principal now) s =
      (grant_approval canonical_hash loaded id expires_at reason principal now s).1
  apply (revoke id principal now) s = (revoke_approval id principal now s).1
  apply (mark_used id key now) s = (mark_approval_used id key now s).1
  apply (give_back id key) s = (release_approval_reservation id key s).1
  apply (reserve prepared now) s = (reserve_execution canonical_hash prepared now s).1
  apply (begin prepared id now) s = (begin_execution canonical_hash prepared id now s).1
  apply (finish key status detail now) s = (finish_execution key status detail now s).1
  apply (engage scope reason principal now) s = (engage_kill_switch scope reason principal now s).1
  apply (disengage scope reason principal now) s =
      (release_kill_switch scope reason principal now s).1
  apply (authorize prepared id now) s = (authorize_dispatch canonical_hash prepared id now s).1
  apply (consume prepared id now) s = (consume_reserved_approval canonical_hash prepared id now s).1
  apply (send key) s = s
  apply (sidecar readable) s = record s {
    interrupts = record s.interrupts { available = readable };
  }

  -- The calls of `sender` that a step makes possible or makes.
  unfoldable pub permits : Op → World → List String
  unfolding execution_key
  permits (consume prepared id now) w =
      if is_ok (consume_reserved_approval canonical_hash prepared id now w.control).0
      then execution_key canonical_hash prepared ∷ w.pending
      else w.pending
  permits _ w = w.pending

  unfoldable pub step : Op → World → World
  unfolding apply permits remove_one
  step (send key) w = elim (remove_one key w.pending) [
    | none ↦ w
    | some rest ↦ record w { pending = rest; sent = key ∷ w.sent }
  ]
  step op w = record w { control = apply op w.control; pending = permits op w }

  unfoldable pub run : List Op → World → World
  unfolding step
  run [] w = w
  run (op ∷ ops) w = run ops (step op w)
