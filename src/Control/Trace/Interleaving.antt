-- ===== src/Control/Trace/Interleaving.antt =====
-- What callbacks of src/mox_adv/control_state.py do while a call waits for them: steps of other callers.
use mox_adv.Prelude.{ℕ, ◌≤◌, String, ◌≡◌, refl, ◌∙◌, ap, some, List, [], ◌∷◌, ◌++◌, arith, eq_refl}
use mox_adv.Prelude.Json.{Json}
use mox_adv.Control.Dispatch.{Callback}
use mox_adv.Control.Reason.{ReasonCode, Result, ok, rejected}
use mox_adv.Control.State.{DurableControlState, continue, reject}
use mox_adv.Control.Trace.{Op, send, World, occurrences, apply, step, run}

pub then_reject :
    {A : Type 0} (B : Type 0) (reason : ReasonCode) (r : Result A) (t : DurableControlState)
    → (continue r (λ _. reject {A = B} reason) t).1 ≡ t
then_reject B reason (ok a) t = refl
then_reject B reason (rejected other) t = refl

module _ (canonical_hash : Json → String) where
  unfoldable pub run_control : List Op → DurableControlState → DurableControlState
  run_control [] s = s
  run_control (op ∷ ops) s = run_control ops (apply canonical_hash op s)

  -- A callback during which other callers take steps, and which then returns or raises.
  abbrev pub during : List Op → Result ℕ → Callback
  during ops r = some (λ s. (r, run_control ops s))

  pub control-step :
      (op : Op) (w : World) → (step canonical_hash op w).control ≡ apply canonical_hash op w.control
  unfolding step apply
  control-step (send key) w = ground arith
  control-step _ w = refl

  pub control-run :
      (ops : List Op) (w : World) → (run canonical_hash ops w).control ≡ run_control ops w.control
  unfolding run run_control
  control-run [] w = refl
  control-run (op ∷ ops) w =
      control-run ops (step canonical_hash op w) ∙ ap (run_control ops) (control-step op w)

  pub run-append :
      (ops more : List Op) (w : World)
      → run canonical_hash (ops ++ more) w ≡ run canonical_hash more (run canonical_hash ops w)
  unfolding run
  run-append [] more w = refl
  run-append (op ∷ ops) more w = run-append ops more (step canonical_hash op w)

  pub sent-step :
      (op : Op) (w : World) (k : String)
      → occurrences k w.sent ≤ occurrences k (step canonical_hash op w).sent
  unfolding step
  sent-step (send key) w k = ground arith
  sent-step _ w k = omega arith

  pub sent-run :
      (ops : List Op) (w : World) (k : String)
      → occurrences k w.sent ≤ occurrences k (run canonical_hash ops w).sent
  unfolding run
  sent-run [] w k = omega arith
  sent-run (op ∷ ops) w k =
      omega (arith, sent-step op w k, sent-run ops (step canonical_hash op w) k)

  -- The call of `sender` once it is permitted.
  pub send-called :
      (k : String) (rest : List String) (w : World)
      → w.pending ≡ k ∷ rest
      → step canonical_hash (send k) w ≡ record w { pending = rest; sent = k ∷ w.sent }
  unfolding step
  send-called k rest w h = ground (arith, eq_refl k)
