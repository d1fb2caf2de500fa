-- ===== src/Control/Trace/SendOnce.antt =====
-- A call of `send_once`, callbacks included, is a sequence of the steps of Control/Trace.antt.
use mox_adv.Prelude.{
  ℕ, ◌+◌, ◌≤◌, ◌<◌, String, ◌≡◌, refl, sym, ◌∙◌, true, some, List, [], ◌∷◌, ◌++◌, arith, eq_refl,
}
use mox_adv.Prelude.Json.{Json}
use mox_adv.Control.Approvals.{release_approval_reservation}
use mox_adv.Control.Dispatch.{
  SendOutcome, Authority, replayed, granted, authorize_dispatch, consume_reserved_approval,
  cross_boundary, abort_dispatch, conclude, dispatch, send_once,
}
use mox_adv.Control.Dispatch.Effects.{refuse_engaged-state, require_no_interrupt-state}
use mox_adv.Control.Executions.{finish_execution}
use mox_adv.Control.KillSwitches.{require_no_interrupt, refuse_engaged}
use mox_adv.Control.Reason.{ReasonCode, Result, ok, rejected, is_ok, reason_text}
use mox_adv.Control.Rows.{PreparedChange, ExecutionStatus, ExecutionRecord, blocked, execution_key}
use mox_adv.Control.State.{DurableControlState, Control, continue}
use mox_adv.Control.Safe.{spent}
use mox_adv.Control.Trace.Sends.{IsFresh, Accounted-once, fresh-Accounted, run-Accounted}
use mox_adv.Table.{count_rows}
use mox_adv.Control.Trace.{
  Op, give_back, finish, authorize, consume, send, World, occurrences, apply, step, run,
}
use mox_adv.Control.Trace.Interleaving.{
  run_control, during, control-run, run-append, sent-run, then_reject, send-called,
}

module _ (canonical_hash : Json → String) where
  module _ (prepared : PreparedChange) (id : String) (now : ℕ) where
    abbrev key : String
    key = execution_key canonical_hash prepared

    -- The steps of the second half of `send_once`, and what they leave permitted.
    record Crosses (w : World) (out : Result (Unit {0}) × DurableControlState) : Type 0 where
      ops : List Op
      state : (run canonical_hash ops w).control ≡ out.1
      permitted :
          is_ok out.0 ≡ true
          → (rest : List String) × ((run canonical_hash ops w).pending ≡ key ∷ rest)

    Crosses-nothing : (w : World) (reason : ReasonCode) → Crosses w (rejected reason, w.control)
    unfolding run
    Crosses-nothing w reason = record { ops = []; state = refl; permitted = λ h. cc }

    consume-Crosses :
        (w : World) (at : ℕ)
        → Crosses w (consume_reserved_approval canonical_hash prepared id at w.control)
    unfolding run step
    consume-Crosses w at = record {
      ops = consume prepared id at ∷ [];
      state = refl;
      permitted = λ h. (w.pending, rw h);
    }

    -- A check that writes nothing.
    checked :
        (w : World) (r : Result (Unit {0})) (t : DurableControlState) (n : Control (Unit {0}))
        → t ≡ w.control
        → Crosses w (n w.control)
        → Crosses w (continue r (λ _. n) t)
    checked w (ok _) t n e c = rw e c
    checked w (rejected reason) t n e c = rw e (Crosses-nothing w reason)

    called_back :
        (w : World) (ops : List Op) (r : Result ℕ) (n : ℕ → Control (Unit {0}))
        → ((at : ℕ) → Crosses (run canonical_hash ops w) (n at (run canonical_hash ops w).control))
        → Crosses w (continue r n (run_control canonical_hash ops w.control))
    called_back w ops (ok at) n c =
        let later : Crosses (run canonical_hash ops w) (n at (run canonical_hash ops w).control) =
          c at in
        record {
          ops = ops ++ later.ops;
          state =
              rw (run-append canonical_hash ops later.ops w)
                (later.state ∙ rw (control-run canonical_hash ops w));
          permitted =
              rw (run-append canonical_hash ops later.ops w, ← control-run canonical_hash ops w)
                later.permitted;
        }
    called_back w ops (rejected reason) n c = record {
      ops = ops;
      state = control-run canonical_hash ops w;
      permitted = λ h. cc;
    }

    module _ (ops₁ ops₂ : List Op) (r₁ r₂ : Result ℕ) where
      boundary-Crosses :
          (w : World)
          → Crosses w (
              cross_boundary canonical_hash prepared id now
                (during canonical_hash ops₁ r₁)
                (during canonical_hash ops₂ r₂)
                w.control)
      unfolding cross_boundary
      boundary-Crosses w =
          checked w (require_no_interrupt prepared.scope w.control).0
            (require_no_interrupt prepared.scope w.control).1 _
            (require_no_interrupt-state prepared.scope w.control)
            (checked w (refuse_engaged prepared.scope w.control).0
              (refuse_engaged prepared.scope w.control).1 _
              (refuse_engaged-state prepared.scope w.control)
              (called_back w ops₁ r₁ _ (λ d.
                called_back (run canonical_hash ops₁ w) ops₂ r₂ _
                  (λ i. consume-Crosses (run canonical_hash ops₂ (run canonical_hash ops₁ w)) i))))

    -- The steps of a whole call, with the call of `sender` among them if it is made.
    record Plays (w : World) (out : SendOutcome) : Type 0 where
      ops : List Op
      state : (run canonical_hash ops w).control ≡ out.state
      called :
          out.sent ≡ true
          → occurrences key w.sent + 1 ≤ occurrences key (run canonical_hash ops w).sent

    abort-state :
        (reason : ReasonCode) (s : DurableControlState)
        → (abort_dispatch canonical_hash prepared id now reason s).1
          ≡ run_control canonical_hash
              (give_back id key ∷ finish key blocked (some (reason_text reason)) now ∷ [])
              s
    unfolding abort_dispatch run_control apply
    abort-state reason s =
        let t : DurableControlState = (release_approval_reservation id key s).1 in
        let finished : Result ExecutionRecord × DurableControlState =
          finish_execution key blocked (some (reason_text reason)) now t in
        then_reject (ExecutionStatus × ExecutionRecord) reason finished.0 finished.1

    after_send :
        (ops : List Op) (rest : List String) (w : World)
        → (run canonical_hash ops w).pending ≡ key ∷ rest
        → run canonical_hash (ops ++ send key ∷ []) w ≡ record (run canonical_hash ops w) {
          pending = rest;
          sent = key ∷ (run canonical_hash ops w).sent;
        }
    after_send ops rest w e =
        run-append canonical_hash ops (send key ∷ []) w
        ∙ (unfold run in send-called canonical_hash key rest (run canonical_hash ops w) e)

    -- Steps after a first one that changes the state to `t`.
    concluded :
        (w : World) (row : ExecutionRecord) (out : Result (Unit {0}) × DurableControlState)
        → Crosses w out
        → Plays w (conclude canonical_hash prepared id now row out)
    unfolding conclude
    concluded w row (ok _, t) c =
        let (rest, e) = c.permitted refl in
        record {
          ops = c.ops ++ send key ∷ [];
          state = rw (after_send c.ops rest w e) c.state;
          called = λ h.
              rw (after_send c.ops rest w e)
                (ground (arith, eq_refl key, sent-run canonical_hash c.ops w key));
        }
    concluded w row (rejected reason, t) c = record {
      ops = c.ops ++ give_back id key ∷ finish key blocked (some (reason_text reason)) now ∷ [];
      state =
          rw
            (run-append canonical_hash c.ops
              (give_back id key ∷ finish key blocked (some (reason_text reason)) now ∷ []) w)
            (control-run canonical_hash
                (give_back id key ∷ finish key blocked (some (reason_text reason)) now ∷ [])
                (run canonical_hash c.ops w)
              ∙ rw c.state (sym (abort-state reason t)));
      called = λ h. cc;
    }

    module _ (ops₁ ops₂ : List Op) (r₁ r₂ : Result ℕ) where
      dispatched :
          (w : World) (out : Result Authority × DurableControlState)
          → w.control ≡ out.1
          → Plays w (
              dispatch canonical_hash prepared id now
                (during canonical_hash ops₁ r₁)
                (during canonical_hash ops₂ r₂)
                out)
      unfolding dispatch run
      dispatched w (rejected reason, t) h = record { ops = []; state = h; called = λ e. cc }
      dispatched w (ok (replayed status row), t) h = record {
        ops = [];
        state = h;
        called = λ e. cc;
      }
      dispatched w (ok (granted row), t) h =
          concluded w row
            (cross_boundary canonical_hash prepared id now (during canonical_hash ops₁ r₁)
              (during canonical_hash ops₂ r₂) t)
            (rw (← h) (boundary-Crosses ops₁ ops₂ r₁ r₂ w))

      send_once-Plays :
          (w : World)
          → Plays w (
              send_once canonical_hash prepared id now
                (during canonical_hash ops₁ r₁)
                (during canonical_hash ops₂ r₂)
                w.control)
      unfolding send_once run step
      send_once-Plays w =
          let first : World = step canonical_hash (authorize prepared id now) w in
          let p : Plays first _ =
            dispatched first (authorize_dispatch canonical_hash prepared id now w.control) refl in
          record { ops = authorize prepared id now ∷ p.ops; state = p.state; called = p.called }

module _ (canonical_hash : Json → String) where
  -- From a fresh database and after any steps of any callers, a `send_once` whose callbacks take
  -- time for any further steps of other callers: if it calls `sender`, then no call with this
  -- execution key was made before, and an approval is now consumed for the key.
  pub send_once_first :
      (before ops₁ ops₂ : List Op) (r₁ r₂ : Result ℕ) (w : World) (prepared : PreparedChange)
      (id : String) (now : ℕ)
      → IsFresh w
      → (send_once canonical_hash prepared id now
          (during canonical_hash ops₁ r₁)
          (during canonical_hash ops₂ r₂)
          (run canonical_hash before w).control).sent
        ≡ true
      → (occurrences (execution_key canonical_hash prepared) (run canonical_hash before w).sent ≡ 0)
        × (0
            < count_rows
                (spent (execution_key canonical_hash prepared))
                (send_once canonical_hash prepared id now
                  (during canonical_hash ops₁ r₁)
                  (during canonical_hash ops₂ r₂)
                  (run canonical_hash before w).control).state.approvals)
  send_once_first before ops₁ ops₂ r₁ r₂ w prepared id now fresh sent =
      let start : World = run canonical_hash before w in
      let key : String = execution_key canonical_hash prepared in
      let p = send_once-Plays canonical_hash prepared id now ops₁ ops₂ r₁ r₂ start in
      let acc =
        run-Accounted canonical_hash p.ops start
          (run-Accounted canonical_hash before w (fresh-Accounted w fresh)) in
      (
        omega (arith, p.called sent, Accounted-once _ acc key),
        rw (← p.state) (omega (arith, p.called sent, acc.covered key)),
      )
