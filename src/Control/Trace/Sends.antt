-- ===== src/Control/Trace/Sends.antt =====
-- How often `sender` is called, over every order of steps of control_state.py.
use mox_adv.Prelude.{
  ℕ, suc, ◌+◌, ◌≤◌, String, ◌≡◌, inl, inr, some, List, [], ◌∷◌, arith, eq_iff, Bool-cases,
  Option-cases, ◌==◌, if◌then◌else◌,
}
use mox_adv.Prelude.Json.{Json}
use mox_adv.Table.{count_rows}
use mox_adv.Table.Counts.{count_mono}
use mox_adv.Control.Dispatch.{consume_reserved_approval}
use mox_adv.Control.Executions.{is_active_row}
use mox_adv.Control.Reason.{is_ok}
use mox_adv.Control.Rows.{PreparedChange, used}
use mox_adv.Control.Safe.{Safe, spent, holds}
use mox_adv.Control.Trace.{
  Op, consume, send, World, occurrences, length, remove_one, apply, step, run,
}
use mox_adv.Control.Trace.Ledger.{apply-Safe}
use mox_adv.Control.Trace.Spending.{apply-Grows, consume-spends}

remove_one-occurrences :
    (k j : String) (js rest : List String)
    → remove_one k js ≡ some rest
    → (occurrences j js ≡ occurrences j rest + (if k == j then 1 else 0))
      × (length js ≡ suc (length rest))
unfolding remove_one
remove_one-occurrences k j [] rest h = ground arith
remove_one-occurrences k j (i ∷ is) rest h = elim (Option-cases (remove_one k is)) [
  | inl e ↦ ground (arith, eq_iff i k, eq_iff i j, eq_iff k j)
  | inr (tail, e) ↦
      ground (arith, eq_iff i k, eq_iff i j, eq_iff k j, remove_one-occurrences k j is tail e)
]

-- The ledger invariant, with every call made or permitted covered by a consumed approval.
pub record Accounted (w : World) : Type 0 where
  pub ledger : Safe w.control
  pub covered :
      (k : String)
      → occurrences k w.pending + occurrences k w.sent ≤ count_rows (spent k) w.control.approvals
  pub budget : length w.pending + length w.sent ≤ count_rows used w.control.approvals

-- A fresh database; the kill switches and the sidecar may be in any state.
pub record IsFresh (w : World) : Type 0 where
  pub no_approvals : w.control.approvals ≡ []
  pub no_executions : w.control.executions ≡ []
  pub nothing_pending : w.pending ≡ []
  pub nothing_sent : w.sent ≡ []

pub fresh-Accounted : (w : World) → IsFresh w → Accounted w
fresh-Accounted w f = record {
  ledger = record {
    ids = λ id. rw f.no_approvals (omega arith);
    keys = λ k. rw f.no_executions (omega arith);
    held = λ k. rw (f.no_approvals, f.no_executions) (omega arith);
    single = rw f.no_executions (omega arith);
  };
  covered = λ k. rw (f.nothing_pending, f.nothing_sent) (omega arith);
  budget = rw (f.nothing_pending, f.nothing_sent) (omega arith);
}

module _ (canonical_hash : Json → String) (w : World) (acc : Accounted w) where
  -- A step that permits and makes no call.
  quiet-Accounted :
      (op : Op)
      → Accounted (record w { control = apply canonical_hash op w.control; pending = w.pending })
  quiet-Accounted op =
      let g = apply-Grows canonical_hash w.control op in
      record {
        ledger = apply-Safe canonical_hash w.control acc.ledger op;
        covered = λ k. omega (arith, acc.covered k, g.spent_grows k);
        budget = omega (arith, acc.budget, g.used_grows);
      }

  consume-Accounted :
      (prepared : PreparedChange) (id : String) (now : ℕ)
      → Accounted (step canonical_hash (consume prepared id now) w)
  unfolding step
  consume-Accounted prepared id now =
      elim (Bool-cases
        (is_ok (consume_reserved_approval canonical_hash prepared id now w.control).0)) [
          | inl good ↦ rw good (record {
            ledger = apply-Safe canonical_hash w.control acc.ledger (consume prepared id now);
            covered = λ k. ground (
              arith,
              acc.covered k,
              consume-spends canonical_hash w.control prepared id now k good,
            );
            budget = omega (
              arith,
              acc.budget,
              consume-spends canonical_hash w.control prepared id now "" good,
            );
          })
          | inr bad ↦ rw bad (quiet-Accounted (consume prepared id now))
        ]

  send-Accounted : (key : String) → Accounted (step canonical_hash (send key) w)
  unfolding step
  send-Accounted key = elim (Option-cases (remove_one key w.pending)) [
    | inl e ↦ rw (e, step) acc
    | inr (rest, e) ↦
        rw (e, step)
          (record {
            ledger = acc.ledger;
            covered =
                λ k. ground (arith, acc.covered k, remove_one-occurrences key k w.pending rest e);
            budget = omega (arith, acc.budget, remove_one-occurrences key key w.pending rest e);
          })
  ]

  step-Accounted : (op : Op) → Accounted (step canonical_hash op w)
  unfolding step
  step-Accounted (send key) = send-Accounted key
  step-Accounted (consume prepared id now) = consume-Accounted prepared id now
  step-Accounted op = quiet-Accounted op

pub Accounted-once : (w : World) → Accounted w → (k : String) → occurrences k w.sent ≤ 1
Accounted-once w acc k = omega (
  arith,
  acc.covered k,
  count_mono (spent k) (holds k) w.control.approvals (λ x h. ground arith),
  acc.ledger.held k,
  acc.ledger.keys k,
)

module _ (canonical_hash : Json → String) where
  pub run-Accounted :
      (ops : List Op) (w : World) → Accounted w → Accounted (run canonical_hash ops w)
  unfolding run
  run-Accounted [] w acc = acc
  run-Accounted (op ∷ ops) w acc =
      run-Accounted ops (step canonical_hash op w) (step-Accounted canonical_hash w acc op)

  -- From a fresh database, whatever the callers do and in whatever order, `sender` is called at
  -- most once for an execution key.
  pub sent_once :
      (ops : List Op) (w : World) (k : String)
      → IsFresh w
      → occurrences k (run canonical_hash ops w).sent ≤ 1
  sent_once ops w k fresh = Accounted-once _ (run-Accounted ops w (fresh-Accounted w fresh)) k

  -- From a fresh database, `sender` is never called more often than approvals are consumed.
  pub sent-le-used :
      (ops : List Op) (w : World)
      → IsFresh w
      → length (run canonical_hash ops w).sent
        ≤ count_rows used (run canonical_hash ops w).control.approvals
  sent-le-used ops w fresh = omega (arith, (run-Accounted ops w (fresh-Accounted w fresh)).budget)

  -- From a fresh database, at most one execution is RESERVED or IN_FLIGHT at any time, and no two
  -- approvals are reserved for one execution.
  pub single_flight :
      (ops : List Op) (w : World)
      → IsFresh w
      → let s = (run canonical_hash ops w).control in
        (count_rows is_active_row s.executions ≤ 1)
        × ((k : String) → count_rows (holds k) s.approvals ≤ 1)
  single_flight ops w fresh =
      let acc = run-Accounted ops w (fresh-Accounted w fresh) in
      (acc.ledger.single, λ k. omega (arith, acc.ledger.held k, acc.ledger.keys k))
