-- ===== src/Lib.antt =====
-- MOX-ADV, an operator of advertising campaigns under human control: its durable stores, and what
-- they promise over any interleaving of the processes that share them.
--
-- The program keeps its authority in small SQLite databases that several processes write. Each
-- public method is a short transaction, or a few of them with code of other callers in between. Here
-- a database is a record of tables, a table the list of its rows, a statement a function on that list
-- (Table), a transaction a function from the state to a result and the state, and an interleaving a
-- list of such steps that is chosen freely.
--
-- The parts:
--   * Control — src/mox_adv/control_state.py, `DurableControlState`. Rows has the rows and the prepared
--     change with its execution key, State the tables and the monad of a transaction (a rejection
--     rolls back), Principal who may do what, Approvals, Executions and KillSwitches the methods named
--     so, Dispatch `send_once` with its two transactions and its callbacks. Effects, Safe and Trace
--     hold the invariants and the runs: an `Op` is one transaction of one caller, `send` the call of
--     `sender`, which follows a consumed approval.
--   * Interrupts — src/mox_adv/interrupt_state.py, the sidecar database that a kill switch writes too.
--     That its file cannot be read is a flag of the state.
--   * WriteWindow — `DurableWriteWindowGate` of src/mox_adv/monitoring.py, and
--     src/mox_adv/write_window.py (WriteWindow/Coordinator), which the services call around `send_once`.
--   * ModelCost — src/mox_adv/model_cost.py, `DurableModelCostLedger`: its configuration and totals, and
--     the reservations of the cost of a model call, which are settled or failed (ModelCost/Calls).
--   * Polling — `MonitoringStore` of src/mox_adv/monitoring.py: the lease of a poll with its
--     generation, the versions of snapshots, the proposals of a poll.
--   * Commands — src/mox_adv/commands.py: the table of actions, the relative target with its rounding,
--     and `build_high_level_command` (Commands/Build), which a prepared change has to match exactly.
--   * Policy — `ApprovalRequiredPolicy` of src/mox_adv/approval_execution.py (Policy/Approval, and
--     Policy/Safety for `_action_is_safe`) and `BoundedAutonomyPolicy` of
--     src/mox_adv/autonomy_policy.py (Policy/Autonomy), which judge a prepared change by its facts
--     before any of it reaches the control state. A `Decimal` of a text is kept by what its
--     comparisons give, its exceptions included (Policy/Decimals).
--   * Boundary — `DurablePreWriteAudit` and `GuardedDispatchBoundary` of src/mox_adv/trust_boundary.py and
--     `ApplicationWriteBoundary` of src/mox_adv/application_control.py, which the services run
--     right before a transport: the audit, the write window, the kill switch and the final check in
--     their order.
--   * Mandate — `DurableMandateAuthority` of src/mox_adv/mandate_store.py, which shares the database of the
--     control state: the tables (Mandate), the terms that its methods read of a canonical object and the
--     figures of src/mox_adv/autonomy_contracts.py (Mandate/Terms), `_validate_payload`
--     (Mandate/Validate), rows and their integrity (Mandate/Records), `issue`, `activate` and `revoke`
--     (Mandate/Lifecycle), the quotas (Mandate/Quota), reserving and sending (Mandate/Execute), and the
--     rechecks (Mandate/Recheck). In a run (Mandate/Trace) each method is a step, and between two of them
--     the tables of the control state and the interrupts may become anything.
--   * Goals — `GoalLifecycleStore` of src/mox_adv/goal_store.py with the values of
--     src/mox_adv/goal_contracts.py: reservations and authorities (Goals/Authorities), the executions that
--     create a goal or publish its event (Goals/Creation), the decisions on a candidate and its cleanup
--     (Goals/Candidates). A method gives a value and the state it commits, or an exception and no state. What
--     src/mox_adv/lifecycle_authority.py verifies of a row is a function that the methods take, and
--     `register_authority` starts from the authority and the proof that it returned.
--   * Prelude, Table — names, lists, texts, JSON values, and rows of a table.
--
-- Parameters: the hash of a canonical JSON document, SHA-256, `int` of a text, the signature of a text, and the
-- texts of JSON documents (`json.dumps`, `json.loads`) are functions that the definitions take. A hash with
-- collisions is covered. Of the JSON texts of mandates, the theorems that say so suppose that a parsed document is
-- read back from its text as it was (ReadsBack of Mandate/Trace). A text has no lone surrogates.
-- Times are instants, whole microseconds since a fixed one; the ISO texts of UTC times that the
-- databases hold order in the same way. Money is a whole number of one small unit, with
-- no more digits than the 28 in which Python's decimals are exact. Ids that `uuid4`
-- makes are arguments. Nothing needs fuel: every loop of the modelled code runs over a list.
--
-- Not modelled: a sqlite3 that fails (but for the sidecar), times without a zone, the reading of
-- decimals from text, and the parts of the program that only present, fetch or report, the
-- campaign saga, the proposal store and the execution services.
pub mod Prelude
pub mod Table
pub mod Interrupts
pub mod Control
pub mod WriteWindow
pub mod ModelCost
pub mod Polling
pub mod Commands
pub mod Policy
pub mod Boundary
pub mod Mandate
pub mod Goals
