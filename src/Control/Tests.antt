-- ===== src/Control/Tests.antt =====
-- A day in the life of src/mox_adv/control_state.py: runs, and the theorems at them.
use mox_adv.Prelude.{
  ◌≤◌, ◌<◌, String, ◌≡◌, refl, true, false, none, some, List, [], ◌∷◌, concat_text,
}
use mox_adv.Prelude.Json.{Json, int, object, field, end}
use mox_adv.Interrupts.{is_one_of, kill_switch_scopes}
use mox_adv.Table.{count_rows, first_row}
use mox_adv.Control.Approvals.{grant_approval, store_approval, new_approval}
use mox_adv.Control.Dispatch.{
  authorize_dispatch, take_authority, consume_reserved_approval, send_once,
}
use mox_adv.Control.Executions.{finish_execution, is_active_row}
use mox_adv.Control.KillSwitches.{scopes_of, engage_kill_switch}
use mox_adv.Control.Principal.{AuthenticatedPrincipal}
use mox_adv.Control.Reason.{ok, is_ok}
use mox_adv.Control.Rows.{
  TrustedScope, PreparedChange, increase_weekly_budget, ExecutionRecord, applied, used, as_dict,
  execution_identity, execution_key, has_key,
}
use mox_adv.Control.Safe.{spent, holds}
use mox_adv.Control.State.{DurableControlState}
use mox_adv.Control.Trace.{
  Op, grant, finish, authorize, consume, send, World, occurrences, length, run,
}
use mox_adv.Control.Trace.Finality.{finished_is_final}
use mox_adv.Control.Trace.Halting.{halted}
use mox_adv.Control.Trace.Provenance.{backs, sent_backed}
use mox_adv.Control.Trace.Interleaving.{during, run_control}
use mox_adv.Control.Trace.SendOnce.{send_once_first}
use mox_adv.Control.Trace.Sends.{IsFresh, sent_once, sent-le-used, single_flight}

abbrev first_name : Json → String
first_name (object (field name _ _)) = name
first_name _ = ""

-- A hash that tells the three kinds of document apart.
abbrev test_hash : Json → String
test_hash j = concat_text "sha256:" (first_name j)

abbrev scope : TrustedScope
scope = record {
  organization = "mox";
  connection = "direct";
  account = "main";
  campaign = "42";
  writer = "mox-adv";
}

abbrev change : PreparedChange
change = record {
  proposal_id = "p-1";
  proposal_hash = "sha256:p";
  scope = scope;
  action = increase_weekly_budget;
  current_value = int 1000;
  target_value = int 1100;
  expected_diff = end;
  snapshot_id = "s-1";
  snapshot_generated_at = "2026-01-01T00:00:00+00:00";
  direct_watermark = "w";
  metrika_watermark = "w";
  policy_version = "gate0";
  expected_fingerprint = "f";
  risk = "LOW";
}

abbrev approver : AuthenticatedPrincipal
approver = record { identity = "sviridov"; authentication = "authenticated_macos_user" }

abbrev empty : DurableControlState
empty = record {
  approvals = [];
  executions = [];
  kill_switches = [];
  interrupts = record { signals = []; available = true };
}

abbrev start : World
start = record { control = empty; pending = []; sent = [] }

start-IsFresh : IsFresh start
start-IsFresh = record {
  no_approvals = refl;
  no_executions = refl;
  nothing_pending = refl;
  nothing_sent = refl;
}

abbrev key : String
key = "sha256:organization"

abbrev approval_id : String
approval_id = "approval-schema_version"

-- Two callers race for one approval: one `sender` runs, twice is asked for.
abbrev race : List Op
race =
    grant (ok change) "p-1" 100 "weekly plan" approver 1
    ∷ authorize change approval_id 2
    ∷ authorize change approval_id 2
    ∷ consume change approval_id 3
    ∷ consume change approval_id 3
    ∷ send key
    ∷ send key
    ∷ finish key applied none 4
    ∷ authorize change approval_id 5
    ∷ []

race_sends_once : occurrences key (run test_hash race start).sent ≡ 1
unfolding run grant_approval store_approval new_approval authorize_dispatch take_authority
    consume_reserved_approval finish_execution execution_key as_dict execution_identity
race_sends_once = refl

sent_once_example : occurrences key (run test_hash race start).sent ≤ 1
sent_once_example = sent_once test_hash race start key start-IsFresh

sent-le-used_example :
    length (run test_hash race start).sent
    ≤ count_rows used (run test_hash race start).control.approvals
sent-le-used_example = sent-le-used test_hash race start start-IsFresh

single_flight_example :
    let s = (run test_hash race start).control in
    (count_rows is_active_row s.executions ≤ 1)
    × ((k : String) → count_rows (holds k) s.approvals ≤ 1)
single_flight_example = single_flight test_hash race start start-IsFresh

sent_backed_example :
    occurrences key (run test_hash race start).sent
    ≤ count_rows (backs key) (run test_hash race start).control.approvals
sent_backed_example = sent_backed test_hash race start key start-IsFresh

-- The approval is granted, then the organization is halted: the change is not sent any more.
abbrev halted_state : DurableControlState
halted_state = (engage_kill_switch "organization:mox" "incident" approver 9 empty).1

abbrev halted_world : World
halted_world = record { control = halted_state; pending = []; sent = [] }

abbrev after_halt : List Op
after_halt =
    grant (ok change) "p-1" 100 "weekly plan" approver 10 ∷ authorize change approval_id 11 ∷ []

engaged : is_ok (engage_kill_switch "organization:mox" "incident" approver 9 empty).0 ≡ true
unfolding engage_kill_switch
engaged = refl

covered : is_one_of "organization:mox" (scopes_of scope) ≡ true
unfolding kill_switch_scopes
covered = refl

halted_example :
    let t = (run test_hash after_halt halted_world).control in
    (is_ok (consume_reserved_approval test_hash change approval_id 12 t).0 ≡ false)
    × ((consume_reserved_approval test_hash change approval_id 12 t).1 ≡ t)
    × ((authorize_dispatch test_hash change approval_id 12 t).1 ≡ t)
halted_example =
    halted test_hash "organization:mox" "incident" approver 9 empty halted_world after_halt change
      approval_id 12 engaged refl refl covered

abbrev applied_row : ExecutionRecord
applied_row = record {
  execution_key = key;
  proposal_id = "p-1";
  status = applied;
  target_key = "mox:direct:main:42:INCREASE_WEEKLY_BUDGET";
  current_value = int 1000;
  target_value = int 1100;
  detail = none;
  created_at = 2;
  updated_at = 4;
}

abbrev ended : World
ended = record { control = record empty { executions = applied_row ∷ [] }; pending = []; sent = [] }

finished_is_final_example :
    first_row (has_key key) (run test_hash race ended).control.executions ≡ some applied_row
finished_is_final_example = finished_is_final test_hash key applied_row race ended refl refl

-- One caller asks for the change, and its callbacks return times.
abbrev granted_only : List Op
granted_only = grant (ok change) "p-1" 100 "weekly plan" approver 1 ∷ []

called :
    (send_once test_hash change approval_id 2
      (during test_hash [] (ok 3))
      (during test_hash [] (ok 4))
      (run test_hash granted_only start).control).sent
    ≡ true
unfolding run run_control grant_approval store_approval new_approval send_once authorize_dispatch
    take_authority consume_reserved_approval execution_key as_dict execution_identity
called = refl

send_once_first_example :
    let start_ = run test_hash granted_only start in
    let out =
      send_once test_hash change approval_id 2
        (during test_hash [] (ok 3))
        (during test_hash [] (ok 4))
        start_.control in
    (occurrences (execution_key test_hash change) start_.sent ≡ 0)
    × (0 < count_rows (spent (execution_key test_hash change)) out.state.approvals)
send_once_first_example =
    send_once_first test_hash granted_only [] [] (ok 3) (ok 4) start change approval_id 2
      start-IsFresh called
