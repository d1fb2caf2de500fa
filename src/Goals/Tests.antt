-- ===== src/Goals/Tests.antt =====
-- A run of src/mox_adv/goal_store.py, and the theorems at it.
use mox_adv.Prelude.{◌≡◌, refl, true, false, none, some, List, [], ◌∷◌}
use mox_adv.Prelude.Lists.{All}
use mox_adv.Table.{first_row}
use mox_adv.Control.Principal.{AuthenticatedPrincipal}
use mox_adv.Goals.{
  approval, candidate, approved, pending, verified, applied, goal_authoring, GoalAuthority,
  GoalAuthorityRow, GoalExecutionRecord, GoalCandidateRecord, GoalState,
}
use mox_adv.Goals.Applied.{closed-Stands}
use mox_adv.Goals.Authorities.{AuthorityRequest}
use mox_adv.Goals.Creation.{ExecutionPlan, has_key, is_candidate}
use mox_adv.Goals.Decisions.{decision-Stays, IsSameDecision}
use mox_adv.Goals.Quota.{IsCharged, authorities-IsCharged}
use mox_adv.Goals.State.{GoalResult, ok}
use mox_adv.Goals.Trace.{
  Call, registering_reservation, registering_authority, beginning_creation, completing_creation,
  setting_technical_status, setting_semantic_status, setting_gate, marking_unknown, aborting, empty,
  run,
}

abbrev trusts : GoalAuthorityRow → GoalResult (Unit {0})
trusts row = ok tt

abbrev approver : AuthenticatedPrincipal
approver = record { identity = "sviridov"; authentication = "mac" }

abbrev authority : GoalAuthority
authority = record {
  authority_id = "a";
  kind = approval;
  principal = "sviridov";
  authentication = "mac";
  proposal_id = "p";
  counter_id = "m";
  site_zone = "z";
  allowed_actions = "GOAL_AUTHORING" ∷ [];
  expires_at = 100;
  policy_id = "v1";
  binding_hash = "b";
  action_quota = 3;
}

abbrev request : AuthorityRequest
request = record {
  authority_id = "a";
  proposal_id = "p";
  counter_id = "m";
  site_zone = "z";
  action = "GOAL_AUTHORING";
  policy_id = "v1";
  binding_hash = "b";
  execution_key = "k";
  approval_principal = approver;
  mandate_principal = approver;
}

abbrev plan : ExecutionPlan
plan = record {
  execution_key = "k";
  operation = goal_authoring;
  candidate_id = "c";
  run_id = "r";
  proposal_id = "p";
  counter_id = "m";
  plan_hash = "h";
}

abbrev goal : GoalCandidateRecord
goal = record {
  candidate_id = "c";
  run_id = "r";
  proposal_id = "p";
  counter_id = "m";
  goal_id = "g";
  name = "Lead";
  event = "lead";
  site_location = "#form";
  goal_type = "action";
  business_meaning = "A lead";
  priority = 1;
  status = candidate;
  technical_status = pending;
  created_at = 7;
  optimization_gate_passed = false;
  semantic_reviewer = none;
}

abbrev creation : List Call
creation =
    registering_reservation (record {
      reservation_id = "s";
      scope_binding = "scope";
      object_type = "METRIKA_GOAL";
      proposal_id = "p";
      credential_profile = "w";
      expires_at = 100;
    })
    ∷ registering_authority authority
        (record { canonical_hash = "x"; signature = "y"; issued_at = "1"; canonical_json = "{}" })
    ∷ beginning_creation request
        (record { reservation_id = "s"; scope_binding = "scope"; credential_profile = "w" }) plan
        "lead" 5
    ∷ completing_creation "k" goal "a" "s" 7
    ∷ setting_technical_status "c" verified
    ∷ setting_semantic_status "c" approved "anna"
    ∷ []

-- What others try afterwards; only the gate is changed.
abbrev attempts : List Call
attempts =
    setting_technical_status "c" pending
    ∷ setting_semantic_status "c" candidate "eve"
    ∷ setting_gate "c" true
    ∷ marking_unknown "k" "late" 9
    ∷ aborting "k" "a" none
    ∷ []

abbrev created : GoalState
created = run trusts creation empty

abbrev decided : GoalCandidateRecord
decided = record goal {
  status = approved;
  technical_status = verified;
  semantic_reviewer = some "anna";
}

abbrev done : GoalExecutionRecord
done = record {
  execution_key = "k";
  operation = goal_authoring;
  candidate_id = "c";
  run_id = "r";
  proposal_id = "p";
  counter_id = "m";
  plan_hash = "h";
  status = applied;
  external_id = some "g";
  detail = none;
  created_at = 5;
  updated_at = 7;
}

eligible_after :
    first_row (is_candidate "c") (run trusts attempts created).candidates
    ≡ some (record decided { optimization_gate_passed = true })
unfolding run
eligible_after = refl

authorities-IsCharged_example : All IsCharged created.authorities
authorities-IsCharged_example = authorities-IsCharged trusts creation

closed-Stands_example : first_row (has_key "k") (run trusts attempts created).executions ≡ some done
unfolding run
closed-Stands_example = closed-Stands "k" done refl trusts attempts created refl

decision-Stays_example :
    (row : GoalCandidateRecord) × (first_row
        (is_candidate "c")
        (run trusts attempts created).candidates
      ≡ some row)
    × IsSameDecision decided row
unfolding run
decision-Stays_example = decision-Stays "c" decided refl trusts attempts created refl
