-- ===== src/Polling/Tests.antt =====
-- Runs of the monitoring store, and the theorems at them.
use mox_adv.Prelude.{◌≡◌, refl, String, concat_text, List, [], ◌∷◌, none, some}
use mox_adv.Prelude.Json.{Json, text}
use mox_adv.Prelude.Lists.{All}
use mox_adv.Polling.{
  PollClaim, PollRow, Snapshot, done, claim_poll, load_snapshot_bytes, complete, require_claim,
}
use mox_adv.Polling.Fencing.{IsLost, superseded}
use mox_adv.Polling.Lease.{lease_excludes}
use mox_adv.Polling.Persist.{persist_poll, save_snapshot, active_proposals, active_proposal}
use mox_adv.Polling.Snapshots.{Numbered, numbered, snapshot_stays}
use mox_adv.Polling.Trace.{Call, claiming, beating, releasing, persisting, World, run, empty}

-- Stand-ins for the serialiser and the hash.
abbrev bytes_of : Json → String
bytes_of (text s) = s
bytes_of _ = "{}"

abbrev digest : String → String
digest s = concat_text "digest" s

abbrev snapshot : String → String → Snapshot
snapshot id body = record {
  snapshot_id = id;
  organization = "o";
  connection = "c";
  account = "a";
  campaign = "k";
  counter = "n";
  goal = "g";
  period_start = "2026-01-01";
  period_end = "2026-01-07";
  timezone = "Europe/Moscow";
  direct_attribution = "LC";
  metrika_attribution = "LC";
  policy_version = "v1";
  document = text body;
}

abbrev claim_1 : PollClaim
claim_1 = record { token = "t1"; generation = 1 }

abbrev claim_2 : PollClaim
claim_2 = record { token = "t2"; generation = 2 }

-- The first scheduler stalls past its lease of 5, and the second one takes over and saves.
abbrev takeover : List Call
takeover =
    claiming "t1" 10
    ∷ claiming "t3" 12
    ∷ claiming "t2" 20
    ∷ persisting claim_2 (snapshot "s1" "x") ("HIGH_CPA" ∷ []) 21
    ∷ []

abbrev world : World
world = run bytes_of digest 30 5 takeover empty

superseded_example : All (IsLost bytes_of digest 30 5 world.state) (claim_1 ∷ [])
unfolding run claim_poll persist_poll complete require_claim save_snapshot active_proposals
    active_proposal
superseded_example = superseded bytes_of digest 30 5 takeover claim_2 (claim_1 ∷ []) refl

numbered_example : Numbered world.state.snapshots
numbered_example = numbered bytes_of digest 30 5 takeover

snapshot_stays_example :
    load_snapshot_bytes "s1"
      (run bytes_of digest 30 5
        (persisting claim_1 (snapshot "s1" "y") [] 60 ∷ [])
        world).state.snapshots
    ≡ done "x"
unfolding run load_snapshot_bytes persist_poll complete require_claim save_snapshot active_proposals
    active_proposal claim_poll
snapshot_stays_example =
    snapshot_stays bytes_of digest 30 5 (persisting claim_1 (snapshot "s1" "y") [] 60 ∷ []) world
      "s1" "x" refl

abbrev held_row : PollRow
held_row = record {
  last_completed_at = none;
  claim_token = some "t1";
  claim_started_at = some 10;
  claim_generation = 1;
  lease_expires_at = some 15;
}

abbrev held : World
held = record {
  state = record { scheduler = some held_row; snapshots = []; proposals = [] };
  claims = claim_1 ∷ [];
}

abbrev intruders : List Call
intruders =
    claiming "t3" 14
    ∷ beating claim_2 14
    ∷ releasing claim_2
    ∷ persisting claim_2 (snapshot "s1" "x") [] 14
    ∷ []

lease_excludes_example : run bytes_of digest 30 5 intruders held ≡ held
lease_excludes_example =
    lease_excludes bytes_of digest 30 5 intruders held claim_1 held_row 15 refl refl refl refl
