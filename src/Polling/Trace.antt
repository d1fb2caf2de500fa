-- ===== src/Polling/Trace.antt =====
-- The monitoring store under any sequence of calls, with any claims, by any number of schedulers.
use mox_adv.Prelude.{ℕ, String, Option, none, some, List, [], ◌∷◌}
use mox_adv.Prelude.Json.{Json}
use mox_adv.Polling.{PollClaim, MonitoringState, Snapshot, claim_poll, heartbeat_poll, release_poll}
use mox_adv.Polling.Persist.{persist_poll}

pub data Call : Type 0 where
  claiming : String → ℕ → Call
  beating : PollClaim → ℕ → Call
  releasing : PollClaim → Call
  persisting : PollClaim → Snapshot → List String → ℕ → Call

-- `claims` lists the claims that were granted, the newest first.
pub record World : Type 0 where
  pub state : MonitoringState
  pub claims : List PollClaim

abbrev pub grant : Option PollClaim → List PollClaim → List PollClaim
grant none claims = claims
grant (some claim) claims = claim ∷ claims

module _ (canonical_bytes : Json → String) (sha256 : String → String)
    (interval lease_timeout : ℕ) where
  unfoldable pub step : Call → World → World
  unfolding claim_poll heartbeat_poll release_poll persist_poll
  step (claiming token now) w =
      let (granted, row) = claim_poll token now interval lease_timeout w.state.scheduler in
      record { state = record w.state { scheduler = row }; claims = grant granted w.claims }
  step (beating claim now) w = record w {
    state = record w.state {
      scheduler = (heartbeat_poll claim now lease_timeout w.state.scheduler).1;
    };
  }
  step (releasing claim) w = record w {
    state = record w.state { scheduler = release_poll claim w.state.scheduler };
  }
  step (persisting claim s reasons now) w = record w {
    state = (persist_poll canonical_bytes sha256 claim s reasons now w.state).1;
  }

  unfoldable pub run : List Call → World → World
  unfolding step
  run [] w = w
  run (call ∷ calls) w = run calls (step call w)

abbrev pub empty : World
empty = record { state = record { scheduler = none; snapshots = []; proposals = [] }; claims = [] }
