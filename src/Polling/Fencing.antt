-- ===== src/Polling/Fencing.antt =====
-- That a claim of src/mox_adv/monitoring.py is worth nothing once a later one was granted.
use mox_adv.Prelude.{
  ℕ, ◌+◌, ◌<◌, ◌≡◌, refl, subst, String, false, Option, none, some, List, [], ◌∷◌, arith,
  Bool-cases, inl, inr, ◌||◌,
}
use mox_adv.Prelude.Json.{Json}
use mox_adv.Prelude.Lists.{All, All-map}
use mox_adv.Polling.{
  PollClaim, PollRow, MonitoringState, Snapshot, failed, claim_lost, claim_poll, heartbeat_poll,
  release_poll, require_claim, complete, holds, lease_runs, too_early,
}
use mox_adv.Polling.Persist.{persist_poll, persist-cases}
use mox_adv.Polling.Trace.{
  Call, claiming, beating, releasing, persisting, World, step, run, empty, grant,
}

-- The generation of the last claim, 0 before the first.
abbrev pub generation_of : Option PollRow → ℕ
generation_of none = 0
generation_of (some row) = row.claim_generation

-- The newest claim has generation `g`, and each older one a lower generation.
abbrev pub Fenced : ℕ → List PollClaim → Type 0
Fenced g [] = Unit
Fenced g (c ∷ cs) = (c.generation ≡ g) × All (λ d. d.generation < g) cs

Fenced-below : (g : ℕ) (cs : List PollClaim) → Fenced g cs → All (λ d. d.generation < g + 1) cs
Fenced-below g [] h = tt
Fenced-below g (c ∷ cs) h = (omega (arith, h.0), All-map _ _ cs (λ d p. omega (arith, p)) h.1)

claim-Fenced :
    (token : String) (now interval lease_timeout : ℕ) (row : Option PollRow) (cs : List PollClaim)
    → Fenced (generation_of row) cs
    → let (granted, after) = claim_poll token now interval lease_timeout row in
      Fenced (generation_of after) (grant granted cs)
unfolding claim_poll
claim-Fenced token now interval lease_timeout none cs h = (refl, Fenced-below 0 cs h)
claim-Fenced token now interval lease_timeout (some row) cs h =
    elim (Bool-cases (lease_runs now row || too_early now interval row)) [
      | inl e ↦ rw e h
      | inr e ↦ rw e (refl, Fenced-below row.claim_generation cs h)
    ]

generation-heartbeat :
    (claim : PollClaim) (now lease_timeout : ℕ) (row : Option PollRow)
    → generation_of (heartbeat_poll claim now lease_timeout row).1 ≡ generation_of row
unfolding heartbeat_poll
generation-heartbeat claim now lease_timeout none = refl
generation-heartbeat claim now lease_timeout (some row) = ground arith

generation-release :
    (claim : PollClaim) (row : Option PollRow)
    → generation_of (release_poll claim row) ≡ generation_of row
unfolding release_poll
generation-release claim none = refl
generation-release claim (some row) = ground arith

complete-generation :
    (claim : PollClaim) (now : ℕ) (row : Option PollRow) (after : PollRow)
    → complete claim now row ≡ some after
    → after.claim_generation ≡ generation_of row
unfolding complete
complete-generation claim now none after h = ground arith
complete-generation claim now (some row) after h = ground arith

lost :
    (claim : PollClaim) (now : ℕ) (row : PollRow)
    → claim.generation < row.claim_generation
    → holds claim row ≡ false
lost claim now row h = ground arith

heartbeat-lost :
    (claim : PollClaim) (now lease_timeout : ℕ) (row : Option PollRow)
    → claim.generation < generation_of row
    → heartbeat_poll claim now lease_timeout row ≡ (failed claim_lost, row)
unfolding heartbeat_poll
heartbeat-lost claim now lease_timeout none h = refl
heartbeat-lost claim now lease_timeout (some row) h = ground arith

release-lost :
    (claim : PollClaim) (row : Option PollRow)
    → claim.generation < generation_of row
    → release_poll claim row ≡ row
unfolding release_poll
release-lost claim none h = refl
release-lost claim (some row) h = ground arith

require-lost :
    (claim : PollClaim) (now : ℕ) (row : Option PollRow)
    → claim.generation < generation_of row
    → require_claim claim now row ≡ false
unfolding require_claim
require-lost claim now none h = refl
require-lost claim now (some row) h = ground arith

module _ (canonical_bytes : Json → String) (sha256 : String → String)
    (interval lease_timeout : ℕ) where
  persist-generation :
      (claim : PollClaim) (s : Snapshot) (reasons : List String) (now : ℕ) (state : MonitoringState)
      → generation_of (persist_poll canonical_bytes sha256 claim s reasons now state).1.scheduler
        ≡ generation_of state.scheduler
  persist-generation claim s reasons now state =
      elim (persist-cases canonical_bytes sha256 claim s reasons now state) [
        | inl e ↦ rw e refl
        | inr (after, _, c, e) ↦ rw e (complete-generation claim now state.scheduler after c)
      ]

  step-Fenced :
      (call : Call) (w : World)
      → Fenced (generation_of w.state.scheduler) w.claims
      → let after = step canonical_bytes sha256 interval lease_timeout call w in
        Fenced (generation_of after.state.scheduler) after.claims
  unfolding step
  step-Fenced (claiming token now) w h =
      claim-Fenced token now interval lease_timeout w.state.scheduler w.claims h
  step-Fenced (beating claim now) w h =
      rw (generation-heartbeat claim now lease_timeout w.state.scheduler) h
  step-Fenced (releasing claim) w h = rw (generation-release claim w.state.scheduler) h
  step-Fenced (persisting claim s reasons now) w h =
      rw (persist-generation claim s reasons now w.state) h

  run-Fenced :
      (calls : List Call) (w : World)
      → Fenced (generation_of w.state.scheduler) w.claims
      → let after = run canonical_bytes sha256 interval lease_timeout calls w in
        Fenced (generation_of after.state.scheduler) after.claims
  unfolding run
  run-Fenced [] w h = h
  run-Fenced (call ∷ calls) w h =
      run-Fenced calls (step canonical_bytes sha256 interval lease_timeout call w)
        (step-Fenced call w h)

  -- A claim that the store refuses: it renews no lease, saves no poll and releases nothing.
  abbrev pub IsLost : MonitoringState → PollClaim → Type 0
  IsLost state claim =
      ((now : ℕ)
        → heartbeat_poll claim now lease_timeout state.scheduler
          ≡ (failed claim_lost, state.scheduler))
      × (release_poll claim state.scheduler ≡ state.scheduler)
      × ((s : Snapshot) (reasons : List String) (now : ℕ)
          → persist_poll canonical_bytes sha256 claim s reasons now state
            ≡ (failed claim_lost, state))

  below-IsLost :
      (state : MonitoringState) (claim : PollClaim)
      → claim.generation < generation_of state.scheduler
      → IsLost state claim
  below-IsLost state claim h = (
    λ now. heartbeat-lost claim now lease_timeout state.scheduler h,
    release-lost claim state.scheduler h,
    λ s reasons now.
        unfold persist_poll in rw (persist_poll, require-lost claim now state.scheduler h) refl,
  )

  Fenced-IsLost :
      (state : MonitoringState) (newest : PollClaim) (older : List PollClaim)
      → Fenced (generation_of state.scheduler) (newest ∷ older)
      → All (IsLost state) older
  Fenced-IsLost state newest older h = All-map _ _ older (below-IsLost state) h.1

  -- After any calls on an empty store, with any claims, every claim that was granted but the last is
  -- lost: its heartbeat and its `persist_poll` are refused, and neither they nor its release change
  -- the state, whatever the time.
  pub superseded :
      (calls : List Call) (newest : PollClaim) (older : List PollClaim)
      → (run canonical_bytes sha256 interval lease_timeout calls empty).claims ≡ newest ∷ older
      → All (IsLost (run canonical_bytes sha256 interval lease_timeout calls empty).state) older
  superseded calls newest older e =
      Fenced-IsLost (run canonical_bytes sha256 interval lease_timeout calls empty).state newest
        older
        (subst
          (Fenced (
            generation_of
              (run canonical_bytes sha256 interval lease_timeout calls empty).state.scheduler))
          e (run-Fenced calls empty tt))
