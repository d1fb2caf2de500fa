-- ===== src/Polling/Lease.antt =====
-- That a lease of src/mox_adv/monitoring.py keeps every other scheduler out while it runs.
use mox_adv.Prelude.{
  ℕ, ◌≡◌, refl, ap, String, Bool, true, false, not, none, some, List, [], ◌∷◌, arith, Option-cases,
  inl, inr, ◌&&◌, ◌==◌, nat_eq, ltb, eq_iff,
}
use mox_adv.Prelude.Json.{Json}
use mox_adv.Polling.{
  PollClaim, PollRow, MonitoringState, Snapshot, claim_poll, heartbeat_poll, release_poll,
  require_claim, holds,
}
use mox_adv.Polling.Persist.{persist_poll}
use mox_adv.Polling.Trace.{Call, claiming, beating, releasing, persisting, World, step, run}

abbrev pub same_claim : PollClaim → PollClaim → Bool
same_claim c d = c.token == d.token && nat_eq c.generation d.generation

-- A call of another scheduler: it claims before `until`, or it has another claim.
abbrev pub is_foreign : PollClaim → ℕ → Call → Bool
is_foreign claim until (claiming token now) = ltb now until
is_foreign claim until (beating other now) = not (same_claim other claim)
is_foreign claim until (releasing other) = not (same_claim other claim)
is_foreign claim until (persisting other s reasons now) = not (same_claim other claim)

abbrev pub all_foreign : PollClaim → ℕ → List Call → Bool
all_foreign claim until [] = true
all_foreign claim until (call ∷ calls) =
    is_foreign claim until call && all_foreign claim until calls

foreign-holds :
    (claim other : PollClaim) (row : PollRow)
    → holds claim row ≡ true
    → same_claim other claim ≡ false
    → holds other row ≡ false
foreign-holds claim other row h d = elim (Option-cases row.claim_token) [
  | inl e ↦ rw e refl
  | inr (token, e) ↦
      ground
        (arith, eq_iff token claim.token, eq_iff token other.token, eq_iff other.token claim.token)
]

module _ (canonical_bytes : Json → String) (sha256 : String → String)
    (interval lease_timeout : ℕ) where
  claim-held :
      (token : String) (now : ℕ) (claim : PollClaim) (row : PollRow) (until : ℕ)
      → holds claim row ≡ true
      → row.lease_expires_at ≡ some until
      → ltb now until ≡ true
      → claim_poll token now interval lease_timeout (some row) ≡ (none, some row)
  unfolding claim_poll
  claim-held token now claim row until h l t = elim (Option-cases row.claim_token) [
    | inl e ↦ ground arith
    | inr (held, e) ↦ rw (claim_poll, e, l, t) refl
  ]

  heartbeat-foreign :
      (other : PollClaim) (now : ℕ) (row : PollRow)
      → holds other row ≡ false
      → (heartbeat_poll other now lease_timeout (some row)).1 ≡ some row
  unfolding heartbeat_poll
  heartbeat-foreign other now row h = rw h refl

  release-foreign :
      (other : PollClaim) (row : PollRow)
      → holds other row ≡ false
      → release_poll other (some row) ≡ some row
  unfolding release_poll
  release-foreign other row h = rw h refl

  require-foreign :
      (other : PollClaim) (now : ℕ) (row : PollRow)
      → holds other row ≡ false
      → require_claim other now (some row) ≡ false
  unfolding require_claim
  require-foreign other now row h = rw h refl

  persist-foreign :
      (other : PollClaim) (s : Snapshot) (reasons : List String) (now : ℕ) (state : MonitoringState)
      → require_claim other now state.scheduler ≡ false
      → (persist_poll canonical_bytes sha256 other s reasons now state).1 ≡ state
  unfolding persist_poll
  persist-foreign other s reasons now state h = rw (persist_poll, h) refl

  step-held :
      (call : Call) (w : World) (claim : PollClaim) (row : PollRow) (until : ℕ)
      → w.state.scheduler ≡ some row
      → holds claim row ≡ true
      → row.lease_expires_at ≡ some until
      → is_foreign claim until call ≡ true
      → step canonical_bytes sha256 interval lease_timeout call w ≡ w
  unfolding step
  step-held (claiming token now) w claim row until s h l f =
      let e = claim-held token now claim row until h l f in rw (s, e) refl
  step-held (beating other now) w claim row until s h l f =
      let e = heartbeat-foreign other now row (foreign-holds claim other row h (ground arith)) in
      rw (s, e) refl
  step-held (releasing other) w claim row until s h l f =
      let e = release-foreign other row (foreign-holds claim other row h (ground arith)) in
      rw (s, e) refl
  step-held (persisting other snapshot reasons now) w claim row until s h l f =
      let no = require-foreign other now row (foreign-holds claim other row h (ground arith)) in
      ap (λ t. record w { state = t })
        (persist-foreign other snapshot reasons now w.state (rw s no))

  -- While the lease of a claim runs, no call of another scheduler changes the store: as long as each
  -- such call asks for a poll before the lease expires, or brings another claim, no claim is granted
  -- and the state stays as it is.
  pub lease_excludes :
      (calls : List Call) (w : World) (claim : PollClaim) (row : PollRow) (until : ℕ)
      → w.state.scheduler ≡ some row
      → holds claim row ≡ true
      → row.lease_expires_at ≡ some until
      → all_foreign claim until calls ≡ true
      → run canonical_bytes sha256 interval lease_timeout calls w ≡ w
  unfolding run
  lease_excludes [] w claim row until s h l f = refl
  lease_excludes (call ∷ calls) w claim row until s h l f =
      let e = step-held call w claim row until s h l (ground arith) in
      rw e (lease_excludes calls w claim row until s h l (ground arith))
