-- ===== src/WriteWindow/Spacing.antt =====
-- What the gate of src/mox_adv/monitoring.py grants, over any sequence of calls.
use mox_adv.Prelude.{
  ℕ, ◌+◌, ◌≤◌, String, ◌≡◌, Bool, true, false, ◌||◌, none, some, List, [], ◌∷◌, arith, ◌==◌,
}
use mox_adv.WriteWindow.{Gate, done, reserve, claim, refused}
use mox_adv.Prelude.Lists.{All, All-map}
use mox_adv.WriteWindow.Trace.{
  Call, reserving, activating, releasing, World, step, run, IsTimed, bound, allows, IsSpaced,
  step-IsSpaced,
}

abbrev pub open_gate : World
open_gate = record { gate = none; activations = []; clock = 0 }

module _ (window : ℕ) where
  run-IsSpaced :
      (calls : List Call) (w : World)
      → IsTimed w.clock calls
      → IsSpaced window w
      → IsSpaced window (run window calls w)
  unfolding run
  run-IsSpaced [] w t s = s
  run-IsSpaced (reserving key now ∷ calls) w t s =
      run-IsSpaced calls (step window (reserving key now) w) (unfold step in t.1)
        (step-IsSpaced window (reserving key now) w t.0 s)
  run-IsSpaced (releasing key now ∷ calls) w t s =
      run-IsSpaced calls (step window (releasing key now) w) (unfold step in t.1)
        (step-IsSpaced window (releasing key now) w t.0 s)
  run-IsSpaced (activating key now ∷ calls) w t s =
      run-IsSpaced calls (step window (activating key now) w) (unfold step in t.1)
        (step-IsSpaced window (activating key now) w t.0 s)

  grant-bound :
      (key : String) (now clock : ℕ) (gate : Gate)
      → clock ≤ now
      → allows (reserve key now gate).0 ≡ true
      → bound gate clock ≤ now
  unfolding reserve
  grant-bound key now clock none h g = h
  grant-bound key now clock (some row) h g = ground arith

  -- After any calls with a clock that does not go back, a reservation is granted only once the
  -- whole window has passed since every write that was applied.
  pub quiet_window :
      (calls : List Call) (key : String) (now : ℕ)
      → IsTimed 0 calls
      → (run window calls open_gate).clock ≤ now
      → allows (reserve key now (run window calls open_gate).gate).0 ≡ true
      → All (λ a. a + window ≤ now) (run window calls open_gate).activations
  quiet_window calls key now timed later granted_ =
      let w : World = run window calls open_gate in
      let s : IsSpaced window w = run-IsSpaced calls open_gate timed tt in
      All-map _ _ w.activations
        (λ a p. omega (arith, p, grant-bound key now w.clock w.gate later granted_)) s

  -- The calls by which the holder of a claim ends it.
  abbrev pub ends : String → Call → Bool
  ends key (reserving j now) = false
  ends key (activating j now) = key == j
  ends key (releasing j now) = key == j

  abbrev pub ends_any : String → List Call → Bool
  ends_any key [] = false
  ends_any key (call ∷ calls) = ends key call || ends_any key calls

  claim-step :
      (call : Call) (key : String) (at : ℕ) (w : World)
      → ends key call ≡ false
      → w.gate ≡ some (claim key at)
      → (step window call w).gate ≡ some (claim key at)
  unfolding step
  claim-step (reserving j now) key at w e h = rw h (ground arith)
  claim-step (activating j now) key at w e h = rw h (ground arith)
  claim-step (releasing j now) key at w e h = rw h (ground arith)

  -- While a claim is held, and until its own key activates or releases it, every other call leaves
  -- the gate as it is, and each reservation with a key is refused as in progress.
  pub claim_excludes :
      (calls : List Call) (key : String) (at : ℕ) (w : World) (other : String) (now : ℕ)
      → w.gate ≡ some (claim key at)
      → ends_any key calls ≡ false
      → (other == "") ≡ false
      → reserve other now (run window calls w).gate
        ≡ (done (refused "WRITE_WINDOW_IN_PROGRESS" none), some (claim key at))
  unfolding run
  claim_excludes [] key at w other now h e named = unfold reserve in rw h (ground arith)
  claim_excludes (call ∷ calls) key at w other now h e named =
      claim_excludes calls key at (step window call w) other now
        (claim-step call key at w (ground arith) h) (ground arith) named
