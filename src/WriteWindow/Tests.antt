-- ===== src/WriteWindow/Tests.antt =====
-- Runs of the write window, and the theorems at them.
use mox_adv.Prelude.{◌+◌, ◌≤◌, ◌≡◌, refl, none, some, List, [], ◌∷◌, arith}
use mox_adv.Control.Rows.{applied}
use mox_adv.WriteWindow.{window_of, reserve, done, refused, claim}
use mox_adv.WriteWindow.Coordinator.{settled, reserve_window, settle, gate_after, settle-reserve}
use mox_adv.WriteWindow.Spacing.{open_gate, quiet_window, claim_excludes}
use mox_adv.Prelude.Lists.{All}
use mox_adv.WriteWindow.Trace.{Call, reserving, activating, releasing, World, run}

gate0_window :
    window_of (record { cooldown_hours = 24; observation_window_hours = 72 }) ≡ 259_200_000_000
unfolding window_of
gate0_window = refl

abbrev day : List Call
day = reserving "a" 5 ∷ reserving "b" 6 ∷ activating "a" 7 ∷ []

-- With a window of 10, the write applied at 7 closes the gate until 17.
quiet_window_example : All (λ a. a + 10 ≤ 21) (run 10 day open_gate).activations
unfolding run reserve
quiet_window_example = quiet_window 10 day "b" 21 (omega arith) (omega arith) refl

abbrev claimed : World
claimed = record { gate = some (claim "a" 5); activations = []; clock = 5 }

claim_excludes_example :
    reserve "b" 9 (run 10 (reserving "b" 6 ∷ releasing "b" 7 ∷ []) claimed).gate
    ≡ (done (refused "WRITE_WINDOW_IN_PROGRESS" none), some (claim "a" 5))
claim_excludes_example =
    claim_excludes 10 (reserving "b" 6 ∷ releasing "b" 7 ∷ []) "a" 5 claimed "b" 9 refl refl refl

settle-reserve_example :
    settle 10 "a" applied 7 (reserve_window "a" 5 none).1 ≡ (settled, gate_after 10 "a" 5 7 applied)
unfolding reserve_window
settle-reserve_example = settle-reserve 10 "a" 5 7 applied refl
