-- ===== src/WriteWindow/Trace.antt =====
-- The gate under any sequence of calls with a clock that does not go back.
use mox_adv.Prelude.{
  ℕ, ◌+◌, ◌≤◌, String, ◌≡◌, inl, inr, Bool, true, false, none, some, List, [], ◌∷◌, arith,
  Bool-cases, if◌then◌else◌,
}
use mox_adv.Prelude.Lists.{All, All-map}
use mox_adv.WriteWindow.{
  Gate, WindowRow, WriteWindowDecision, GateResult, done, in_progress, active, reserve, activate,
  release,
}

pub data Call : Type 0 where
  reserving : String → ℕ → Call
  activating : String → ℕ → Call
  releasing : String → ℕ → Call

-- `activations` lists the times at which a write was applied, `clock` the latest time seen.
pub record World : Type 0 where
  pub gate : Gate
  pub activations : List ℕ
  pub clock : ℕ

abbrev is_done : GateResult (Unit {0}) → Bool
is_done (done _) = true
is_done _ = false

abbrev pub time : Call → ℕ
time (reserving key now) = now
time (activating key now) = now
time (releasing key now) = now

unfoldable pub step : ℕ → Call → World → World
unfolding reserve activate release
step window (reserving key now) w = record w { gate = (reserve key now w.gate).1; clock = now }
step window (activating key now) w =
    let (r, g) = activate window key now w.gate in
    record {
      gate = g;
      activations = if is_done r then now ∷ w.activations else w.activations;
      clock = now;
    }
step window (releasing key now) w = record w { gate = release key w.gate; clock = now }

unfoldable pub run : ℕ → List Call → World → World
unfolding step
run window [] w = w
run window (call ∷ calls) w = run window calls (step window call w)

-- Times do not decrease from `clock` on.
abbrev pub IsTimed : ℕ → List Call → Type 0
IsTimed clock [] = Unit
IsTimed clock (call ∷ calls) = (clock ≤ time call) × IsTimed (time call) calls

-- The time from which a reservation may be granted, as far as the gate and the clock tell.
abbrev pub until_of : WindowRow → ℕ → ℕ
until_of row clock = elim row.status [
  | in_progress ↦ clock
  | active ↦ elim row.active_until [ none ↦ clock | some until ↦ until ]
]

abbrev pub bound : Gate → ℕ → ℕ
bound none clock = clock
bound (some row) clock = until_of row clock

abbrev pub IsSpaced : ℕ → World → Type 0
IsSpaced window w = All (λ a. a + window ≤ bound w.gate w.clock) w.activations

abbrev pub allows : GateResult WriteWindowDecision → Bool
allows (done decision) = decision.allowed
allows _ = false

module _ (window : ℕ) where
  bound-reserve :
      (key : String) (now clock : ℕ) (gate : Gate)
      → clock ≤ now
      → bound gate clock ≤ bound (reserve key now gate).1 now
  unfolding reserve
  bound-reserve key now clock none h = ground arith
  bound-reserve key now clock (some row) h = ground arith

  bound-release :
      (key : String) (now clock : ℕ) (gate : Gate)
      → clock ≤ now
      → bound gate clock ≤ bound (release key gate) now
  unfolding release
  bound-release key now clock none h = ground arith
  bound-release key now clock (some row) h = ground arith

  bound-activate :
      (key : String) (now clock : ℕ) (gate : Gate)
      → clock ≤ now
      → bound gate clock ≤ bound (activate window key now gate).1 now
  unfolding activate
  bound-activate key now clock none h = ground arith
  bound-activate key now clock (some row) h = ground arith

  activated :
      (key : String) (now : ℕ) (gate : Gate)
      → is_done (activate window key now gate).0 ≡ true
      → now + window ≤ bound (activate window key now gate).1 now
  unfolding activate
  activated key now none h = cc
  activated key now (some row) h = ground arith

  pub step-IsSpaced :
      (call : Call) (w : World)
      → w.clock ≤ time call
      → IsSpaced window w
      → IsSpaced window (step window call w)
  unfolding step
  step-IsSpaced (reserving key now) w h s =
      All-map _ _ w.activations (λ a p. omega (arith, p, bound-reserve key now w.clock w.gate h)) s
  step-IsSpaced (releasing key now) w h s =
      All-map _ _ w.activations (λ a p. omega (arith, p, bound-release key now w.clock w.gate h)) s
  step-IsSpaced (activating key now) w h s =
      let older : All (λ a. a + window ≤ bound (activate window key now w.gate).1 now)
          w.activations =
        All-map _ _ w.activations (λ a p. omega (arith, p, bound-activate key now w.clock w.gate h))
          s in
      elim (Bool-cases (is_done (activate window key now w.gate).0)) [
        | inl e ↦ rw e (activated key now w.gate e, older)
        | inr e ↦ rw e older
      ]
