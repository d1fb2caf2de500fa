-- ===== src/Goals/State.antt =====
-- The result of a method of src/mox_adv/goal_store.py: a value and the state that it commits, or an exception,
-- with which the connection rolls back.
use mox_adv.Prelude.{String, Bool, true, false, List, [], ◌∷◌, if◌then◌else◌}
use mox_adv.Goals.{GoalState}

-- `GoalLifecycleRejected`, or an integrity error of the database.
pub data GoalResult (A : Type 0) : Type 0 where
  ok : A → GoalResult A
  rejected : String → GoalResult A
  raises : GoalResult A

infixl 5 ◌>>=◌ ◌>>◌
abbrev pub ◌>>=◌ : {A B : Type 0} → GoalResult A → (A → GoalResult B) → GoalResult B
ok a >>= f = f a
rejected code >>= f = rejected code
raises >>= f = raises

abbrev pub ◌>>◌ : {A B : Type 0} → GoalResult A → GoalResult B → GoalResult B
m >> n = m >>= λ _. n

-- if not …: raise
abbrev pub check : String → Bool → GoalResult (Unit {0})
check code true = ok tt
check code false = rejected code

abbrev pub Method : Type 0 → Type 0
Method A = GoalState → GoalResult (A × GoalState)

-- The state after a call.
abbrev pub after : {A : Type 0} → Method A → GoalState → GoalState
after m s = elim (m s) [ ok (_, t) ↦ t | rejected _ ↦ s | raises ↦ s ]

-- DELETE … WHERE p
abbrev pub delete_rows {ℓ} : {A : Type ℓ} → (A → Bool) → List A → List A
delete_rows p [] = []
delete_rows p (x ∷ xs) = let rest = delete_rows p xs in if p x then rest else x ∷ rest
