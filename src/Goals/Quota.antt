-- ===== src/Goals/Quota.antt =====
-- The quota of an authority in src/mox_adv/goal_store.py.
use mox_adv.Prelude.{
  ℕ, ◌+◌, ◌≤◌, ◌<◌, ◌≡◌, refl, String, Bool, true, false, ◌&&◌, List, Bool-cases, inl, inr, arith,
  leb,
}
use mox_adv.Prelude.Lists.{All}
use mox_adv.Goals.{
  AuthorityKind, approval, mandate, HoldStatus, available, active, reserved, used, exhausted,
  GoalAuthority, GoalAuthorityRow, GoalState,
}
use mox_adv.Goals.Authorities.{
  free_status, status_eq, is_free, is_held, set_held, set_charged, set_released, terminal_status,
}
use mox_adv.Goals.Laws.{StatementLaws}
use mox_adv.Goals.Laws.Runs.{run-kept}
use mox_adv.Goals.Rows.{All-update}
use mox_adv.Goals.State.{GoalResult}
use mox_adv.Goals.Trace.{Call, empty, run}

-- The actions that an authority is good for.
abbrev pub limit : AuthorityKind → ℕ → ℕ
limit approval quota = 1
limit mandate quota = quota

abbrev pub limit_of : GoalAuthority → ℕ
limit_of a = limit a.kind a.action_quota

-- Neither USED nor EXHAUSTED.
abbrev pub is_unspent : HoldStatus → Bool
is_unspent used = false
is_unspent exhausted = false
is_unspent _ = true

-- It is spent exactly when its actions are used up.
abbrev pub IsCharged : GoalAuthorityRow → Type 0
IsCharged row =
    (row.actions_used ≤ limit_of row.authority)
    × (is_unspent row.status ≡ true → row.actions_used < limit_of row.authority)
    × (is_unspent row.status ≡ false → row.actions_used ≡ limit_of row.authority)

free-unspent : (kind : AuthorityKind) → is_unspent (free_status kind) ≡ true
free-unspent approval = refl
free-unspent mandate = refl

eq-unspent :
    (status other : HoldStatus)
    → status_eq status other ≡ true
    → is_unspent other ≡ true
    → is_unspent status ≡ true
eq-unspent available other h k = refl
eq-unspent active other h k = refl
eq-unspent reserved other h k = refl
eq-unspent used used h k = k
eq-unspent used available h k = cc
eq-unspent used active h k = cc
eq-unspent used reserved h k = cc
eq-unspent used exhausted h k = k
eq-unspent exhausted exhausted h k = k
eq-unspent exhausted available h k = cc
eq-unspent exhausted active h k = cc
eq-unspent exhausted reserved h k = cc
eq-unspent exhausted used h k = k

-- The last conjunct.
second-true : (a b : Bool) → (a && b) ≡ true → b ≡ true
second-true true b h = h
second-true false b h = cc

first-true : (a b : Bool) → (a && b) ≡ true → a ≡ true
first-true true b h = refl
first-true false b h = cc

held-unspent :
    (id key : String) (row : GoalAuthorityRow)
    → is_held id key row ≡ true
    → is_unspent row.status ≡ true
held-unspent id key row h = eq-unspent row.status reserved (first-true _ _ (second-true _ _ h)) refl

-- One more action.
charged :
    (kind : AuthorityKind) (quota n : ℕ)
    → n < limit kind quota
    → let status = terminal_status kind quota n in
      (n + 1 ≤ limit kind quota)
      × (is_unspent status ≡ true → n + 1 < limit kind quota)
      × (is_unspent status ≡ false → n + 1 ≡ limit kind quota)
charged approval quota n h = (omega (arith, h), λ e. cc, λ e. omega (arith, h))
charged mandate quota n h = elim (Bool-cases (leb quota (n + 1))) [
  | inl e ↦ rw e (omega (arith, h), λ d. cc, λ d. ground arith)
  | inr e ↦ rw e (omega (arith, h), λ d. ground arith, λ d. cc)
]

positive : (kind : AuthorityKind) (quota : ℕ) → leb 1 quota ≡ true → 0 < limit kind quota
positive approval quota h = omega arith
positive mandate quota h = ground arith

-- A status that is not spent, with the actions that are left.
unspent-IsCharged :
    (n m : ℕ) (status : HoldStatus)
    → is_unspent status ≡ true
    → n < m
    → (n ≤ m) × (is_unspent status ≡ true → n < m) × (is_unspent status ≡ false → n ≡ m)
unspent-IsCharged n m status e h = (omega (arith, h), λ _. h, λ d. cc)

abbrev Kept : GoalState → Type 0
Kept s = All IsCharged s.authorities

IsCharged-laws : StatementLaws Kept
IsCharged-laws = record {
  registering = λ a proof s quota h. (
    unspent-IsCharged 0 (limit_of a) (free_status a.kind) (free-unspent a.kind)
        (positive a.kind a.action_quota quota),
    h,
  );
  holding = λ id key kind s h.
      All-update IsCharged (is_free id (free_status kind)) (set_held key)
        (λ row free c. unspent-IsCharged row.actions_used (limit_of row.authority) reserved refl (
          c.1
            (eq-unspent row.status (free_status kind) (second-true _ _ free) (free-unspent kind))))
        s.authorities h;
  charging = λ id key s h.
      All-update IsCharged (is_held id key) set_charged
        (λ row held c.
          charged row.authority.kind row.authority.action_quota row.actions_used
            (c.1 (held-unspent id key row held)))
        s.authorities h;
  releasing = λ id key s h.
      All-update IsCharged (is_held id key) set_released
        (λ row held c.
          unspent-IsCharged row.actions_used (limit_of row.authority)
            (free_status row.authority.kind) (free-unspent row.authority.kind)
            (c.1 (held-unspent id key row held)))
        s.authorities h;
  starting = λ plan now s fresh h. h;
  applying = λ key external now s h. h;
  losing = λ key detail now s h. h;
  deleting = λ key row s found flying h. h;
  creating = λ c s fresh h. h;
  checking = λ id status s h. h;
  deciding = λ id reviewer status s h. h;
  gating = λ id passed s h. h;
  sharing = λ reservations claims publications cleanups s h. h;
}

-- From empty tables, after any sequence of calls and whatever the service verifies, an approval was charged at
-- most one action and a mandate at most its quota; and an authority is USED or EXHAUSTED if and only if nothing
-- is left of it.
pub authorities-IsCharged :
    (verify_row : GoalAuthorityRow → GoalResult (Unit {0})) (calls : List Call)
    → All IsCharged (run verify_row calls empty).authorities
authorities-IsCharged verify_row calls = run-kept verify_row Kept IsCharged-laws calls empty tt
