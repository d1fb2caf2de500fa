-- ===== src/Goals/Rows.antt =====
-- How the statements of src/mox_adv/goal_store.py move the rows that a SELECT finds.
use mox_adv.Prelude.{
  ◌≡◌, refl, subst, Bool, true, false, some, List, [], ◌∷◌, if◌then◌else◌, Bool-cases, inl, inr,
  arith,
}
use mox_adv.Prelude.Lists.{All}
use mox_adv.Table.{first_row, update_rows}
use mox_adv.Goals.State.{delete_rows}

module _ {A : Type 0} where
  pub All-update :
      (Q : A → Type 0) (p : A → Bool) (f : A → A)
      → ((x : A) → p x ≡ true → Q x → Q (f x))
      → (xs : List A) → All Q xs
      → All Q (update_rows p f xs)
  All-update Q p f k [] h = tt
  All-update Q p f k (x ∷ xs) (h, hs) = elim (Bool-cases (p x)) [
    | inl e ↦ rw e (k x e h, All-update Q p f k xs hs)
    | inr e ↦ rw e (h, All-update Q p f k xs hs)
  ]

  first-injective : (x y : A) → some x ≡ some y → x ≡ y
  first-injective x y h = cc

  head-update :
      (q p : A → Bool) (f : A → A)
      → ((x : A) → q (f x) ≡ q x)
      → (y : A) (ys : List A) → q y ≡ true
      → first_row q (update_rows p f (y ∷ ys)) ≡ some (if p y then f y else y)
  head-update q p f k y ys e = elim (Bool-cases (p y)) [
    | inl d ↦ rw (d, k y, e) refl
    | inr d ↦ rw (d, e) refl
  ]

  -- The row that an UPDATE leaves in the place of the first.
  pub first_row-update :
      (q p : A → Bool) (f : A → A)
      → ((x : A) → q (f x) ≡ q x)
      → (xs : List A) (x : A) → first_row q xs ≡ some x
      → first_row q (update_rows p f xs) ≡ some (if p x then f x else x)
  first_row-update q p f k [] x h = ground arith
  first_row-update q p f k (y ∷ ys) x h = elim (Bool-cases (q y)) [
    | inl e ↦
        let same : y ≡ x = first-injective y x (rw e at h) in
        subst (λ z. first_row q (update_rows p f (y ∷ ys)) ≡ some (if p z then f z else z)) same
          (head-update q p f k y ys e)
    | inr e ↦ elim (Bool-cases (p y)) [
      | inl d ↦ rw (d, k y, e) (first_row-update q p f k ys x (rw e at h))
      | inr d ↦ rw (d, e) (first_row-update q p f k ys x (rw e at h))
    ]
  ]

  -- A DELETE of other rows.
  pub first_row-delete :
      (q p : A → Bool)
      → ((x : A) → q x ≡ true → p x ≡ false)
      → (xs : List A) → first_row q (delete_rows p xs) ≡ first_row q xs
  first_row-delete q p k [] = refl
  first_row-delete q p k (x ∷ xs) = elim (Bool-cases (q x)) [
    | inl e ↦ rw (k x e, e) refl
    | inr e ↦ elim (Bool-cases (p x)) [
      | inl d ↦ rw (d, e) (first_row-delete q p k xs)
      | inr d ↦ rw (d, e) (first_row-delete q p k xs)
    ]
  ]
