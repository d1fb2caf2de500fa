-- ===== src/Table/Counts.antt =====
-- How an UPDATE moves the number of rows that meet another condition.
use mox_adv.Prelude.{
  ◌⊎◌, ◌+◌, ◌≤◌, ◌<◌, ◌≡◌, refl, Bool, true, false, none, some, List, [], ◌∷◌, arith,
}
use mox_adv.Table.{first_row, any_row, count_rows, update_rows}

module _ {ℓ} {A : Type ℓ} where
  -- At most as many rows gain a property as are updated.
  pub count-update-le_add :
      (p q : A → Bool) (f : A → A) (xs : List A)
      → count_rows q (update_rows p f xs) ≤ count_rows q xs + count_rows p xs
  count-update-le_add p q f [] = omega arith
  count-update-le_add p q f (x ∷ xs) = ground (arith, count-update-le_add p q f xs)

  -- Where an update gives no row the property, no more rows have it.
  pub count-update-le :
      (p q : A → Bool) (f : A → A) (xs : List A)
      → ((x : A) → p x ≡ true → q (f x) ≡ true → q x ≡ true)
      → count_rows q (update_rows p f xs) ≤ count_rows q xs
  count-update-le p q f [] h = omega arith
  count-update-le p q f (x ∷ xs) h = ground (arith, h x, count-update-le p q f xs h)

  -- Where an update leaves the property of each row it writes, the count stands.
  pub count-update :
      (p q : A → Bool) (f : A → A) (xs : List A)
      → ((x : A) → p x ≡ true → q (f x) ≡ q x)
      → count_rows q (update_rows p f xs) ≡ count_rows q xs
  count-update p q f [] h = refl
  count-update p q f (x ∷ xs) h = ground (arith, h x, count-update p q f xs h)

  -- Where an update gives every row that it writes a new property, it adds as many.
  pub count-update-add :
      (p q : A → Bool) (f : A → A) (xs : List A)
      → ((x : A) → p x ≡ true → (q x ≡ false) × (q (f x) ≡ true))
      → count_rows q (update_rows p f xs) ≡ count_rows q xs + count_rows p xs
  count-update-add p q f [] h = refl
  count-update-add p q f (x ∷ xs) h = ground (arith, h x, count-update-add p q f xs h)

  -- Where an update takes the property from every row that it writes, it takes away as many.
  pub count-update-drop :
      (p q : A → Bool) (f : A → A) (xs : List A)
      → ((x : A) → p x ≡ true → (q x ≡ true) × (q (f x) ≡ false))
      → count_rows q (update_rows p f xs) + count_rows p xs ≡ count_rows q xs
  count-update-drop p q f [] h = refl
  count-update-drop p q f (x ∷ xs) h = ground (arith, h x, count-update-drop p q f xs h)

  -- Where an update keeps the property of the rows that it writes, no fewer rows have it.
  pub count-update-ge :
      (p q : A → Bool) (f : A → A) (xs : List A)
      → ((x : A) → p x ≡ true → q x ≡ true → q (f x) ≡ true)
      → count_rows q xs ≤ count_rows q (update_rows p f xs)
  count-update-ge p q f [] h = omega arith
  count-update-ge p q f (x ∷ xs) h = ground (arith, h x, count-update-ge p q f xs h)

  -- A stronger condition selects fewer rows.
  pub count_mono :
      (p q : A → Bool) (xs : List A)
      → ((x : A) → p x ≡ true → q x ≡ true)
      → count_rows p xs ≤ count_rows q xs
  count_mono p q [] h = omega arith
  count_mono p q (x ∷ xs) h = ground (arith, h x, count_mono p q xs h)

  pub count-split :
      (p q r : A → Bool) (xs : List A)
      → ((x : A) → p x ≡ true → (q x ≡ true) ⊎ (r x ≡ true))
      → count_rows p xs ≤ count_rows q xs + count_rows r xs
  count-split p q r [] h = omega arith
  count-split p q r (x ∷ xs) h = ground (arith, h x, count-split p q r xs h)

  pub first_row-none : (p : A → Bool) (xs : List A) → first_row p xs ≡ none → count_rows p xs ≡ 0
  first_row-none p [] h = refl
  first_row-none p (x ∷ xs) h = ground (arith, first_row-none p xs)

  pub first_row-some :
      (p : A → Bool) (xs : List A) (x : A)
      → first_row p xs ≡ some x
      → (p x ≡ true) × (0 < count_rows p xs)
  first_row-some p [] x h = ground arith
  first_row-some p (y ∷ xs) x h = ground (arith, first_row-some p xs x)

  pub any_row-false : (p : A → Bool) (xs : List A) → any_row p xs ≡ false → count_rows p xs ≡ 0
  any_row-false p [] h = refl
  any_row-false p (x ∷ xs) h = ground (arith, any_row-false p xs)

  pub any_row-true : (p : A → Bool) (xs : List A) → any_row p xs ≡ true → 0 < count_rows p xs
  any_row-true p [] h = ground arith
  any_row-true p (x ∷ xs) h = ground (arith, any_row-true p xs)
