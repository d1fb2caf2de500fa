-- ===== src/Mandate/Refusals.antt =====
-- How a refused step makes a method of src/mox_adv/mandate_store.py refuse.
use mox_adv.Prelude.{◌≡◌, refl, true, false}
use mox_adv.Mandate.{MandateState}
use mox_adv.Mandate.Keeps.{Keeps}
use mox_adv.Mandate.State.{
  MandateResult, ok, rejected, raises, is_ok, Authority, read, lift, transaction, continue, keep,
  with_ok, ◌>>=◌,
}

module _ {A B : Type 0} where
  pub with_ok-fails :
      (r : MandateResult A) (f : A → MandateResult B)
      → ((a : A) → r ≡ ok a → is_ok (f a) ≡ false)
      → is_ok (with_ok r f) ≡ false
  with_ok-fails (ok a) f h = h a refl
  with_ok-fails (rejected reason) f h = refl
  with_ok-fails raises f h = refl

  continue-fails :
      (outcome : MandateResult A × MandateState) (f : A → Authority B)
      → is_ok outcome.0 ≡ false
      → is_ok (continue outcome.0 f outcome.1).0 ≡ false
  continue-fails (ok a, t) f h = cc
  continue-fails (rejected reason, t) f h = refl
  continue-fails (raises, t) f h = refl

  ok-then-fails :
      (r : MandateResult A) (f : A → Authority B) (s : MandateState)
      → ((a : A) → r ≡ ok a → is_ok (f a s).0 ≡ false)
      → is_ok (continue r f s).0 ≡ false
  ok-then-fails (ok a) f s h = h a refl
  ok-then-fails (rejected reason) f s h = refl
  ok-then-fails raises f s h = refl

keep-fails :
    {A : Type 0} (before : MandateState) (outcome : MandateResult A × MandateState)
    → is_ok outcome.0 ≡ false
    → is_ok (keep outcome.0 before outcome.1).0 ≡ false
keep-fails before (ok a, t) h = h
keep-fails before (rejected reason, t) h = refl
keep-fails before (raises, t) h = refl

-- A method refuses in every state of a kind.
module _ (P : MandateState → Type 0) where
  abbrev pub Refuses : {A : Type 0} → Authority A → Type 0
  Refuses m = (s : MandateState) → P s → is_ok (m s).0 ≡ false

  pub bind-Refuses :
      {A B : Type 0} (m : Authority A) (f : A → Authority B) → Refuses m → Refuses (m >>= f)
  bind-Refuses m f h s p = continue-fails (m s) f (h s p)

  pub lift-Refuses :
      {A B : Type 0} (r : MandateResult A) (f : A → Authority B)
      → ((a : A) → Refuses (f a))
      → Refuses (lift r >>= f)
  lift-Refuses r f h s p = ok-then-fails r f s (λ a e. h a s p)

  pub read-Refuses :
      {A B : Type 0} (g : MandateState → MandateResult A) (f : A → Authority B)
      → ((a : A) (s : MandateState) → g s ≡ ok a → P s → is_ok (f a s).0 ≡ false)
      → Refuses (read g >>= f)
  read-Refuses g f h s p = ok-then-fails (g s) f s (λ a e. h a s e p)

  pub transaction-Refuses : {A : Type 0} (m : Authority A) → Refuses m → Refuses (transaction m)
  transaction-Refuses m h s p = keep-fails s (m s) (h s p)

-- A method that returns leaves a state of a kind.
module _ (Q : MandateState → Type 0) where
  abbrev pub Ensures : {A : Type 0} → Authority A → Type 0
  Ensures m = (s : MandateState) → is_ok (m s).0 ≡ true → Q (m s).1

  pub ok-then-ensures :
      {A B : Type 0} (r : MandateResult A) (f : A → Authority B) (s : MandateState)
      → ((a : A) → r ≡ ok a → is_ok (f a s).0 ≡ true → Q (f a s).1)
      → is_ok (continue r f s).0 ≡ true
      → Q (continue r f s).1
  ok-then-ensures (ok a) f s k h = k a refl h
  ok-then-ensures (rejected reason) f s k h = cc
  ok-then-ensures raises f s k h = cc

  pub read-Ensures :
      {A B : Type 0} (g : MandateState → MandateResult A) (f : A → Authority B)
      → ((a : A) (s : MandateState) → g s ≡ ok a → is_ok (f a s).0 ≡ true → Q (f a s).1)
      → Ensures (read g >>= f)
  read-Ensures g f k s h = ok-then-ensures (g s) f s (λ a e. k a s e) h

  pub lift-Ensures :
      {A B : Type 0} (r : MandateResult A) (f : A → Authority B)
      → ((a : A) → Ensures (f a))
      → Ensures (lift r >>= f)
  lift-Ensures r f k s h = ok-then-ensures r f s (λ a e. k a s) h

  continue-ensures :
      {A B : Type 0} (outcome : MandateResult A × MandateState) (f : A → Authority B)
      → ((a : A) → Ensures (f a))
      → is_ok (continue outcome.0 f outcome.1).0 ≡ true
      → Q (continue outcome.0 f outcome.1).1
  continue-ensures (ok a, t) f k h = k a t h
  continue-ensures (rejected reason, t) f k h = cc
  continue-ensures (raises, t) f k h = cc

  pub bind-Ensures :
      {A B : Type 0} (m : Authority A) (f : A → Authority B)
      → ((a : A) → Ensures (f a))
      → Ensures (m >>= f)
  bind-Ensures m f k s h = continue-ensures (m s) f k h

  then-read-ensures :
      {A B : Type 0} (outcome : MandateResult A × MandateState)
      (g : A → MandateState → MandateResult B)
      → (is_ok outcome.0 ≡ true → Q outcome.1)
      → is_ok (continue outcome.0 (λ a. read (g a)) outcome.1).0 ≡ true
      → Q (continue outcome.0 (λ a. read (g a)) outcome.1).1
  then-read-ensures (ok a, t) g k h = k refl
  then-read-ensures (rejected reason, t) g k h = cc
  then-read-ensures (raises, t) g k h = cc

  -- What is only read afterwards changes nothing.
  pub then-read-Ensures :
      {A B : Type 0} (m : Authority A) (g : A → MandateState → MandateResult B)
      → Ensures m
      → Ensures (m >>= λ a. read (g a))
  then-read-Ensures m g k s h = then-read-ensures (m s) g (k s) h

  keep-ensures :
      {A : Type 0} (before : MandateState) (outcome : MandateResult A × MandateState)
      → (is_ok outcome.0 ≡ true → Q outcome.1)
      → is_ok (keep outcome.0 before outcome.1).0 ≡ true
      → Q (keep outcome.0 before outcome.1).1
  keep-ensures before (ok a, t) k h = k refl
  keep-ensures before (rejected reason, t) k h = cc
  keep-ensures before (raises, t) k h = cc

  pub transaction-Ensures : {A : Type 0} (m : Authority A) → Ensures m → Ensures (transaction m)
  transaction-Ensures m k s h = keep-ensures s (m s) (k s) h

  -- What the first step ensures, the others keep.
  pub then-kept :
      {A B : Type 0} (outcome : MandateResult A × MandateState) (f : A → Authority B)
      → ((a : A) → Keeps Q (f a))
      → (is_ok outcome.0 ≡ true → Q outcome.1)
      → is_ok (continue outcome.0 f outcome.1).0 ≡ true
      → Q (continue outcome.0 f outcome.1).1
  then-kept (ok a, t) f k q h = k a t (q refl)
  then-kept (rejected reason, t) f k q h = cc
  then-kept (raises, t) f k q h = cc
