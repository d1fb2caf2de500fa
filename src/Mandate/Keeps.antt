-- ===== src/Mandate/Keeps.antt =====
-- What a method of src/mox_adv/mandate_store.py keeps, step by step.
use mox_adv.Prelude.{refl, ◌≡◌, Bool, true, false, if◌then◌else◌}
use mox_adv.Mandate.{MandateState}
use mox_adv.Mandate.State.{
  MandateResult, is_ok, ok, rejected, raises, Authority, read, lift, transaction, continue, keep,
  ◌>>=◌,
}

module _ (P : MandateState → Type 0) where
  abbrev pub Keeps : {A : Type 0} → Authority A → Type 0
  Keeps m = (s : MandateState) → P s → P (m s).1

  pub continue-holds :
      {A B : Type 0} (f : A → Authority B) (k : (a : A) → Keeps (f a))
      (outcome : MandateResult A × MandateState)
      → P outcome.1
      → P (continue outcome.0 f outcome.1).1
  continue-holds f k (ok a, t) p = k a t p
  continue-holds f k (rejected reason, t) p = p
  continue-holds f k (raises, t) p = p

  pub bind-Keeps :
      {A B : Type 0} (m : Authority A) (f : A → Authority B)
      → Keeps m
      → ((a : A) → Keeps (f a))
      → Keeps (m >>= f)
  bind-Keeps m f h k s p = continue-holds f k (m s) (h s p)

  pub keep-holds :
      {A : Type 0} (before : MandateState) (outcome : MandateResult A × MandateState)
      → P before
      → P outcome.1
      → P (keep outcome.0 before outcome.1).1
  keep-holds before (ok a, t) p q = q
  keep-holds before (rejected reason, t) p q = p
  keep-holds before (raises, t) p q = p

  keep-if_ok :
      {A : Type 0} (before : MandateState) (outcome : MandateResult A × MandateState)
      → P before
      → (is_ok outcome.0 ≡ true → P outcome.1)
      → P (keep outcome.0 before outcome.1).1
  keep-if_ok before (ok a, t) p q = q refl
  keep-if_ok before (rejected reason, t) p q = p
  keep-if_ok before (raises, t) p q = p

  pub transaction-Keeps : {A : Type 0} (m : Authority A) → Keeps m → Keeps (transaction m)
  transaction-Keeps m h s p = keep-holds s (m s) p (h s p)

  pub if-Keeps :
      {A : Type 0} (b : Bool) (m n : Authority A) → Keeps m → Keeps n → Keeps (if b then m else n)
  if-Keeps true m n h k = h
  if-Keeps false m n h k = k

  continue-ok :
      {A B : Type 0} (f : A → Authority B) (s : MandateState) (r : MandateResult A)
      → P s
      → ((a : A) → r ≡ ok a → P (f a s).1)
      → P (continue r f s).1
  continue-ok f s (ok a) p k = k a refl
  continue-ok f s (rejected reason) p k = p
  continue-ok f s raises p k = p

  -- A step that only reads.
  pub read-Keeps :
      {A B : Type 0} (g : MandateState → MandateResult A) (f : A → Authority B)
      → ((a : A) → Keeps (f a))
      → Keeps (read g >>= f)
  read-Keeps g f k = bind-Keeps (read g) f (λ s p. p) k

  pub lift-Keeps :
      {A B : Type 0} (r : MandateResult A) (f : A → Authority B)
      → ((a : A) → Keeps (f a))
      → Keeps (lift r >>= f)
  lift-Keeps r f k = bind-Keeps (lift r) f (λ s p. p) k

  -- The same, where what follows needs what was read.
  pub read-ok-Keeps :
      {A B : Type 0} (g : MandateState → MandateResult A) (f : A → Authority B)
      → ((a : A) (s : MandateState) → g s ≡ ok a → P s → P (f a s).1)
      → Keeps (read g >>= f)
  read-ok-Keeps g f k s p = continue-ok f s (g s) p (λ a e. k a s e p)

  pub lift-ok-Keeps :
      {A B : Type 0} (r : MandateResult A) (f : A → Authority B)
      → ((a : A) → r ≡ ok a → Keeps (f a))
      → Keeps (lift r >>= f)
  lift-ok-Keeps r f k s p = continue-ok f s r p (λ a e. k a e s p)

  -- A transaction keeps what its steps keep where they return.
  pub transaction-if_ok :
      {A : Type 0} (m : Authority A) (s : MandateState)
      → P s
      → (is_ok (m s).0 ≡ true → P (m s).1)
      → P (transaction m s).1
  transaction-if_ok m s p q = keep-if_ok s (m s) p q
