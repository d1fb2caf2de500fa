-- ===== src/Mandate/State.antt =====
-- The monad of the methods of src/mox_adv/mandate_store.py.
use mox_adv.Prelude.{String, Bool, true, false}
use mox_adv.Control.Reason.{ReasonCode, boundary_rejected, Result}
use mox_adv.Control.State.{Control}
use mox_adv.Mandate.{MandateState}

-- `ControlRejected`, or another exception: KeyError, TypeError, ValueError, an integrity error.
pub data MandateResult (A : Type 0) : Type 0 where
  ok : A → MandateResult A
  rejected : ReasonCode → MandateResult A
  raises : MandateResult A

-- A code that only the mandates know.
abbrev pub refuse : {A : Type 0} → String → MandateResult A
refuse code = rejected (boundary_rejected code)

abbrev pub is_ok : {A : Type 0} → MandateResult A → Bool
is_ok (ok _) = true
is_ok _ = false

abbrev pub Authority : Type 0 → Type 0
Authority A = MandateState → MandateResult A × MandateState

abbrev pub pure : {A : Type 0} → A → Authority A
pure a s = (ok a, s)

abbrev pub lift : {A : Type 0} → MandateResult A → Authority A
lift r s = (r, s)

abbrev pub continue : {A B : Type 0} → MandateResult A → (A → Authority B) → Authority B
continue (ok a) f s = f a s
continue (rejected reason) f s = (rejected reason, s)
continue raises f s = (raises, s)

infixl 5 ◌>>=◌ ◌>>◌
abbrev pub ◌>>=◌ : {A B : Type 0} → Authority A → (A → Authority B) → Authority B
◌>>=◌ m f s = let (r, t) = m s in continue r f t

abbrev pub ◌>>◌ : {A B : Type 0} → Authority A → Authority B → Authority B
m >> n = m >>= λ _. n

abbrev pub keep :
    {A : Type 0} → MandateResult A → MandateState → MandateState → MandateResult A × MandateState
keep (ok a) before after = (ok a, after)
keep (rejected reason) before after = (rejected reason, before)
keep raises before after = (raises, before)

-- BEGIN IMMEDIATE … COMMIT, rolled back by any exception.
abbrev pub transaction : {A : Type 0} → Authority A → Authority A
transaction m s = let (r, t) = m s in keep r s t

abbrev from_control : {A : Type 0} → Result A → MandateResult A
from_control (Result.ok a) = ok a
from_control (Result.rejected reason) = rejected reason

-- A method of the control state on the tables that both share.
abbrev pub on_control : {A : Type 0} → Control A → Authority A
on_control m s = let (r, c) = m s.control in (from_control r, record s { control = c })

abbrev pub read : {A : Type 0} → (MandateState → MandateResult A) → Authority A
read f s = (f s, s)

-- Two steps of a method that changes nothing.
abbrev pub with_ok : {A B : Type 0} → MandateResult A → (A → MandateResult B) → MandateResult B
with_ok (ok a) f = f a
with_ok (rejected reason) f = rejected reason
with_ok raises f = raises

-- if not …: raise
abbrev pub check : ReasonCode → Bool → MandateResult (Unit {0})
check reason true = ok tt
check reason false = rejected reason
