-- ===== src/Mandate/Results.antt =====
-- The steps that a method of src/mox_adv/mandate_store.py took before it returned.
use mox_adv.Prelude.{
  ◌≡◌, refl, Bool, true, false, some, ◌⊎◌, inl, inr, String, arith, Option-cases, ◌&&◌,
}
use mox_adv.Prelude.Json.{Json, Fields}
use mox_adv.Commands.{lookup}
use mox_adv.Control.Reason.{ReasonCode}
use mox_adv.Mandate.State.{MandateResult, ok, rejected, raises, with_ok, check, is_ok}
use mox_adv.Mandate.Terms.{at}

-- The value of a result that is `ok`.
abbrev pub Returned : {A : Type 0} → MandateResult A → Type 0
Returned {A} r = (a : A) × (r ≡ ok a)

pub is_ok-Returned : {A : Type 0} (r : MandateResult A) → is_ok r ≡ true → Returned r
is_ok-Returned (ok a) h = (a, refl)
is_ok-Returned (rejected reason) h = cc
is_ok-Returned raises h = cc

pub Returned-cases : {A : Type 0} (r : MandateResult A) → Returned r ⊎ (is_ok r ≡ false)
Returned-cases (ok a) = inl (a, refl)
Returned-cases (rejected reason) = inr refl
Returned-cases raises = inr refl

pub with_ok-Returned :
    {A B : Type 0} (r : MandateResult A) (f : A → MandateResult B) (b : B)
    → with_ok r f ≡ ok b
    → (a : A) × (r ≡ ok a) × (f a ≡ ok b)
with_ok-Returned (ok a) f b h = (a, refl, h)
with_ok-Returned (rejected reason) f b h = ground arith
with_ok-Returned raises f b h = ground arith

pub at-Returned :
    {B : Type 0} (name : String) (c : Fields) (f : Json → MandateResult B) (b : B)
    → at name c f ≡ ok b
    → (value : Json) × (lookup name c ≡ some value) × (f value ≡ ok b)
at-Returned name c f b h = elim (Option-cases (lookup name c)) [
  | inl e ↦ ground arith
  | inr (value, e) ↦ (value, e, ground arith)
]

pub check-passes :
    (reason : ReasonCode) (b : Bool) (u : Unit {0}) → check reason b ≡ ok u → b ≡ true
check-passes reason true u h = refl
check-passes reason false u h = ground arith

pub some-injective : {A : Type 0} (a b : A) → some a ≡ some b → a ≡ b
some-injective a b h = cc

pub ok-injective : {A : Type 0} (a b : A) → ok a ≡ ok b → a ≡ b
ok-injective a b h = cc

pub and-true : (a b : Bool) → (a && b) ≡ true → (a ≡ true) × (b ≡ true)
and-true true b h = (refl, h)
and-true false b h = cc
