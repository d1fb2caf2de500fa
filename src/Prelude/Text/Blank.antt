-- ===== src/Prelude/Text/Blank.antt =====
-- `str.strip` on text that is not blank.
use Prim.Native.Char.{Char, code}
use Prim.Native.String.{[], ◌∷◌}
use mox_adv.Prelude.{ℕ, ◌≡◌, refl, String, true, false, Bool-cases, inl, inr, arith, nat_eq}
use mox_adv.Prelude.Text.{
  is_space, is_blank, trims_away, starts_nul, strip_left, strip_right, strip,
}

blank-space : (n : ℕ) → nat_eq n 32 ≡ true → is_space n ≡ true
unfolding is_space
blank-space n h = let same : n ≡ 32 = ground arith in rw same refl

-- What starts with a character that is not white space keeps it when it is stripped.
strip_right-word :
    (c : Char) (rest : String)
    → is_space (code c) ≡ false
    → starts_nul (strip_right (c ∷ rest)) ≡ false
    → trims_away (strip_right (c ∷ rest)) ≡ false
unfolding is_blank strip_right trims_away starts_nul
strip_right-word c rest h first = elim (Bool-cases (nat_eq (code c) 32)) [
  | inl e ↦ let space = blank-space (code c) e in cc
  | inr e ↦ rw h (rw e (rw h at first))
]

-- Text that is not blank has a length in SQLite once it is stripped, unless U+0000 comes first.
pub strip-trims_away :
    (s : String) → is_blank s ≡ false → starts_nul (strip s) ≡ false → trims_away (strip s) ≡ false
unfolding is_blank strip strip_left
strip-trims_away [] h first = cc
strip-trims_away (c ∷ rest) h first = elim (Bool-cases (is_space (code c))) [
  | inl e ↦ rw e (strip-trims_away rest (rw e at h) (rw e at first))
  | inr e ↦ rw e (strip_right-word c rest e (rw e at first))
]

nul-space : (n : ℕ) → nat_eq n 0 ≡ true → nat_eq n 32 ≡ false
nul-space n h = ground arith

pub starts_nul-trims_away : (s : String) → starts_nul s ≡ true → trims_away s ≡ true
unfolding starts_nul trims_away
starts_nul-trims_away [] h = refl
starts_nul-trims_away (c ∷ rest) h = rw (nul-space (code c) h) h
