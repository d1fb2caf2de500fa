-- ===== src/Prelude/Text.antt =====
-- The methods of Python's `str` that the program uses.
pub mod Blank
use Prim.Native.Char.{code}
use Prim.Native.Nat.{ℕ, zero, suc}
use Prim.Native.String.{String, [], ◌∷◌}
use mathlib.Core.Bool.{Bool, true, false, ◌&&◌, ◌||◌}
use mathlib.Core.List.{List}
use mathlib.Core.Option.{Option, none, some}
use mox_adv.Prelude.Tests.{leb, nat_eq, if◌then◌else◌}

-- `str.isspace` of one character, by its code point.
unfoldable pub is_space : ℕ → Bool
is_space c =
    leb 9 c && leb c 13
    || (leb 28 c && leb c 32
        || (nat_eq c 0x85
            || (nat_eq c 0xa0
                || (nat_eq c 0x1680
                    || (leb 0x2000 c && leb c 0x200a
                        || (nat_eq c 0x2028
                            || (nat_eq c 0x2029
                                || (nat_eq c 0x202f || (nat_eq c 0x205f || nat_eq c 0x3000)))))))))

-- `not value.strip()`
unfoldable pub is_blank : String → Bool
unfolding is_space
is_blank [] = true
is_blank (c ∷ rest) = is_space (code c) && is_blank rest

-- The members of `set(value)`.
unfoldable pub characters : String → List String
characters [] = List.[]
characters (c ∷ rest) = List.◌∷◌ (c ∷ []) (characters rest)

-- `value[:n]`
unfoldable pub take : ℕ → String → String
take zero s = []
take (suc n) [] = []
take (suc n) (c ∷ rest) = c ∷ take n rest

-- What follows a prefix, if the text has it.
unfoldable pub after_prefix : String → String → Option String
after_prefix [] s = some s
after_prefix (p ∷ ps) [] = none
after_prefix (p ∷ ps) (c ∷ cs) = if nat_eq (code p) (code c) then after_prefix ps cs else none

-- `value.removeprefix(prefix)`
unfoldable pub remove_prefix : String → String → String
unfolding after_prefix
remove_prefix prefix s = elim (after_prefix prefix s) [ none ↦ s | some rest ↦ rest ]

-- `value.startswith(prefix)`
unfoldable pub starts_with : String → String → Bool
unfolding after_prefix
starts_with s prefix = elim (after_prefix prefix s) [ none ↦ false | some _ ↦ true ]

-- `value.lstrip()`
unfoldable pub strip_left : String → String
unfolding is_space
strip_left [] = []
strip_left (c ∷ rest) = if is_space (code c) then strip_left rest else c ∷ rest

-- `value.rstrip()`
unfoldable pub strip_right : String → String
unfolding is_blank
strip_right [] = []
strip_right (c ∷ rest) = let tail = strip_right rest in if is_blank (c ∷ rest) then [] else c ∷ tail

-- `value.strip()`
unfoldable pub strip : String → String
unfolding strip_left strip_right
strip s = strip_right (strip_left s)

-- The first character is U+0000.
unfoldable pub starts_nul : String → Bool
starts_nul [] = false
starts_nul (c ∷ rest) = nat_eq (code c) 0

-- `length(trim(value)) = 0` in SQLite, whose `trim` removes U+0020 only, and whose `length` stops at U+0000.
unfoldable pub trims_away : String → Bool
trims_away [] = true
trims_away (c ∷ rest) =
    let tail = trims_away rest in if nat_eq (code c) 32 then tail else nat_eq (code c) 0
