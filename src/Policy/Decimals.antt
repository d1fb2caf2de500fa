-- ===== src/Policy/Decimals.antt =====
-- `Decimal` of a text, as src/mox_adv/approval_execution.py and src/mox_adv/autonomy_policy.py use it.
use mox_adv.Prelude.{ℕ, ◌*◌, ◌^◌, Bool, true, false, not, Option, none, some, ltb, leb}

-- `number n k` is n / 10 ^ k and `below_zero` any negative number, for the comparisons are with numbers
-- that are not negative. `not_applicable` is the text NOT_APPLICABLE, `malformed` any other text
-- that `Decimal` refuses.
pub data DecimalText : Type 0 where
  number : ℕ → ℕ → DecimalText
  below_zero infinity nan not_applicable malformed : DecimalText

-- Whether `Decimal(text)` returns.
abbrev pub parses : DecimalText → Bool
parses not_applicable = false
parses malformed = false
parses _ = true

-- `Decimal(text) <= bound`
unfoldable pub at_most : ℕ → DecimalText → Option Bool
at_most bound (number n k) = some (leb n (bound * 10 ^ k))
at_most bound below_zero = some true
at_most bound infinity = some false
at_most bound _ = none

-- `Decimal(text) < bound`, for a positive bound.
unfoldable pub below : ℕ → DecimalText → Option Bool
below bound (number n k) = some (ltb n (bound * 10 ^ k))
below bound below_zero = some true
below bound infinity = some false
below bound _ = none

abbrev negate : Option Bool → Option Bool
negate none = none
negate (some b) = some (not b)

-- `Decimal(text) > bound`
abbrev pub above : ℕ → DecimalText → Option Bool
above bound d = negate (at_most bound d)

-- `Decimal(text) >= bound`
abbrev pub at_least : ℕ → DecimalText → Option Bool
at_least bound d = negate (below bound d)

-- `test and rest`, where `rest` may raise.
abbrev pub and_then : Bool → Option Bool → Option Bool
and_then true rest = rest
and_then false rest = some false

-- `first and rest`, where both may raise.
abbrev pub and_also : Option Bool → Option Bool → Option Bool
and_also none rest = none
and_also (some test) rest = and_then test rest
