-- ===== src/Prelude/Json.antt =====
-- The Python values that the program hashes and compares: JSON documents with string keys.
use Prim.Native.Nat.{ℕ}
use Prim.Native.String.{String}
use mathlib.Core.Bool.{Bool}
use mathlib.Core.List.{List, [], ◌∷◌}

-- `negative n` is -(n + 1); `instant` is the ISO text of a UTC time, kept as the time.
mutual
  pub data Json : Type 0 where
    null : Json
    flag : Bool → Json
    int : ℕ → Json
    negative : ℕ → Json
    text : String → Json
    instant : ℕ → Json
    object : Fields → Json
    array : Items → Json

  pub data Fields : Type 0 where
    end : Fields
    field : String → Json → Fields → Fields

  pub data Items : Type 0 where
    done : Items
    item : Json → Items → Items

abbrev pub items_of : Items → List Json
items_of done = []
items_of (item j rest) = j ∷ items_of rest
