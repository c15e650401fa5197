-- ===== src/Prelude/Json.antt =====
-- The values of JSON in JavaScript.
use Prim.Native.Nat.{ℕ}
use mathlib.Core.Option.{Option, none, some}
use sd_flash_sale.Prelude.Tests.{if◌then◌else◌}
use sd_flash_sale.Prelude.Strings.{Text, text_eq}

-- A JavaScript value: null, text, a list, an object with its fields, or a
-- number or a Boolean, which is `other`, and `other 0` if it is falsy.
mutual
  pub data Value : Type 0 where
    null : Value
    other : ℕ → Value
    text : Text → Value
    array : Elements → Value
    object : Fields → Value

  pub data Elements : Type 0 where
    last : Elements
    element : Value → Elements → Elements

  pub data Fields : Type 0 where
    bare : Fields
    field : Text → Value → Fields → Fields

abbrev pub own : Text → Fields → Option Value
own name bare = none
own name (field key value fields) =
    let rest = own name fields in if text_eq key name then some value else rest

-- `value[name]`, of a record
abbrev pub member : Text → Value → Option Value
member name (object fields) = own name fields
member name _ = none
