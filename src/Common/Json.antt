-- ===== src/Common/Json.antt =====
-- JSON values as the program reads them. Its numbers are identifiers, times and counts, so a number
-- is a natural number here.
use artifact_dev_toolkit.Common.Tests.{if◌then◌else◌, leb}
use artifact_dev_toolkit.Common.Text.{Text, text_eq, is_truthy}
use Prim.Native.Nat.{ℕ}
use mathlib.Core.Bool.{Bool, false}
use mathlib.Core.Option.{Option, none, some}

mutual
  pub data Json : Type 0 where
    null : Json
    bool : Bool → Json
    num : ℕ → Json
    text : Text → Json
    array : Items → Json
    object : Fields → Json

  pub data Items : Type 0 where
    nil : Items
    cons : Json → Items → Items

  pub data Fields : Type 0 where
    end : Fields
    field : Text → Json → Fields → Fields

unfoldable pub lookup_field : Text → Fields → Option Json
lookup_field key end = none
lookup_field key (field name value rest) =
    if text_eq name key then some value else lookup_field key rest

-- `value.key` on a value that is not null; `none` is undefined.
unfoldable pub property : Text → Json → Option Json
property key (object fields) = lookup_field key fields
property key _ = none

-- `typeof value === "string"`
unfoldable pub as_text : Option Json → Option Text
as_text (some (text s)) = some s
as_text _ = none

-- `typeof value === "number"`
unfoldable pub as_num : Option Json → Option ℕ
as_num (some (num n)) = some n
as_num _ = none

-- `typeof value === "string" && value.length > 0`
unfoldable pub as_nonempty : Option Json → Option Text
as_nonempty (some (text s)) = if is_truthy s then some s else none
as_nonempty _ = none

abbrev pub max_safe_integer : ℕ
max_safe_integer = 9007199254740991

-- `Number.isSafeInteger(n)` of a natural number
abbrev pub is_safe_integer : ℕ → Bool
is_safe_integer n = leb n max_safe_integer

-- `Number.isSafeInteger(value)` of a value that may be missing
abbrev pub is_safe_id : Option ℕ → Bool
is_safe_id none = false
is_safe_id (some n) = is_safe_integer n
