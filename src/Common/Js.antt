-- ===== src/Common/Js.antt =====
-- Values of TypeScript's `number` and `unknown`, as JSON.parse or an untyped caller supplies them.
use Prim.Native.Nat.{ℕ}
use Prim.Native.String.{String}
use mathlib.Core.Bool.{Bool, true, false, ◌&&◌}
use mathlib.Core.Option.{Option, none, some}
use depix_sdk.Common.Tests.{leb, if◌then◌else◌, ◌==◌}
use depix_sdk.Common.Text.{Text, codes, text_eq}

-- A number of JavaScript. `negsuc n` is -(n + 1); `above n` lies between n and n + 1, and `below n`
-- between -(n + 1) and -n.
pub data JsNumber : Type 0 where
  pos negsuc above below : ℕ → JsNumber
  nan infinity neg_infinity : JsNumber

abbrev pub max_safe_integer : ℕ
max_safe_integer = 9007199254740991

-- The value, if it is a positive safe integer: `Number.isSafeInteger(n) && n > 0`.
abbrev pub positive_safe : JsNumber → Option ℕ
positive_safe (pos n) = if n == 0 then none else if leb n max_safe_integer then some n else none
positive_safe _ = none

-- The value, if it is a safe integer that is not negative.
abbrev pub natural_safe : JsNumber → Option ℕ
natural_safe (pos n) = if leb n max_safe_integer then some n else none
natural_safe _ = none

-- What JSON.parse returns.
mutual
  pub data Json : Type 0 where
    null : Json
    boolean : Bool → Json
    num : JsNumber → Json
    str : Text → Json
    arr : Items → Json
    obj : Fields → Json

  pub data Items : Type 0 where
    nil : Items
    cons : Json → Items → Items

  pub data Fields : Type 0 where
    end : Fields
    field : Text → Json → Fields → Fields

abbrev pub is_finite : JsNumber → Bool
is_finite nan = false
is_finite infinity = false
is_finite neg_infinity = false
is_finite _ = true

-- Every number in it is finite; JSON.stringify writes null for the others.
unfoldable mutual
  pub all_finite : Json → Bool
  all_finite null = true
  all_finite (boolean b) = true
  all_finite (num n) = is_finite n
  all_finite (str s) = true
  all_finite (arr xs) = items_finite xs
  all_finite (obj fs) = fields_finite fs

  pub items_finite : Items → Bool
  items_finite nil = true
  items_finite (cons x xs) = all_finite x && items_finite xs

  pub fields_finite : Fields → Bool
  fields_finite end = true
  fields_finite (field k v fs) = all_finite v && fields_finite fs

-- `value.key` on the fields of an object; `none` is `undefined`.
abbrev pub get_field : String → Fields → Option Json
get_field k end = none
get_field k (field j v fs) = if text_eq j (codes k) then some v else get_field k fs
