-- ===== src/Value.antt =====
-- The JavaScript values that the protocol code receives as `unknown`, and how it looks into them:
-- `asRecord`, `hasOwn`, `assertKeys`, `parseArray` and the other readers at the top of
-- packages/receipt-core/src/schema.ts.
-- A value is a finite tree: plain objects are lists of their own enumerable data properties, arrays
-- are dense. An object of a class is a `class_instance`; a function, a symbol or a bigint is `opaque`.
pub mod Read
use submittedit.Common.{
  ℕ, String, ℤ, Bool, true, false, not, ◌&&◌, Option, none, some, List, [], ◌∷◌, if◌then◌else◌,
}
use submittedit.Text.{Text, text_eq}

mutual
  -- `num` is a number with an integral value (-0 is 0); `non_integer` is any other number.
  pub data Value : Type 0 where
    undefined null class_instance opaque non_integer : Value
    bool : Bool → Value
    num : ℤ → Value
    str : Text → Value
    arr : Elems → Value
    obj : Fields → Value

  pub data Elems : Type 0 where
    nil : Elems
    cons : Value → Elems → Elems

  pub data Fields : Type 0 where
    end : Fields
    field : Text → Value → Fields → Fields

abbrev pub elems : Elems → List Value
elems nil = []
elems (cons v vs) = v ∷ elems vs

abbrev pub of_list : List Value → Elems
of_list [] = nil
of_list (v ∷ vs) = cons v (of_list vs)

abbrev pub keys : Fields → List Text
keys end = []
keys (field k v fs) = k ∷ keys fs

-- `Object.hasOwn(value, key)`.
unfoldable pub has_own : Text → Fields → Bool
has_own key end = false
has_own key (field k v fs) = if text_eq key k then true else has_own key fs

-- `value[key]`, where no property of that name is inherited.
unfoldable pub get : Text → Fields → Value
get key end = undefined
get key (field k v fs) = if text_eq key k then v else get key fs

-- `value === undefined`.
unfoldable pub is_undefined : Value → Bool
is_undefined undefined = true
is_undefined _ = false
