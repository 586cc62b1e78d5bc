-- ===== src/Value/Read.antt =====
-- Readers of untrusted values: packages/receipt-core/src/schema.ts, from `asRecord` to
-- `parseLiteralTrue`.
use submittedit.Common.{
  Bool, true, false, not, ◌&&◌, ◌||◌, Option, none, some, List, [], ◌∷◌, ◌++◌, if◌then◌else◌,
}
use submittedit.Text.{Text, u, text_eq, contains}
use submittedit.Result.{
  Result, ok, throw, throw_if, ◌>>=◌, ◌>>◌, JsonPath, expected_object, unknown_property,
  missing_property, undefined_property, expected_array, invalid_enum_value, expected_boolean,
  privacy_invariant,
}
use submittedit.Value.{Value, bool, str, arr, obj, Fields, elems, keys, has_own, get, is_undefined}

unfoldable pub as_record : Value → JsonPath → Result Fields
as_record (obj fields) path = ok fields
as_record _ path = throw expected_object path

-- The three loops of `assertKeys`.
unfoldable pub has_unknown : List Text → List Text → Bool
has_unknown allowed [] = false
has_unknown allowed (k ∷ ks) = not (contains allowed k) || has_unknown allowed ks

unfoldable pub has_missing : Fields → List Text → Bool
has_missing value [] = false
has_missing value (k ∷ ks) =
    not (has_own k value) || is_undefined (get k value) || has_missing value ks

unfoldable pub has_explicit_undefined : Fields → List Text → Bool
has_explicit_undefined value [] = false
has_explicit_undefined value (k ∷ ks) =
    has_own k value && is_undefined (get k value) || has_explicit_undefined value ks

unfoldable pub assert_keys : Fields → List Text → List Text → JsonPath → Result (Unit {0})
assert_keys value required optional path = do
  throw_if (has_unknown (required ++ optional) (keys value)) unknown_property path
  throw_if (has_missing value required) missing_property path
  throw_if (has_explicit_undefined value optional) undefined_property path

unfoldable pub parse_array : Value → JsonPath → Result (List Value)
parse_array (arr vs) path = ok (elems vs)
parse_array _ path = throw expected_array path

-- The entry of a table of enumeration values that a text names.
unfoldable pub value_of_name {ℓ} : {E : Type ℓ} → List (Text × E) → Text → Option E
value_of_name [] s = none
value_of_name ((name, e) ∷ table) s = if text_eq name s then some e else value_of_name table s

abbrev or_throw_enum {ℓ} : {E : Type ℓ} → Option E → JsonPath → Result E
or_throw_enum none path = throw invalid_enum_value path
or_throw_enum (some e) path = ok e

-- `parseEnum`, with the list of allowed strings as a table of names.
unfoldable pub parse_enum {ℓ} : {E : Type ℓ} → Value → List (Text × E) → JsonPath → Result E
unfolding value_of_name
parse_enum (str s) table path = or_throw_enum (value_of_name table s) path
parse_enum _ table path = throw invalid_enum_value path

unfoldable pub parse_boolean : Value → JsonPath → Result Bool
parse_boolean (bool b) path = ok b
parse_boolean _ path = throw expected_boolean path

unfoldable pub parse_literal_true : Value → JsonPath → Result (Unit {0})
parse_literal_true (bool true) path = ok tt
parse_literal_true (bool false) path = throw privacy_invariant path
parse_literal_true _ path = throw privacy_invariant path

-- `...(hasOwn(value, key) ? { key: parse(value[key]) } : {})`.
unfoldable pub parse_optional {ℓ} :
    {A : Type ℓ} → Text → Fields → (Value → Result A) → Result (Option A)
parse_optional key value parse =
    if has_own key value then (do a ← parse (get key value); ok (some a)) else ok none

-- A proof that runs a reader on a concrete object unfolds this name for all of the above.
unfoldable pub reading : Unit {0}
unfolding as_record assert_keys has_unknown has_missing has_explicit_undefined parse_array
    parse_optional parse_boolean parse_literal_true contains text_eq has_own get is_undefined u
reading = tt
