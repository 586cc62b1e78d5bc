-- ===== src/Canonical.antt =====
-- packages/receipt-core/src/canonicalize.ts: untrusted values become canonical trees, which have one
-- text and one byte sequence. Values are trees here, so a cycle, an accessor, a hidden property, a
-- symbol and a hole in an array, which the source refuses, have no counterpart.
pub mod Json
use submittedit.Common.{
  ℕ, zero, suc, ◌+◌, ℤ, pos, negsuc, Bool, true, false, not, ◌&&◌, ◌||◌, Option, none, some, List,
  [], ◌∷◌, ◌++◌, Ordering, ltb, leb, if◌then◌else◌,
}
use submittedit.Text.{Text, contains, is_canonical_decimal, decimal_value}
use submittedit.Text.Order.{compare_canonical_text}
use submittedit.Result.{
  Result, ok, err, throw, throw_if, ◌>>=◌, ◌>>◌, JsonPath, index, property, non_canonical_number,
  undefined_array_value, non_plain_object, normalized_key_collision, unsupported_canonical_value,
}
use submittedit.Value.{Value, Elems, Fields, is_undefined}
use submittedit.Host.{Host}
use submittedit.Normalize.{normalize_text, max_safe_integer}
use submittedit.Schema.Sorting.{sort_by}

mutual
  -- `CanonicalValue`.
  pub data Canonical : Type 0 where
    null : Canonical
    bool : Bool → Canonical
    num : ℤ → Canonical
    str : Text → Canonical
    arr : Items → Canonical
    obj : Entries → Canonical

  pub data Items : Type 0 where
    nil : Items
    cons : Canonical → Items → Items

  pub data Entries : Type 0 where
    end : Entries
    entry : Text → Canonical → Entries → Entries

-- `Number.isSafeInteger`, of a number with an integral value.
unfoldable pub is_safe_integer : ℤ → Bool
is_safe_integer (pos n) = leb n max_safe_integer
is_safe_integer (negsuc n) = ltb n max_safe_integer

-- One entry of an object before sorting: its normalized key, and the outcome for its value (`none`
-- where the value is `undefined`, which is skipped).
abbrev pub Entry : Type 0
Entry = Text × Option (Result Canonical)

-- Keys that a JavaScript object lists first, in numeric order: canonical decimals below 2 ^ 32 - 1.
unfoldable pub is_array_index : Text → Bool
unfolding is_canonical_decimal decimal_value
is_array_index key = is_canonical_decimal key && ltb (decimal_value 0 key) 4294967295

-- `result[key] = value` for a key that is not there: the order in which `JSON.stringify` meets it.
unfoldable pub set_entry : Text → Canonical → Entries → Entries
unfolding is_array_index
set_entry key v end = entry key v end
set_entry key v (entry k w rest) =
    if is_array_index key
      && (not (is_array_index k) || ltb (decimal_value 0 key) (decimal_value 0 k))
    then entry key v (entry k w rest)
    else entry k w (set_entry key v rest)

-- The loop over the sorted entries, with the keys that `result` has so far.
unfoldable pub collect_entries : JsonPath → List Text → Entries → List Entry → Result Entries
unfolding contains set_entry
collect_entries path seen done [] = ok done
collect_entries path seen done ((key, none) ∷ rest) = collect_entries path seen done rest
collect_entries path seen done ((key, some r) ∷ rest) = do
  throw_if (contains seen key) normalized_key_collision path
  v ← r
  collect_entries path (key ∷ seen) (set_entry key v done) rest

unfoldable pub sort_entries : List Entry → List Entry
unfolding sort_by compare_canonical_text
sort_entries = sort_by (λ (k, r) (k', r'). compare_canonical_text k k')

module _ (host : Host) where
  -- `normalizeCanonicalValue`, over values, over the items of an array and over properties.
  unfoldable mutual
    unfolding normalize_text is_safe_integer sort_entries collect_entries

    pub normalize_canonical_value : Value → JsonPath → Result Canonical
    normalize_canonical_value Value.null path = ok null
    normalize_canonical_value (Value.bool b) path = ok (bool b)
    normalize_canonical_value (Value.str s) path = ok (str (normalize_text host s))
    normalize_canonical_value (Value.num n) path =
        if is_safe_integer n then ok (num n) else throw non_canonical_number path
    normalize_canonical_value Value.non_integer path = throw non_canonical_number path
    normalize_canonical_value (Value.arr vs) path = do
      items ← normalize_items vs path 0
      ok (arr items)
    normalize_canonical_value (Value.obj fs) path = do
      entries ← collect_entries path [] end (sort_entries (normalize_fields fs path))
      ok (obj entries)
    normalize_canonical_value Value.class_instance path = throw non_plain_object path
    normalize_canonical_value Value.opaque path = throw unsupported_canonical_value path
    normalize_canonical_value Value.undefined path = throw unsupported_canonical_value path

    pub normalize_items : Elems → JsonPath → ℕ → Result Items
    normalize_items Elems.nil path i = ok nil
    normalize_items (Elems.cons v vs) path i = do
      throw_if (is_undefined v) undefined_array_value (index path i)
      item ← normalize_canonical_value v (index path i)
      items ← normalize_items vs path (i + 1)
      ok (cons item items)

    pub normalize_fields : Fields → JsonPath → List Entry
    normalize_fields Fields.end path = []
    normalize_fields (Fields.field key v fs) path =
        let name = normalize_text host key in
        let r = normalize_canonical_value v (property path name) in
        (name, (if is_undefined v then none else some r)) ∷ normalize_fields fs path
