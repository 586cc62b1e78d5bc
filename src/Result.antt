-- ===== src/Result.antt =====
-- packages/receipt-core/src/errors.ts: a function that may throw a `ReceiptProtocolError` returns a
-- `Result`. The error carries its code and its path; the message, which is for people only, is left
-- out.
use submittedit.Common.{ℕ, suc, String, ◌≡◌, ap, ◌≢◌, refl, arith, Bool, true, false, List, [], ◌∷◌}
use submittedit.Common.Lists.{length}
use submittedit.Text.{Text}

-- The codes of `protocolError` calls.
pub data ErrorCode : Type 0 where
  expected_object unknown_property missing_property undefined_property expected_array
        invalid_enum_value expected_boolean privacy_invariant duplicate_field_id origin_mismatch
        sensitive_field_captured file_metadata_without_consent capture_exclusion_overlap
        authority_outcome_mismatch signer_role_mismatch authority_signature_stage_mismatch
        duplicate_verification_check verification_state_mismatch missing_verification_time
        expected_string empty_string invalid_schema_version unsupported_schema_major invalid_hash
        invalid_address invalid_url invalid_url_scheme url_credentials_forbidden invalid_http_method
        invalid_timestamp invalid_base64url invalid_decimal invalid_integer non_canonical_number
        undefined_array_value non_plain_object normalized_key_collision unsupported_canonical_value
        event_hash_mismatch authority_payload_stage invalid_lifecycle_transition
        duplicate_event_hash first_event_previous_hash later_event_zero_hash
        previous_event_hash_mismatch receipt_id_mismatch schema_version_mismatch
        missing_verification_check extension_key_mismatch signature_payload_mismatch
        claimed_stage_mismatch claimed_status_mismatch missing_authority_signature
        invalid_control_type file_content_forbidden file_value_forbidden file_metadata_mismatch
        missing_field_name :
      ErrorCode

-- `$`, `path.name` and `path[index]`; `property` is for a name that is no literal of the source.
pub data JsonPath : Type 0 where
  root : JsonPath
  prop : JsonPath → String → JsonPath
  index : JsonPath → ℕ → JsonPath
  property : JsonPath → Text → JsonPath

pub record ProtocolError : Type 0 where
  pub error_code : ErrorCode
  pub error_path : JsonPath

pub data Result {ℓ} (A : Type ℓ) : Type ℓ where
  err : ProtocolError → Result A
  ok : A → Result A

-- `protocolError(code, message, path)`.
abbrev pub throw {ℓ} : {A : Type ℓ} → ErrorCode → JsonPath → Result A
throw c p = err (record { error_code = c; error_path = p })

-- A statement that may throw, and the statements after it.
module _ {ℓ κ} {A : Type ℓ} {B : Type κ} where
  infixl 5 ◌>>=◌
  abbrev pub ◌>>=◌ : Result A → (A → Result B) → Result B
  err thrown >>= next = err thrown
  ok a >>= next = next a

module _ {ℓ} {B : Type ℓ} where
  infixl 5 ◌>>◌
  abbrev pub ◌>>◌ : Result (Unit {0}) → Result B → Result B
  test >> rest = test >>= λ passed. rest

-- `if (test) protocolError(code, …, path)`.
abbrev pub throw_if : Bool → ErrorCode → JsonPath → Result (Unit {0})
throw_if true c p = throw c p
throw_if false c p = ok tt

pub ok-injective {ℓ} : {A : Type ℓ} {a b : A} → ok a ≡ ok b → a ≡ b
ok-injective h = cc

pub err-ne-ok {ℓ} : {A : Type ℓ} {e : ProtocolError} {a : A} → err e ≢ ok a
err-ne-ok h = cc

-- A bind that returns: the value in between.
pub >>=-returns {ℓ κ} :
    {A : Type ℓ} {B : Type κ} {r : B} (m : Result A) (next : A → Result B)
    → m >>= next ≡ ok r
    → (value : A) × (ok value ≡ m) × (next value ≡ ok r)
>>=-returns (err thrown) next h = cc
>>=-returns (ok value) next h = (value, refl, h)

-- The same for use inside a proof: the value and the two equations are variables of `k`.
pub invert {ℓ κ μ} :
    {A : Type ℓ} {B : Type κ} {P : Type μ} (m : Result A) (f : A → Result B) {b : B}
    → (m >>= f) ≡ ok b
    → ((a : A) → m ≡ ok a → f a ≡ ok b → P)
    → P
invert (ok a) f h k = k a refl h
invert (err e) f h k = absurd (err-ne-ok h)

module _ {ℓ κ} {A : Type ℓ} {B : Type κ} where
  -- `array.map((item, index) => f(item, path[index]))`, whose first throw ends the whole.
  unfoldable pub map_indexed_from :
      (A → JsonPath → Result B) → JsonPath → ℕ → List A → Result (List B)
  map_indexed_from f path i [] = ok []
  map_indexed_from f path i (x ∷ xs) = do
    y ← f x (index path i)
    ys ← map_indexed_from f path (suc i) xs
    ok (y ∷ ys)

  unfoldable pub map_indexed : (A → JsonPath → Result B) → JsonPath → List A → Result (List B)
  unfolding map_indexed_from
  map_indexed f path xs = map_indexed_from f path 0 xs

  pub map_indexed_from-cons :
      (f : A → JsonPath → Result B) (path : JsonPath) (i : ℕ) (x : A) (xs : List A) (y : B)
      (ys : List B)
      → map_indexed_from f path i (x ∷ xs) ≡ ok (y ∷ ys)
      → (f x (index path i) ≡ ok y) × (map_indexed_from f path (suc i) xs ≡ ok ys)
  unfolding map_indexed_from
  map_indexed_from-cons f path i x xs y ys h = (ground arith, ground arith)

  pub map_indexed_from_step :
      (f : A → JsonPath → Result B) (path : JsonPath) (i : ℕ) (x : A) (xs : List A) (y : B)
      (ys : List B)
      → f x (index path i) ≡ ok y
      → map_indexed_from f path (suc i) xs ≡ ok ys
      → map_indexed_from f path i (x ∷ xs) ≡ ok (y ∷ ys)
  unfolding map_indexed_from
  map_indexed_from_step f path i x xs y ys h k = ground arith

  pub map_indexed_from-ne-nil :
      (f : A → JsonPath → Result B) (path : JsonPath) (i : ℕ) (x : A) (xs : List A)
      → map_indexed_from f path i (x ∷ xs) ≢ ok []
  unfolding map_indexed_from
  map_indexed_from-ne-nil f path i x xs h = ground arith

  length-map_indexed_from :
      (f : A → JsonPath → Result B) (path : JsonPath) (i : ℕ) (xs : List A) (ys : List B)
      → map_indexed_from f path i xs ≡ ok ys
      → length ys ≡ length xs
  unfolding map_indexed_from
  length-map_indexed_from f path i [] ys h = ground arith
  length-map_indexed_from f path i (x ∷ xs) [] h = absurd (map_indexed_from-ne-nil f path i x xs h)
  length-map_indexed_from f path i (x ∷ xs) (y ∷ ys) h =
      ap suc (
        length-map_indexed_from f path (suc i) xs ys (map_indexed_from-cons f path i x xs y ys h).1)

  pub length-map_indexed :
      (f : A → JsonPath → Result B) (path : JsonPath) (xs : List A) (ys : List B)
      → map_indexed f path xs ≡ ok ys
      → length ys ≡ length xs
  unfolding map_indexed
  length-map_indexed f path xs ys h = length-map_indexed_from f path 0 xs ys h
