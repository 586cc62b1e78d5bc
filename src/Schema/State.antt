-- ===== src/Schema/State.antt =====
-- packages/receipt-core/src/schema.ts, `parseVerificationCheck` to `parseReceiptStructure`: the
-- recorded verification, and the whole receipt.
use submittedit.Common.{Bool, true, false, not, ◌&&◌, List, [], ◌∷◌, map}
use submittedit.Common.Lists.{all, any}
use submittedit.Text.{u}
use submittedit.Text.Order.{compare_canonical_text}
use submittedit.Result.{
  Result, ok, throw_if, ◌>>=◌, ◌>>◌, JsonPath, prop, map_indexed, duplicate_verification_check,
  verification_state_mismatch, missing_verification_time,
}
use submittedit.Value.{Value, get, has_own}
use submittedit.Value.Read.{as_record, assert_keys, parse_array, parse_enum, parse_optional}
use submittedit.Host.{Host}
use submittedit.Types.{
  verification_check_names, lifecycle_stages, derived_receipt_statuses, passed, failed,
  VerificationCheck, VerificationResult, not_verified, verified, verification_failure,
  VerificationState, Receipt,
}
use submittedit.Types.EnumNames.{check_name_text}
use submittedit.Normalize.{normalize_optional_text, normalize_hash, normalize_schema_version}
use submittedit.Normalize.Timestamp.{normalize_timestamp}
use submittedit.Schema.Tables.{verification_results, state_results}
use submittedit.Schema.Sorting.{sort_by, has_repeated}
use submittedit.Schema.Envelope.{parse_event_envelope, parse_public_key_descriptor}

abbrev pub has_passed : VerificationCheck → Bool
has_passed c = elim c.result [ passed ↦ true | _ ↦ false ]

abbrev pub has_failed : VerificationCheck → Bool
has_failed c = elim c.result [ failed ↦ true | _ ↦ false ]

abbrev is_empty : List VerificationCheck → Bool
is_empty [] = true
is_empty (c ∷ cs) = false

-- The three tests of a claimed result against the checks.
unfoldable pub contradicts_checks : VerificationResult → List VerificationCheck → Bool
contradicts_checks verification_failure checks = not (any has_failed checks)
contradicts_checks verified checks = not (not (is_empty checks) && all has_passed checks)
contradicts_checks not_verified checks = any has_failed checks

abbrev pub is_not_verified : VerificationResult → Bool
is_not_verified not_verified = true
is_not_verified _ = false

unfoldable pub sort_checks : List VerificationCheck → List VerificationCheck
unfolding sort_by compare_canonical_text check_name_text
sort_checks =
    sort_by (λ c d. compare_canonical_text (check_name_text c.check) (check_name_text d.check))

module _ (host : Host) where
  unfoldable pub parse_verification_check : Value → JsonPath → Result VerificationCheck
  parse_verification_check input path = do
    value ← as_record input path
    assert_keys value (u "check" ∷ u "result" ∷ []) (u "detail" ∷ []) path
    check ← parse_enum (get (u "check") value) verification_check_names (prop path "check")
    detail ←
        parse_optional (u "detail") value λ v. normalize_optional_text host v (prop path "detail")
    result ← parse_enum (get (u "result") value) verification_results (prop path "result")
    ok (record { check = check; detail = detail; result = result })

  unfoldable pub parse_verification_state : Value → JsonPath → Result VerificationState
  parse_verification_state input path = do
    value ← as_record input path
    assert_keys value (u "checks" ∷ u "result" ∷ []) (u "verifiedAt" ∷ []) path
    checks ← parse_array (get (u "checks") value) (prop path "checks")
    checks ← map_indexed parse_verification_check (prop path "checks") checks
    let sorted = sort_checks checks
    throw_if (has_repeated (map (λ c. check_name_text c.check) sorted)) duplicate_verification_check
        (prop path "checks")
    result ← parse_enum (get (u "result") value) state_results (prop path "result")
    throw_if (contradicts_checks result sorted) verification_state_mismatch path
    throw_if (not (is_not_verified result) && not (has_own (u "verifiedAt") value))
        missing_verification_time path
    verified_at ←
        parse_optional (u "verifiedAt") value λ v. normalize_timestamp v (prop path "verifiedAt")
    ok (record { checks = sorted; result = result; verified_at = verified_at })

  unfoldable pub parse_receipt_structure : Value → JsonPath → Result Receipt
  parse_receipt_structure input path = do
    value ← as_record input path
    assert_keys value
        (u "createdAt"
          ∷ u "currentStage"
          ∷ u "derivedStatus"
          ∷ u "events"
          ∷ u "extensionPublicKey"
          ∷ u "receiptId"
          ∷ u "schemaVersion"
          ∷ u "verification"
          ∷ [])
        [] path
    created_at ← normalize_timestamp (get (u "createdAt") value) (prop path "createdAt")
    current_stage ←
        parse_enum (get (u "currentStage") value) lifecycle_stages (prop path "currentStage")
    derived_status ←
        parse_enum (get (u "derivedStatus") value) derived_receipt_statuses
          (prop path "derivedStatus")
    events ← parse_array (get (u "events") value) (prop path "events")
    events ← map_indexed (parse_event_envelope host) (prop path "events") events
    key ←
        parse_public_key_descriptor host (get (u "extensionPublicKey") value)
          (prop path "extensionPublicKey")
    receipt_id ← normalize_hash (get (u "receiptId") value) (prop path "receiptId")
    schema_version ←
        normalize_schema_version (get (u "schemaVersion") value) (prop path "schemaVersion")
    verification ←
        parse_verification_state (get (u "verification") value) (prop path "verification")
    ok (record {
      created_at = created_at;
      current_stage = current_stage;
      derived_status = derived_status;
      events = events;
      extension_public_key = key;
      receipt_id = receipt_id;
      schema_version = schema_version;
      verification = verification;
    })
