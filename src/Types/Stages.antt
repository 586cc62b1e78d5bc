-- ===== src/Types/Stages.antt =====
-- packages/receipt-core/src/types.ts, `EVENT_STAGES` to `VerificationCheckName`: stages, statuses and
-- names of checks.
use submittedit.Common.{List, [], ◌∷◌, map}
use submittedit.Text.{Text, u}

pub data EventStage : Type 0 where
  attempted site_confirmed authority_accepted authority_rejected : EventStage

-- `NONE`, or the stage of the last event.
pub data LifecycleStage : Type 0 where
  no_event : LifecycleStage
  at : EventStage → LifecycleStage

pub data DerivedReceiptStatus : Type 0 where
  prepared pending_acceptance accepted rejected verification_failed : DerivedReceiptStatus

pub data VerificationCheckName : Type 0 where
  decryption schema event_hash event_link extension_signature authority_signature chain_anchor :
      VerificationCheckName

-- A list of names that `as const` makes an enumeration.
abbrev pub Names : Type 0 → Type 0
Names E = List (Text × E)

unfoldable pub event_stages : Names EventStage
unfolding u
event_stages =
    (u "ATTEMPTED", attempted)
    ∷ (u "SITE_CONFIRMED", site_confirmed)
    ∷ (u "AUTHORITY_ACCEPTED", authority_accepted)
    ∷ (u "AUTHORITY_REJECTED", authority_rejected)
    ∷ []

unfoldable pub lifecycle_stages : Names LifecycleStage
unfolding event_stages
lifecycle_stages = (u "NONE", no_event) ∷ map (λ (n, s). (n, at s)) event_stages

unfoldable pub derived_receipt_statuses : Names DerivedReceiptStatus
unfolding u
derived_receipt_statuses =
    (u "PREPARED", prepared)
    ∷ (u "PENDING_ACCEPTANCE", pending_acceptance)
    ∷ (u "ACCEPTED", accepted)
    ∷ (u "REJECTED", rejected)
    ∷ (u "VERIFICATION_FAILED", verification_failed)
    ∷ []

unfoldable pub verification_check_names : Names VerificationCheckName
unfolding u
verification_check_names =
    (u "DECRYPTION", decryption)
    ∷ (u "SCHEMA", schema)
    ∷ (u "EVENT_HASH", event_hash)
    ∷ (u "EVENT_LINK", event_link)
    ∷ (u "EXTENSION_SIGNATURE", extension_signature)
    ∷ (u "AUTHORITY_SIGNATURE", authority_signature)
    ∷ (u "CHAIN_ANCHOR", chain_anchor)
    ∷ []

abbrev pub HashHex : Type 0
HashHex = Text

-- `0x` and 64 zeros.
unfoldable pub zero_hash : HashHex
unfolding u
zero_hash = u "0x0000000000000000000000000000000000000000000000000000000000000000"
