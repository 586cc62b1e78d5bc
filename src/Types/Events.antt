-- ===== src/Types/Events.antt =====
-- packages/receipt-core/src/types.ts, `SubmissionAttempt` to `ReceiptInput`: events, signatures,
-- anchors and receipts.
use submittedit.Common.{ℕ, Option, List}
use submittedit.Text.{Text}
use submittedit.Types.Stages.{
  EventStage, attempted, site_confirmed, authority_accepted, authority_rejected, LifecycleStage,
  DerivedReceiptStatus, VerificationCheckName, HashHex,
}
use submittedit.Types.Capture.{
  FormEncoding, OriginDescriptor, FormDescriptor, CapturedField, ExcludedFieldDescriptor,
  PrivacyFlags,
}

pub data SubmissionTrigger : Type 0 where
  form_submit request_observed : SubmissionTrigger

pub record SubmissionAttempt : Type 0 where
  pub encoding : FormEncoding
  pub method : Text
  pub target_url : Text
  pub trigger : SubmissionTrigger

pub data EvidenceType : Type 0 where
  confirmation_page inline_message redirect download : EvidenceType

pub record SiteConfirmation : Type 0 where
  pub evidence_type : EvidenceType
  pub message : Option Text
  pub page_url : Text
  pub reference : Option Text

pub data Outcome : Type 0 where
  outcome_accepted outcome_rejected : Outcome

pub record AuthorityAcknowledgment : Type 0 where
  pub acknowledged_at : Text
  pub authority_id : Text
  pub outcome : Outcome
  pub reason : Option Text
  pub reference : Option Text

pub record EventCoreBase : Type 0 where
  pub occurred_at : Text
  pub previous_event_hash : HashHex
  pub receipt_id : HashHex
  pub schema_version : Text

pub record AttemptedDetails : Type 0 where
  pub captured_fields : List CapturedField
  pub excluded_fields : List ExcludedFieldDescriptor
  pub form_descriptor : FormDescriptor
  pub origin : OriginDescriptor
  pub privacy_flags : PrivacyFlags
  pub submission_attempt : SubmissionAttempt

-- What an event core holds beside its base, by stage.
pub data EventDetails : Type 0 where
  attempt : AttemptedDetails → EventDetails
  confirmation : SiteConfirmation → EventDetails
  acceptance rejection : AuthorityAcknowledgment → EventDetails

pub record LifecycleEventCore : Type 0 where
  pub base : EventCoreBase
  pub open base use *
  pub details : EventDetails

abbrev pub stage_of_details : EventDetails → EventStage
stage_of_details (attempt d) = attempted
stage_of_details (confirmation c) = site_confirmed
stage_of_details (acceptance a) = authority_accepted
stage_of_details (rejection a) = authority_rejected

-- `core.stage`.
abbrev pub stage : LifecycleEventCore → EventStage
stage core = stage_of_details core.details

pub record PublicKeyDescriptor : Type 0 where
  pub key_id : Text
  pub value : Text

pub data Signer : Type 0 where
  extension authority : Signer

pub record SignatureEnvelope : Type 0 where
  pub key_id : Text
  pub payload_hash : HashHex
  pub signature : Text
  pub signer : Signer

pub record ChainAnchorMetadata : Type 0 where
  pub anchored_at : Text
  pub block_number : Text
  pub chain_id : ℕ
  pub contract_address : Text
  pub transaction_hash : HashHex

pub record LifecycleEventEnvelope : Type 0 where
  pub authority_signature : Option SignatureEnvelope
  pub chain_anchor : Option ChainAnchorMetadata
  pub core : LifecycleEventCore
  pub event_hash : HashHex
  pub extension_signature : Option SignatureEnvelope

pub data CheckResult : Type 0 where
  not_run passed failed : CheckResult

pub record VerificationCheck : Type 0 where
  pub check : VerificationCheckName
  pub detail : Option Text
  pub result : CheckResult

pub data VerificationResult : Type 0 where
  not_verified verified verification_failure : VerificationResult

pub record VerificationState : Type 0 where
  pub checks : List VerificationCheck
  pub result : VerificationResult
  pub verified_at : Option Text

pub record Receipt : Type 0 where
  pub created_at : Text
  pub current_stage : LifecycleStage
  pub derived_status : DerivedReceiptStatus
  pub events : List LifecycleEventEnvelope
  pub extension_public_key : PublicKeyDescriptor
  pub receipt_id : HashHex
  pub schema_version : Text
  pub verification : VerificationState

pub record ReceiptInput : Type 0 where
  pub created_at : Text
  pub events : List LifecycleEventEnvelope
  pub extension_public_key : PublicKeyDescriptor
  pub receipt_id : HashHex
  pub schema_version : Text
  pub verification : VerificationState
