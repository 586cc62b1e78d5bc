-- ===== src/Types/Capture.antt =====
-- packages/receipt-core/src/types.ts, `OriginDescriptor` to `PrivacyFlags`: the form, its captured
-- and its excluded fields.
use submittedit.Common.{ℕ, Bool, Option, List}
use submittedit.Text.{Text}

pub record OriginDescriptor : Type 0 where
  pub origin : Text
  pub page_url : Text

pub data FormEncoding : Type 0 where
  urlencoded multipart text_plain application_json other_encoding : FormEncoding

pub record FormDescriptor : Type 0 where
  pub action_url : Text
  pub encoding : FormEncoding
  pub form_id : Option Text
  pub form_name : Option Text
  pub method : Text

pub data ValueControlType : Type 0 where
  text textarea hidden checkbox radio select_one select_multiple : ValueControlType

pub data FieldControlType : Type 0 where
  value_control : ValueControlType → FieldControlType
  password file : FieldControlType

pub record CapturedValueField : Type 0 where
  pub control_type : ValueControlType
  pub field_id : Text
  pub name : Text
  pub values : List Text

pub record CapturedFileMetadata : Type 0 where
  pub last_modified : Option Text
  pub media_type : Option Text
  pub name : Text
  pub size : ℕ

pub record CapturedFileField : Type 0 where
  pub field_id : Text
  pub files : List CapturedFileMetadata
  pub name : Text

pub data CapturedField : Type 0 where
  value_field : CapturedValueField → CapturedField
  file_field : CapturedFileField → CapturedField

pub data ExclusionReason : Type 0 where
  password_control sensitive_hidden_token autofill_secret file_metadata_not_opted_in
        explicitly_excluded :
      ExclusionReason

pub record ExcludedFieldDescriptor : Type 0 where
  pub control_type : FieldControlType
  pub field_id : Text
  pub name : Option Text
  pub reason : ExclusionReason

-- `rawValuesOffchain` and `sensitiveFieldsExcluded` have the type `true`.
pub record PrivacyFlags : Type 0 where
  pub file_metadata_included : Bool
