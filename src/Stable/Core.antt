-- ===== src/Stable/Core.antt =====
-- packages/receipt-core/src/schema.ts, `parseSiteConfirmation` and `parseAuthorityAcknowledgment`,
-- applied to what they have returned.
use submittedit.Common.{◌≡◌, arith, Option, none, some}
use submittedit.Text.{Text, u}
use submittedit.Result.{ok, JsonPath, prop}
use submittedit.Value.{str, obj, get}
use submittedit.Value.Read.{reading, as_record}
use submittedit.Host.{Host, IsLawful}
use submittedit.Types.{SiteConfirmation, EvidenceType, Outcome, AuthorityAcknowledgment}
use submittedit.Types.Values.{confirmation_value, acknowledgment_value}
use submittedit.Normalize.{normalize_url, normalize_non_empty_text, normalize_optional_text}
use submittedit.Normalize.Timestamp.{normalize_timestamp}
use submittedit.Normalize.Instants.{normalize_timestamp_stable}
use submittedit.Normalize.Stable.{normalize_non_empty_text_stable}
use submittedit.Normalize.Urls.{normalize_url_stable}
use submittedit.Schema.Core.{parse_site_confirmation, parse_authority_acknowledgment}
use submittedit.Stable.Enums.{parse-evidence_name, parse-outcome_name}
use submittedit.Stable.Lists.{IsStableOption, ReadsStable}
use submittedit.Stable.Form.{optional_text_stable}

module _ (host : Host) where
  reparse_confirmation :
      (kind : EvidenceType) (message : Option Text) (url : Text) (reference : Option Text)
      (q : JsonPath)
      → IsStableOption (normalize_optional_text host) str message
      → normalize_url host (str url) (prop q "pageUrl") ≡ ok url
      → IsStableOption (normalize_optional_text host) str reference
      → let c : SiteConfirmation = record {
        evidence_type = kind;
        message = message;
        page_url = url;
        reference = reference;
      } in
        parse_site_confirmation host (confirmation_value c) q ≡ ok c
  unfolding parse_site_confirmation confirmation_value reading
  reparse_confirmation k none l none q a b c = simp (parse-evidence_name, b)
  reparse_confirmation k (some m) l none q a b c = simp (parse-evidence_name, a, b)
  reparse_confirmation k none l (some r) q a b c = simp (parse-evidence_name, b, c)
  reparse_confirmation k (some m) l (some r) q a b c = simp (parse-evidence_name, a, b, c)

  reparse_acknowledgment :
      (time id : Text) (outcome : Outcome) (reason reference : Option Text) (q : JsonPath)
      → normalize_timestamp (str time) (prop q "acknowledgedAt") ≡ ok time
      → normalize_non_empty_text host (str id) (prop q "authorityId") ≡ ok id
      → IsStableOption (normalize_optional_text host) str reason
      → IsStableOption (normalize_optional_text host) str reference
      → let a : AuthorityAcknowledgment = record {
        acknowledged_at = time;
        authority_id = id;
        outcome = outcome;
        reason = reason;
        reference = reference;
      } in
        parse_authority_acknowledgment host (acknowledgment_value a) q ≡ ok a
  unfolding parse_authority_acknowledgment acknowledgment_value reading
  reparse_acknowledgment t i o none none q a b c d = simp (parse-outcome_name, a, b)
  reparse_acknowledgment t i o (some r) none q a b c d = simp (parse-outcome_name, a, b, c)
  reparse_acknowledgment t i o none (some r) q a b c d = simp (parse-outcome_name, a, b, d)
  reparse_acknowledgment t i o (some r) (some s) q a b c d = simp (parse-outcome_name, a, b, c, d)

module _ (host : Host) (lawful : IsLawful host) where
  pub parse_site_confirmation_stable : ReadsStable (parse_site_confirmation host) confirmation_value
  unfolding parse_site_confirmation as_record
  parse_site_confirmation_stable (obj fs) p c h q =
      reparse_confirmation host c.evidence_type c.message c.page_url c.reference q
        (optional_text_stable host lawful (u "message") fs (prop p "message") c.message
          (ground arith))
        (normalize_url_stable host lawful (get (u "pageUrl") fs) (prop p "pageUrl")
          (prop q "pageUrl") c.page_url (ground arith))
        (optional_text_stable host lawful (u "reference") fs (prop p "reference") c.reference
          (ground arith))
  parse_site_confirmation_stable _ p c h q = cc

  pub parse_authority_acknowledgment_stable :
      ReadsStable (parse_authority_acknowledgment host) acknowledgment_value
  unfolding parse_authority_acknowledgment as_record
  parse_authority_acknowledgment_stable (obj fs) p a h q =
      reparse_acknowledgment host a.acknowledged_at a.authority_id a.outcome a.reason a.reference q
        (normalize_timestamp_stable (get (u "acknowledgedAt") fs) (prop p "acknowledgedAt")
          (prop q "acknowledgedAt") a.acknowledged_at (ground arith))
        (normalize_non_empty_text_stable host lawful (get (u "authorityId") fs)
          (prop p "authorityId") (prop q "authorityId") a.authority_id (ground arith))
        (optional_text_stable host lawful (u "reason") fs (prop p "reason") a.reason (ground arith))
        (optional_text_stable host lawful (u "reference") fs (prop p "reference") a.reference
          (ground arith))
  parse_authority_acknowledgment_stable _ p a h q = cc
