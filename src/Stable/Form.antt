-- ===== src/Stable/Form.antt =====
-- packages/receipt-core/src/schema.ts, `parseOriginDescriptor` and `parseFormDescriptor`, applied to
-- what they have returned.
use submittedit.Common.{◌≡◌, arith, Option, none, some, inl, inr, Option-cases}
use submittedit.Text.{Text, u}
use submittedit.Text.Order.{text_eq_iff, text_eq_refl}
use submittedit.Result.{ok, JsonPath, prop}
use submittedit.Value.{Value, str, obj, Fields, get}
use submittedit.Value.Read.{reading, as_record, parse_optional}
use submittedit.Host.{Host, IsLawful}
use submittedit.Types.{OriginDescriptor, FormDescriptor, FormEncoding}
use submittedit.Stable.Lists.{IsStable, IsStableOption}
use submittedit.Stable.Enums.{parse-form_encoding_name, parse_optional-eq-some}
use submittedit.Types.Values.{origin_value, form_value}
use submittedit.Normalize.{
  normalize_origin, normalize_url, normalize_non_empty_text, normalize_optional_text,
  normalize_http_method,
}
use submittedit.Normalize.Stable.{normalize_non_empty_text_stable, normalize_optional_text_stable}
use submittedit.Normalize.Urls.{
  normalize_http_method_stable, normalize_origin_stable, normalize_url_stable,
}
use submittedit.Schema.Form.{origin_of, parse_origin_descriptor, parse_form_descriptor}

module _ (host : Host) where
  reparse_origin :
      (o : OriginDescriptor) (q : JsonPath)
      → normalize_origin host (str o.origin) (prop q "origin") ≡ ok o.origin
      → normalize_url host (str o.page_url) (prop q "pageUrl") ≡ ok o.page_url
      → origin_of (host.parse_url o.page_url) q ≡ ok o.origin
      → parse_origin_descriptor host (origin_value o) q ≡ ok o
  unfolding parse_origin_descriptor origin_value reading
  reparse_origin o q a b c = simp (a, b, c, text_eq_refl o.origin)

  reparse_form :
      (action_url method : Text) (encoding : FormEncoding) (id name : Option Text) (q : JsonPath)
      → normalize_url host (str action_url) (prop q "actionUrl") ≡ ok action_url
      → IsStableOption (normalize_non_empty_text host) str id
      → IsStableOption (normalize_non_empty_text host) str name
      → normalize_http_method host (str method) (prop q "method") ≡ ok method
      → let f : FormDescriptor = record {
        action_url = action_url;
        encoding = encoding;
        form_id = id;
        form_name = name;
        method = method;
      } in
        parse_form_descriptor host (form_value f) q ≡ ok f
  unfolding parse_form_descriptor form_value reading
  reparse_form u' m e none none q a b c d = simp (a, d, parse-form_encoding_name)
  reparse_form u' m e none (some n) q a b c d = simp (a, d, c, parse-form_encoding_name)
  reparse_form u' m e (some i) none q a b c d = simp (a, d, b, parse-form_encoding_name)
  reparse_form u' m e (some i) (some n) q a b c d = simp (a, d, b, c, parse-form_encoding_name)

module _ (host : Host) (lawful : IsLawful host) where
  pub parse_origin_descriptor-IsStable :
      (v : Value) (p : JsonPath) (o : OriginDescriptor)
      → parse_origin_descriptor host v p ≡ ok o
      → IsStable (parse_origin_descriptor host) origin_value o
  unfolding parse_origin_descriptor as_record
  parse_origin_descriptor-IsStable (obj fs) p o h q =
      reparse_origin host o q
        (normalize_origin_stable host lawful (get (u "origin") fs) (prop p "origin")
          (prop q "origin") o.origin (ground arith))
        (normalize_url_stable host lawful (get (u "pageUrl") fs) (prop p "pageUrl")
          (prop q "pageUrl") o.page_url (ground arith))
        (elim (Option-cases (host.parse_url o.page_url)) [
          | inl e ↦ ground arith
          | inr (url, e) ↦ ground (arith, text_eq_iff url.origin o.origin)
        ])
  parse_origin_descriptor-IsStable _ p o h q = cc

  pub optional_name_stable :
      (key : Text) (fs : Fields) (p : JsonPath) (o : Option Text)
      → parse_optional key fs (λ v. normalize_non_empty_text host v p) ≡ ok o
      → IsStableOption (normalize_non_empty_text host) str o
  optional_name_stable key fs p none h = tt
  optional_name_stable key fs p (some t) h = λ q.
      normalize_non_empty_text_stable host lawful (get key fs) p q t
        (parse_optional-eq-some key fs _ t h)

  pub optional_text_stable :
      (key : Text) (fs : Fields) (p : JsonPath) (o : Option Text)
      → parse_optional key fs (λ v. normalize_optional_text host v p) ≡ ok o
      → IsStableOption (normalize_optional_text host) str o
  optional_text_stable key fs p none h = tt
  optional_text_stable key fs p (some t) h = λ q.
      normalize_optional_text_stable host lawful (get key fs) p q t
        (parse_optional-eq-some key fs _ t h)

  pub parse_form_descriptor-IsStable :
      (v : Value) (p : JsonPath) (f : FormDescriptor)
      → parse_form_descriptor host v p ≡ ok f
      → IsStable (parse_form_descriptor host) form_value f
  unfolding parse_form_descriptor as_record
  parse_form_descriptor-IsStable (obj fs) p f h q =
      reparse_form host f.action_url f.method f.encoding f.form_id f.form_name q
        (normalize_url_stable host lawful (get (u "actionUrl") fs) (prop p "actionUrl")
          (prop q "actionUrl") f.action_url (ground arith))
        (optional_name_stable (u "formId") fs (prop p "formId") f.form_id (ground arith))
        (optional_name_stable (u "formName") fs (prop p "formName") f.form_name (ground arith))
        (normalize_http_method_stable host lawful (get (u "method") fs) (prop p "method")
          (prop q "method") f.method (ground arith))
  parse_form_descriptor-IsStable _ p f h q = cc
