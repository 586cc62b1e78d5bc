-- ===== src/Normalize/Stable.antt =====
-- packages/receipt-core/src/normalize.ts: the normalizers of text, hashes, addresses, versions and
-- integers, applied to what they have returned.
use submittedit.Common.{
  ℕ, suc, ◌≡◌, refl, ap, ◌∙◌, Bool, true, false, [], ◌∷◌, map, arith, ◌==◌, pos,
}
use submittedit.Common.Lists.{all, any, length}
use submittedit.Text.{Text, is_hex, to_lower}
use submittedit.Result.{ok, JsonPath}
use submittedit.Value.{Value, str, num}
use submittedit.Host.{Host, IsLawful, is_printable}
use submittedit.Normalize.{
  unify_newlines, normalize_text, is_prefixed_hex, normalize_non_empty_text,
  normalize_optional_text, normalize_schema_version, normalize_hash, normalize_address,
  normalize_base64_url, normalize_decimal_string, normalize_non_negative_safe_integer,
  normalize_positive_safe_integer,
}

-- After `unify_newlines` there is no carriage return, and without one it does nothing.
newlines_unified : (b : Bool) (s : Text) → any (λ c. c == 13) (unify_newlines b s) ≡ false
unfolding unify_newlines
newlines_unified b [] = refl
newlines_unified b (c ∷ s) = ground (arith, newlines_unified (c == 13) s)

unify_newlines-eq_self : (s : Text) → any (λ c. c == 13) s ≡ false → unify_newlines false s ≡ s
unfolding unify_newlines
unify_newlines-eq_self [] h = refl
unify_newlines-eq_self (c ∷ s) h = ground (arith, unify_newlines-eq_self s)

no_returns : (s : Text) → all is_printable s ≡ true → any (λ c. c == 13) s ≡ false
unfolding is_printable
no_returns [] h = refl
no_returns (c ∷ s) h = ground (arith, no_returns s)

module _ (host : Host) (lawful : IsLawful host) where
  -- Normalizing a normalized text changes nothing.
  pub normalize_text_idem :
      (s : Text) → normalize_text host (normalize_text host s) ≡ normalize_text host s
  unfolding normalize_text
  normalize_text_idem s =
      let clean = lawful.nfc_newlines (unify_newlines false s) (newlines_unified false s) in
      ap host.nfc (unify_newlines-eq_self _ clean) ∙ lawful.nfc_idem (unify_newlines false s)

  pub normalize_text_printable : (s : Text) → all is_printable s ≡ true → normalize_text host s ≡ s
  unfolding normalize_text
  normalize_text_printable s h =
      ap host.nfc (unify_newlines-eq_self s (no_returns s h)) ∙ lawful.nfc_ascii s h

  pub normalize_optional_text_stable :
      (v : Value) (p q : JsonPath) (t : Text)
      → normalize_optional_text host v p ≡ ok t
      → normalize_optional_text host (str t) q ≡ ok t
  unfolding normalize_optional_text
  normalize_optional_text_stable (str s) p q t h = ground (arith, normalize_text_idem s)
  normalize_optional_text_stable _ p q t h = cc

  pub normalize_non_empty_text_stable :
      (v : Value) (p q : JsonPath) (t : Text)
      → normalize_non_empty_text host v p ≡ ok t
      → normalize_non_empty_text host (str t) q ≡ ok t
  unfolding normalize_non_empty_text
  normalize_non_empty_text_stable (str s) p q t h = ground (arith, normalize_text_idem s)
  normalize_non_empty_text_stable _ p q t h = cc

to_lower_hex : (c : ℕ) → is_hex c ≡ true → is_hex (to_lower c) ≡ true
unfolding is_hex to_lower
to_lower_hex c h = ground arith

to_lower_idem : (c : ℕ) → to_lower (to_lower c) ≡ to_lower c
unfolding to_lower
to_lower_idem c = ground arith

all-map-to_lower : (s : Text) → all is_hex s ≡ true → all is_hex (map to_lower s) ≡ true
all-map-to_lower [] h = refl
all-map-to_lower (c ∷ s) h = ground (arith, to_lower_hex c, all-map-to_lower s)

map-to_lower_idem : (s : Text) → map to_lower (map to_lower s) ≡ map to_lower s
map-to_lower_idem [] = refl
map-to_lower_idem (c ∷ s) = cc (to_lower_idem c, map-to_lower_idem s)

length-map_lower : (s : Text) → length (map to_lower s) ≡ length s
length-map_lower [] = refl
length-map_lower (c ∷ s) = ap suc (length-map_lower s)

to_lower_prefix : (to_lower b'0' ≡ b'0') × (to_lower b'x' ≡ b'x')
unfolding to_lower
to_lower_prefix = (refl, refl)

is_prefixed_hex-to_lower :
    (k : ℕ) (s : Text) → is_prefixed_hex k s ≡ true → is_prefixed_hex k (map to_lower s) ≡ true
unfolding is_prefixed_hex
is_prefixed_hex-to_lower k [] h = cc
is_prefixed_hex-to_lower k (a ∷ []) h = cc
is_prefixed_hex-to_lower k (a ∷ b ∷ s) h =
    ground (arith, to_lower_prefix.0, to_lower_prefix.1, length-map_lower s, all-map-to_lower s)

pub normalize_hash_stable :
    (v : Value) (p q : JsonPath) (t : Text)
    → normalize_hash v p ≡ ok t
    → normalize_hash (str t) q ≡ ok t
unfolding normalize_hash
normalize_hash_stable (str s) p q t h =
    ground (arith, is_prefixed_hex-to_lower 64 s, map-to_lower_idem s)
normalize_hash_stable _ p q t h = cc

pub normalize_address_stable :
    (v : Value) (p q : JsonPath) (t : Text)
    → normalize_address v p ≡ ok t
    → normalize_address (str t) q ≡ ok t
unfolding normalize_address
normalize_address_stable (str s) p q t h =
    ground (arith, is_prefixed_hex-to_lower 40 s, map-to_lower_idem s)
normalize_address_stable _ p q t h = cc

pub normalize_schema_version_stable :
    (v : Value) (p q : JsonPath) (t : Text)
    → normalize_schema_version v p ≡ ok t
    → normalize_schema_version (str t) q ≡ ok t
unfolding normalize_schema_version
normalize_schema_version_stable (str s) p q t h = ground arith
normalize_schema_version_stable _ p q t h = cc

pub normalize_base64_url_stable :
    (v : Value) (p q : JsonPath) (t : Text)
    → normalize_base64_url v p ≡ ok t
    → normalize_base64_url (str t) q ≡ ok t
unfolding normalize_base64_url
normalize_base64_url_stable (str s) p q t h = ground arith
normalize_base64_url_stable _ p q t h = cc

pub normalize_decimal_string_stable :
    (v : Value) (p q : JsonPath) (t : Text)
    → normalize_decimal_string v p ≡ ok t
    → normalize_decimal_string (str t) q ≡ ok t
unfolding normalize_decimal_string
normalize_decimal_string_stable (str s) p q t h = ground arith
normalize_decimal_string_stable _ p q t h = cc

pub normalize_non_negative_safe_integer_stable :
    (v : Value) (p q : JsonPath) (n : ℕ)
    → normalize_non_negative_safe_integer v p ≡ ok n
    → normalize_non_negative_safe_integer (num (pos n)) q ≡ ok n
unfolding normalize_non_negative_safe_integer
normalize_non_negative_safe_integer_stable (num (pos m)) p q n h = ground arith
normalize_non_negative_safe_integer_stable _ p q n h = cc

pub normalize_positive_safe_integer_stable :
    (v : Value) (p q : JsonPath) (n : ℕ)
    → normalize_positive_safe_integer v p ≡ ok n
    → normalize_positive_safe_integer (num (pos n)) q ≡ ok n
unfolding normalize_positive_safe_integer
normalize_positive_safe_integer_stable (num (pos m)) p q n h = ground arith
normalize_positive_safe_integer_stable _ p q n h = cc
