-- ===== src/Tests/Platform.antt =====
-- A platform for the tests: texts that are normalized already, three URLs of one site, and a digest
-- that is short to compute.
use submittedit.Common.{
  ℕ, zero, suc, ◌+◌, ◌*◌, ◌/◌, ◌%◌, ◌<◌, true, Option, none, some, List, [], ◌∷◌, ◌≡◌, ◌⊎◌, inl,
  inr, refl, ap, arith, map, if◌then◌else◌,
}
use submittedit.Common.Lists.{all, length}
use submittedit.Text.{Text, u, text_eq, is_hex, to_lower}
use submittedit.Host.{Host, Url, IsLawful, is_printable}
use submittedit.Canonical.Json.{hex_digit}

abbrev page : Url
page = record {
  protocol = u "https:";
  username = [];
  password = [];
  origin = u "https://a.gov";
  href_without_hash = u "https://a.gov/form";
}

abbrev site : Url
site = record {
  protocol = u "https:";
  username = [];
  password = [];
  origin = u "https://a.gov";
  href_without_hash = u "https://a.gov/";
}

-- The page, its site, and the site's origin.
unfoldable pub parse_site_url : Text → Option Url
unfolding text_eq u
parse_site_url s =
    if text_eq s (u "https://a.gov/form")
    then some page
    else if text_eq s (u "https://a.gov/")
    then some site
    else if text_eq s (u "https://a.gov")
    then some site
    else none

unfoldable pub digits : ℕ → ℕ → Text
unfolding hex_digit
digits zero n = []
digits (suc k) n = hex_digit (n % 16) ∷ digits k (n / 16)

-- A checksum of the bytes.
unfoldable pub checksum : ℕ → List ℕ → ℕ
checksum acc [] = acc
checksum acc (b ∷ bs) = checksum ((acc * 257 + b + 1) % 1000000007) bs

abbrev pub sample_host : Host
sample_host = record {
  nfc = λ s. s;
  lower_case = map to_lower;
  parse_url = parse_site_url;
  keccak_256_hex = λ bytes. digits 64 (checksum 7 bytes);
}

length-digits : (k n : ℕ) → length (digits k n) ≡ k
unfolding digits
length-digits zero n = refl
length-digits (suc k) n = ap suc (length-digits k (n / 16))

hex_digit_lem :
    (n : ℕ) → n < 16 → (is_hex (hex_digit n) ≡ true) × (to_lower (hex_digit n) ≡ hex_digit n)
unfolding is_hex hex_digit to_lower
hex_digit_lem n h = ground arith

all-is_hex-digits : (k n : ℕ) → all is_hex (digits k n) ≡ true
unfolding digits
all-is_hex-digits zero n = refl
all-is_hex-digits (suc k) n =
    let below : n % 16 < 16 = omega arith in
    rw (all-is_hex-digits k (n / 16), (hex_digit_lem (n % 16) below).0) refl

map-to_lower-digits : (k n : ℕ) → map to_lower (digits k n) ≡ digits k n
unfolding digits
map-to_lower-digits zero n = refl
map-to_lower-digits (suc k) n =
    let below : n % 16 < 16 = omega arith in
    rw (map-to_lower-digits k (n / 16), (hex_digit_lem (n % 16) below).1) refl

-- The URLs that are known.
known : (s : Text) (x : Url) → parse_site_url s ≡ some x → (x ≡ page) ⊎ (x ≡ site)
unfolding parse_site_url
known s x h = ground arith

origin_lem :
    (x : Url)
    → (x ≡ page) ⊎ (x ≡ site)
    → (root_url : Url) × (parse_site_url x.origin ≡ some root_url)
      × (root_url.protocol ≡ x.protocol)
      × (root_url.username ≡ [])
      × (root_url.password ≡ [])
      × (root_url.origin ≡ x.origin)
unfolding parse_site_url
origin_lem x (inl e) = rw e (site, refl, refl, refl, refl, refl)
origin_lem x (inr e) = rw e (site, refl, refl, refl, refl, refl)

printable_lem :
    (x : Url)
    → (x ≡ page) ⊎ (x ≡ site)
    → (all is_printable x.href_without_hash ≡ true)
      × (all is_printable x.origin ≡ true)
      × (parse_site_url x.href_without_hash ≡ some x)
unfolding parse_site_url is_printable
printable_lem x (inl e) = rw e (refl, refl, refl)
printable_lem x (inr e) = rw e (refl, refl, refl)

pub sample-IsLawful : IsLawful sample_host
sample-IsLawful = record {
  nfc_idem = λ s. refl;
  nfc_ascii = λ s h. refl;
  nfc_newlines = λ s h. h;
  href_printable = λ s x h scheme. (printable_lem x (known s x h)).0;
  href_parses = λ s x h scheme. (printable_lem x (known s x h)).2;
  origin_printable = λ s x h scheme. (printable_lem x (known s x h)).1;
  origin_parses = λ s x h scheme. origin_lem x (known s x h);
  digest_length = λ bytes. length-digits 64 (checksum 7 bytes);
  digest_hex = λ bytes. all-is_hex-digits 64 (checksum 7 bytes);
  digest_lower = λ bytes. map-to_lower-digits 64 (checksum 7 bytes);
}
