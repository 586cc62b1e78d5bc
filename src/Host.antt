-- ===== src/Host.antt =====
-- What receipt-core takes from the JavaScript platform and from @noble/hashes, whose code is not in
-- the repository: Unicode normalization and case mapping, the WHATWG URL parser, and Keccak-256.
use submittedit.Common.{
  ℕ, Bool, true, false, ◌&&◌, Option, some, List, [], ◌≡◌, ◌⊎◌, map, ltb, ◌==◌,
}
use submittedit.Common.Lists.{all, any, length}
use submittedit.Text.{Text, u, is_hex, to_lower}

-- What the code reads of a `URL` object. `href_without_hash` is `toString()` after `hash = ""`.
pub record Url : Type 0 where
  pub protocol : Text
  pub username : Text
  pub password : Text
  pub origin : Text
  pub href_without_hash : Text

pub record Host : Type 0 where
  -- `s.normalize("NFC")`.
  pub nfc : Text → Text
  -- `s.toLowerCase()` on any text.
  pub lower_case : Text → Text
  -- `new URL(s)`, `none` where it throws.
  pub parse_url : Text → Option Url
  -- `bytesToHex(keccak_256(bytes))`.
  pub keccak_256_hex : List ℕ → Text

-- Printable ASCII, without the space.
unfoldable pub is_printable : ℕ → Bool
is_printable c = ltb 32 c && ltb c 127

-- What the code relies on: Unicode's and the URL standard's documented behaviour.
pub record IsLawful (host : Host) : Type 0 where
  -- Normalization is idempotent, keeps ASCII, and makes no carriage return.
  pub nfc_idem : (s : Text) → host.nfc (host.nfc s) ≡ host.nfc s
  pub nfc_ascii : (s : Text) → all is_printable s ≡ true → host.nfc s ≡ s
  pub nfc_newlines :
      (s : Text) → any (λ c. c == 13) s ≡ false → any (λ c. c == 13) (host.nfc s) ≡ false
  -- Where the scheme is HTTP or HTTPS, the serialization of a URL is printable ASCII and parses to
  -- the same URL, and so does that of its origin, without the user's name and password.
  pub href_printable :
      (s : Text) (url : Url)
      → host.parse_url s ≡ some url
      → (url.protocol ≡ u "http:") ⊎ (url.protocol ≡ u "https:")
      → all is_printable url.href_without_hash ≡ true
  pub href_parses :
      (s : Text) (url : Url)
      → host.parse_url s ≡ some url
      → (url.protocol ≡ u "http:") ⊎ (url.protocol ≡ u "https:")
      → host.parse_url url.href_without_hash ≡ some url
  pub origin_printable :
      (s : Text) (url : Url)
      → host.parse_url s ≡ some url
      → (url.protocol ≡ u "http:") ⊎ (url.protocol ≡ u "https:")
      → all is_printable url.origin ≡ true
  pub origin_parses :
      (s : Text) (url : Url)
      → host.parse_url s ≡ some url
      → (url.protocol ≡ u "http:") ⊎ (url.protocol ≡ u "https:")
      → (root_url : Url) × (host.parse_url url.origin ≡ some root_url)
        × (root_url.protocol ≡ url.protocol)
        × (root_url.username ≡ [])
        × (root_url.password ≡ [])
        × (root_url.origin ≡ url.origin)
  -- A digest has 32 bytes, which are written with 64 lower-case hexadecimal digits.
  pub digest_length : (bytes : List ℕ) → length (host.keccak_256_hex bytes) ≡ 64
  pub digest_hex : (bytes : List ℕ) → all is_hex (host.keccak_256_hex bytes) ≡ true
  pub digest_lower :
      (bytes : List ℕ) → map to_lower (host.keccak_256_hex bytes) ≡ host.keccak_256_hex bytes
