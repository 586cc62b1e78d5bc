-- ===== src/Hash.antt =====
-- packages/receipt-core/src/hash.ts: domain-separated Keccak-256 of canonical texts.
pub mod Domains
use submittedit.Common.{◌∷◌, ◌++◌}
use submittedit.Text.{Text, u}
use submittedit.Result.{Result, ok, ◌>>=◌}
use submittedit.Value.{Value}
use submittedit.Host.{Host}
use submittedit.Types.{HashHex}
use submittedit.Canonical.Json.{canonicalize, utf8}

pub data HashDomain : Type 0 where
  authority_signature chain_anchor event extension_signature : HashDomain

-- `HASH_DOMAINS`.
unfoldable pub hash_domains : HashDomain → Text
unfolding u
hash_domains authority_signature = u "SUBMITTEDIT/AUTHORITY-SIGNATURE/1"
hash_domains chain_anchor = u "SUBMITTEDIT/CHAIN-ANCHOR/1"
hash_domains event = u "SUBMITTEDIT/RECEIPT-EVENT/1"
hash_domains extension_signature = u "SUBMITTEDIT/EXTENSION-SIGNATURE/1"

module _ (host : Host) where
  unfoldable pub create_domain_separated_preimage : HashDomain → Value → Result Text
  unfolding hash_domains canonicalize
  create_domain_separated_preimage domain value = do
    text ← canonicalize host value
    ok (hash_domains domain ++ (0 ∷ text))

  unfoldable pub hash_canonical : HashDomain → Value → Result HashHex
  unfolding create_domain_separated_preimage utf8 u
  hash_canonical domain value = do
    preimage ← create_domain_separated_preimage domain value
    ok (u "0x" ++ host.keccak_256_hex (utf8 preimage))
