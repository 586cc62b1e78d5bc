-- ===== src/Hash/Domains.antt =====
-- packages/receipt-core/src/hash.ts, `createDomainSeparatedPreimage`: the domains of preimages.
use submittedit.Common.{◌≡◌, refl, ap, arith, ℕ, zero, suc, [], ◌∷◌, ◌++◌}
use submittedit.Text.{Text, u}
use submittedit.Result.{ok, invert}
use submittedit.Value.{Value}
use submittedit.Host.{Host}
use submittedit.Canonical.Json.{canonicalize}
use submittedit.Hash.{
  HashDomain, authority_signature, chain_anchor, event, extension_signature, hash_domains,
  create_domain_separated_preimage,
}

unfoldable unit_at : ℕ → Text → ℕ
unit_at i [] = 0
unit_at zero (c ∷ s) = c
unit_at (suc i) (c ∷ s) = unit_at i s

after_prefix : (xs s t : Text) → (xs ++ (0 ∷ s)) ≡ (xs ++ (0 ∷ t)) → s ≡ t
after_prefix [] s t h = cc
after_prefix (x ∷ xs) s t h = after_prefix xs s t cc

prefix_injective :
    (d d' : HashDomain) (s t : Text)
    → (hash_domains d ++ (0 ∷ s)) ≡ (hash_domains d' ++ (0 ∷ t))
    → (d ≡ d') × (s ≡ t)
unfolding hash_domains u unit_at
prefix_injective authority_signature authority_signature s t h =
    (refl, after_prefix (hash_domains authority_signature) s t h)
prefix_injective chain_anchor chain_anchor s t h =
    (refl, after_prefix (hash_domains chain_anchor) s t h)
prefix_injective event event s t h = (refl, after_prefix (hash_domains event) s t h)
prefix_injective extension_signature extension_signature s t h =
    (refl, after_prefix (hash_domains extension_signature) s t h)
prefix_injective _ _ s t h = let e = ap (unit_at 12) h in absurd (omega arith)

module _ (host : Host) where
  -- If two values have the same preimage, each in its domain, then the domains are the same and the
  -- values have the same canonical text.
  pub preimage_injective :
      (d d' : HashDomain) (v v' : Value) (p : Text)
      → create_domain_separated_preimage host d v ≡ ok p
      → create_domain_separated_preimage host d' v' ≡ ok p
      → (d ≡ d') × (canonicalize host v ≡ canonicalize host v')
  unfolding create_domain_separated_preimage
  preimage_injective d d' v v' p h h' = invert (canonicalize host v) _ h λ s read made.
      invert (canonicalize host v') _ h'
        λ t read' made'. let (e, f) = prefix_injective d d' s t (ground arith) in (e, ground arith)
