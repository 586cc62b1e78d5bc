-- ===== src/Normalize/Urls.antt =====
-- packages/receipt-core/src/normalize.ts, `normalizeHttpMethod`, `normalizeUrl` and
-- `normalizeOrigin`, applied to what they have returned.
use submittedit.Common.{ℕ, ◌≡◌, ◌⊎◌, refl, Bool, true, false, some, [], ◌∷◌, map, arith}
use submittedit.Common.Lists.{all}
use submittedit.Text.{Text, u, to_upper}
use submittedit.Text.Order.{text_eq_iff}
use submittedit.Result.{ok, invert, JsonPath}
use submittedit.Value.{Value, str}
use submittedit.Host.{Host, Url, IsLawful, is_printable}
use submittedit.Normalize.{
  last_is_space, normalize_text, is_token_char, is_run_of, has_outer_space, is_space,
  parse_http_url, normalize_origin, normalize_url, normalize_http_method,
}
use submittedit.Normalize.Stable.{normalize_text_printable}

to_upper_token : (c : ℕ) → is_token_char c ≡ true → is_token_char (to_upper c) ≡ true
unfolding is_token_char to_upper
to_upper_token c h = ground arith

to_upper_idem : (c : ℕ) → to_upper (to_upper c) ≡ to_upper c
unfolding to_upper
to_upper_idem c = ground arith

map-to_upper_idem : (s : Text) → map to_upper (map to_upper s) ≡ map to_upper s
map-to_upper_idem [] = refl
map-to_upper_idem (c ∷ s) = cc (to_upper_idem c, map-to_upper_idem s)

token_printable : (c : ℕ) → is_token_char c ≡ true → is_printable c ≡ true
unfolding is_token_char is_printable
token_printable c h = ground arith

all_token_printable : (s : Text) → all is_token_char s ≡ true → all is_printable s ≡ true
all_token_printable [] h = refl
all_token_printable (c ∷ s) h = ground (arith, token_printable c, all_token_printable s)

all_token_upper :
    (s : Text) → all is_token_char s ≡ true → all is_token_char (map to_upper s) ≡ true
all_token_upper [] h = refl
all_token_upper (c ∷ s) h = ground (arith, to_upper_token c, all_token_upper s)

run_of_token :
    (s : Text)
    → is_run_of is_token_char s ≡ true
    → (is_run_of is_token_char (map to_upper s) ≡ true) × (all is_printable (map to_upper s) ≡ true)
unfolding is_run_of
run_of_token [] h = cc
run_of_token (c ∷ s) h =
    let upper = all_token_upper (c ∷ s) h in
    (upper, all_token_printable (map to_upper (c ∷ s)) upper)

no_outer_space_last :
    (b : Bool) (s : Text) → all is_printable s ≡ true → b ≡ false → last_is_space b s ≡ false
unfolding is_printable is_space
no_outer_space_last b [] h e = e
no_outer_space_last b (c ∷ s) h e = no_outer_space_last (is_space c) s (ground arith) (ground arith)

no_outer_space : (s : Text) → all is_printable s ≡ true → has_outer_space s ≡ false
unfolding has_outer_space is_printable
no_outer_space [] h = refl
no_outer_space (c ∷ s) h = ground (arith, no_outer_space_last false (c ∷ s))

module _ (host : Host) (lawful : IsLawful host) where
  pub normalize_http_method_stable :
      (v : Value) (p q : JsonPath) (t : Text)
      → normalize_http_method host v p ≡ ok t
      → normalize_http_method host (str t) q ≡ ok t
  unfolding normalize_http_method
  normalize_http_method_stable (str s) p q t h =
      let n = normalize_text host s in
      ground (
        arith,
        run_of_token n,
        map-to_upper_idem n,
        normalize_text_printable host lawful (map to_upper n),
      )
  normalize_http_method_stable _ p q t h = cc

  parse_http_url-eq-ok :
      (v : Value) (p : JsonPath) (url : Url)
      → parse_http_url host v p ≡ ok url
      → (s : Text) × (host.parse_url s ≡ some url)
        × ((url.protocol ≡ u "http:") ⊎ (url.protocol ≡ u "https:"))
        × (url.username ≡ [])
        × (url.password ≡ [])
  unfolding parse_http_url
  parse_http_url-eq-ok (str s) p url h =
      let n = normalize_text host s in
      (
        n,
        ground arith,
        ground (arith, text_eq_iff url.protocol (u "http:"), text_eq_iff url.protocol (u "https:")),
        ground arith,
        ground arith,
      )
  parse_http_url-eq-ok _ p url h = cc

  -- What a printable text that the host parses to an acceptable URL reads as.
  parse_http_url_printable :
      (s : Text) (q : JsonPath) (url : Url)
      → all is_printable s ≡ true
      → host.parse_url s ≡ some url
      → (url.protocol ≡ u "http:") ⊎ (url.protocol ≡ u "https:")
      → url.username ≡ []
      → url.password ≡ []
      → parse_http_url host (str s) q ≡ ok url
  unfolding parse_http_url
  parse_http_url_printable s q url printable parsed scheme user word = ground (
    arith,
    normalize_text_printable host lawful s,
    no_outer_space s,
    text_eq_iff url.protocol (u "http:"),
    text_eq_iff url.protocol (u "https:"),
  )

  -- If `normalizeUrl` returns the text `t`, then it normalizes `t` to `t`.
  pub normalize_url_stable :
      (v : Value) (p q : JsonPath) (t : Text)
      → normalize_url host v p ≡ ok t
      → normalize_url host (str t) q ≡ ok t
  unfolding normalize_url
  normalize_url_stable v p q t h = invert (parse_http_url host v p) _ h λ url parsed made.
      let (s, found, scheme, user, word) = parse_http_url-eq-ok v p url parsed in
      let again =
        parse_http_url_printable url.href_without_hash q url
          (lawful.href_printable s url found scheme) (lawful.href_parses s url found scheme) scheme
          user word in
      ground arith

  -- If `normalizeOrigin` returns the text `t`, then it normalizes `t` to `t`.
  pub normalize_origin_stable :
      (v : Value) (p q : JsonPath) (t : Text)
      → normalize_origin host v p ≡ ok t
      → normalize_origin host (str t) q ≡ ok t
  unfolding normalize_origin
  normalize_origin_stable v p q t h = invert (parse_http_url host v p) _ h λ url parsed made.
      let (s, found, scheme, user, word) = parse_http_url-eq-ok v p url parsed in
      let (r, reads, protocol, no_user, no_word, origin) =
        lawful.origin_parses s url found scheme in
      let again =
        parse_http_url_printable url.origin q r (lawful.origin_printable s url found scheme) reads
          (rw protocol scheme) no_user no_word in
      ground arith
