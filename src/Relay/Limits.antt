-- ===== src/Relay/Limits.antt =====
-- apps/web/lib/relay/relay-service.ts: which requests `#applyRateLimits` refuses.
use native.Mathlib.Nat.{div-mul-le_self, lt-div-mul-add}
use submittedit.Common.{
  ◌≤◌, ◌<◌, ◌+◌, ◌*◌, ◌/◌, ◌++◌, subst, ℕ, suc, ◌≡◌, refl, sym, ap, ◌∙◌, Bool, true, false, ◌||◌,
  List, [], ◌∷◌, inl, inr, Bool-cases, ◌&&◌, arith, ltb, leb, if◌then◌else◌, ◌==◌,
}
use submittedit.Common.Lists.{All, any}
use submittedit.Text.{u, Text, Text}
use submittedit.Text.Order.{text_eq_refl}
use submittedit.Relay.Types.{
  ScopeKind, ip, public_key, receipt, Scope, Counter, Database, ValidatedRelayEvent, Outcome,
  thrown, returned, service_error, rate_limited,
}
use submittedit.Relay.Requests.{
  window_start, kind_eq, scope_eq, count_request, request_count_of, counted, apply_rate_limits,
}
use submittedit.Relay.Action.{Service, ◌>>=◌, ask}
use submittedit.Relay.Checks.{throw_if}
use submittedit.Relay.Service.{rate_limits, limit_rate}

same_number : (n : ℕ) → (n == n) ≡ true
same_number n = ground arith

scope_eq_refl : (s : Scope) → scope_eq s s ≡ true
scope_eq_refl s = rw (text_eq_refl s.scope_hash, same_number s.window_started_at) (same_kind s.kind)
  where
    same_kind : (k : ScopeKind) → (kind_eq k k && true && true) ≡ true
    same_kind ip = refl
    same_kind public_key = refl
    same_kind receipt = refl

-- A scope's count goes up by one.
counts_one :
    (s : Scope) (cs : List Counter)
    → request_count_of s (count_request s cs) ≡ suc (request_count_of s cs)
unfolding request_count_of count_request
counts_one s [] = rw (scope_eq_refl s) refl
counts_one s (c ∷ cs) = ground (arith, counts_one s cs)

-- The kinds of two counters that a scope could be counted in.
apart : (a b c : ScopeKind) → kind_eq a b ≡ false → kind_eq c b ≡ true → kind_eq c a ≡ false
apart a b ip d e = ground arith
apart a b public_key d e = ground arith
apart a b receipt d e = ground arith

scope-kinds : (s t : Scope) → kind_eq s.kind t.kind ≡ false → scope_eq s t ≡ false
scope-kinds s t d = rw (d) refl

same_kinds : (s t : Scope) → scope_eq s t ≡ true → kind_eq s.kind t.kind ≡ true
same_kinds s t h = ground arith

-- A request of another kind of scope is not counted.
counts_other :
    (s t : Scope) (cs : List Counter)
    → kind_eq s.kind t.kind ≡ false
    → request_count_of s (count_request t cs) ≡ request_count_of s cs
unfolding request_count_of count_request
counts_other s t [] d = rw (scope-kinds t s (sym_kind t.kind s.kind d)) refl
  where
    sym_kind : (a b : ScopeKind) → kind_eq b a ≡ false → kind_eq a b ≡ false
    sym_kind a b d = ground arith
counts_other s t (c ∷ cs) d = elim (Bool-cases (scope_eq c.scope t)) [
  | inl here ↦
      rw
        (
          here,
          scope-kinds c.scope s (apart s.kind t.kind c.scope.kind d (same_kinds c.scope t here)),
        )
        refl
  | inr there ↦ rw (there) elim (Bool-cases (scope_eq c.scope s)) [
    | inl e ↦ rw (e) refl
    | inr e ↦ rw (e) (counts_other s t cs d)
  ]
]

reaches : (l n : ℕ) → ltb l (suc n) ≡ leb l n
reaches l n = ground arith

all_reach :
    (i j k a b c : ℕ)
    → (ltb i (suc a) || (ltb j (suc b) || (ltb k (suc c) || false)))
      ≡ (leb i a || (leb j b || (leb k c || false)))
all_reach i j k a b c = rw (reaches i a, reaches j b, reaches k c) refl

-- The scope has had as many requests as its limit.
abbrev pub is_full : Database → Scope × ℕ → Bool
is_full db (scope, limit) = leb limit (request_count_of scope db.counters)

-- The scope has had one more request.
abbrev pub HasOneMore : Database → Database → Scope × ℕ → Type 0
HasOneMore db new (scope, limit) =
    request_count_of scope new.counters ≡ suc (request_count_of scope db.counters)

module _ (a b c : Scope) (i j k : ℕ) (db : Database) (ab : kind_eq a.kind b.kind ≡ false)
    (ba : kind_eq b.kind a.kind ≡ false) (ac : kind_eq a.kind c.kind ≡ false)
    (ca : kind_eq c.kind a.kind ≡ false) (bc : kind_eq b.kind c.kind ≡ false)
    (cb : kind_eq c.kind b.kind ≡ false) where
  abbrev three : List (Scope × ℕ)
  three = (a, i) ∷ (b, j) ∷ (c, k) ∷ []

  three_limits : (apply_rate_limits three db).0 ≡ any (is_full db) three
  unfolding apply_rate_limits counted
  three_limits =
      rw
        (
          counts_one a db.counters,
          counts_one b (count_request a db.counters),
          counts_one c (count_request b (count_request a db.counters)),
          counts_other b a db.counters ba,
          counts_other c b (count_request a db.counters) cb,
          counts_other c a db.counters ca,
        )
        (all_reach i j k (request_count_of a db.counters) (request_count_of b db.counters)
          (request_count_of c db.counters))

  three_counts : All (HasOneMore db (apply_rate_limits three db).1) three
  unfolding apply_rate_limits counted
  three_counts = (
    counts_other a c _ ac ∙ counts_other a b _ ab ∙ counts_one a db.counters,
    (
      counts_other b c _ bc
          ∙ counts_one b (count_request a db.counters)
          ∙ ap suc (counts_other b a db.counters ba),
      (
        counts_one c (count_request b (count_request a db.counters))
            ∙ ap suc (counts_other c b _ cb ∙ counts_other c a db.counters ca),
        tt,
      ),
    ),
  )

-- The window of a time: it begins at a multiple of its length, and the time is in it.
pub record IsSpanOf (length_ms now start : ℕ) : Type 0 where
  pub whole : ℕ
  pub at_multiple : start ≡ whole * length_ms
  pub begun : start ≤ now
  pub not_over : now < start + length_ms

window-IsSpanOf :
    (length_ms now : ℕ) → 0 < length_ms → IsSpanOf length_ms now (now / length_ms * length_ms)
window-IsSpanOf length_ms now positive = record {
  whole = now / length_ms;
  at_multiple = refl;
  begun = div-mul-le_self now length_ms;
  not_over = lt-div-mul-add positive;
}

module _ {W : Type 0} (service : Service W) (v : ValidatedRelayEvent) (network_scope : Text) where
  open service use {configuration, crypto}

  -- The counter of requests of a kind in the window that begins at a time.
  abbrev pub counter_of : ScopeKind → Text → Text → ℕ → Scope
  counter_of kind name value start = record {
    kind = kind;
    scope_hash = crypto.hmac_sha256_hex service.abuse_hash_key (name ++ 0 ∷ value);
    window_started_at = start;
  }

  -- The network, the extension's key and the receipt of a request, each with its limit.
  abbrev pub limits_from : ℕ → List (Scope × ℕ)
  limits_from start =
      (counter_of ip (u "IP") network_scope start, configuration.request_ip_requests_per_window)
      ∷ (
        counter_of public_key (u "PUBLIC_KEY") v.extension_key_hash start,
        configuration.public_key_requests_per_window,
      )
      ∷ (
        counter_of receipt (u "RECEIPT") v.event.core.receipt_id start,
        configuration.receipt_requests_per_window,
      )
      ∷ []

-- What `#applyRateLimits` does at a time: with the window of the time, it throws where a counter of the
-- request has reached its limit, and every counter goes up by one.
pub record IsLimited {W : Type 0} (service : Service W) (v : ValidatedRelayEvent)
    (network_scope : Text) (now : ℕ) (db : Database) (outcome : Outcome (Unit {0})) (new : Database)
    : Type 0 where
  pub start : ℕ
  pub in_window : IsSpanOf (service.configuration.rate_limit_window_seconds * 1000) now start
  pub refuses : outcome ≡ (
      if any (is_full db) (limits_from service v network_scope start)
      then thrown (service_error rate_limited)
      else returned tt)
  pub counts : All (HasOneMore db new) (limits_from service v network_scope start)

module _ {W : Type 0} (service : Service W) (v : ValidatedRelayEvent) (network_scope : Text)
    (db : Database) (w : W) where
  abbrev limits : List (Scope × ℕ)
  limits = rate_limits service v network_scope (service.gateway.read_clock w).0

  refused :
      (b : Bool) (new : Database) (u : W)
      → ((throw_if service b rate_limited new u).0
          ≡ (if b then thrown (service_error rate_limited) else returned tt))
        × ((throw_if service b rate_limited new u).1 ≡ new)
  refused true new u = (refl, refl)
  refused false new u = (refl, refl)

  -- If a window has a positive length, then `#applyRateLimits` throws RATE_LIMITED exactly when the
  -- network, the extension's key or the receipt has had as many requests as its own limit in the
  -- window, which begins at a multiple of its length and has the time that is read; and in either
  -- case each of the three has had one more request then.
  pub limit_rate_counts :
      0 < service.configuration.rate_limit_window_seconds
      → IsLimited service v network_scope
          (service.gateway.read_clock w).0
          db
          (limit_rate service v network_scope db w).0
          (limit_rate service v network_scope db w).1
  unfolding limit_rate rate_limits window_start ◌>>=◌ ask
  limit_rate_counts positive =
      let after_count = apply_rate_limits limits db in
      let (outcome, kept) = refused after_count.0 after_count.1 (service.gateway.read_clock w).1 in
      record {
        start = window_start service.configuration (service.gateway.read_clock w).0;
        in_window =
            window-IsSpanOf (service.configuration.rate_limit_window_seconds * 1000) _
              (omega arith);
        refuses =
            outcome
            ∙ ap (λ b. if b then thrown (service_error rate_limited) else returned tt)
                (three_limits _ _ _ _ _ _ db refl refl refl refl refl refl);
        counts =
            subst (λ new. All (HasOneMore db new) limits) (sym kept)
              (three_counts _ _ _ _ _ _ db refl refl refl refl refl refl);
      }
