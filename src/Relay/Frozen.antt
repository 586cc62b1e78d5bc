-- ===== src/Relay/Frozen.antt =====
-- apps/web/db/migrations/0002_relay_foundation.sql: what the trigger keeps of a row that has a transaction,
-- and of a row that is over.
use submittedit.Common.{
  ℕ, ◌≡◌, refl, sym, ap, ◌∙◌, Bool, true, not, ◌&&◌, ◌||◌, Option, none, some, arith, ◌==◌,
}
use submittedit.Text.{Text, text_eq}
use submittedit.Text.Order.{text_eq_iff}
use submittedit.Relay.Types.{error_index, Operation}
use submittedit.Relay.Database.{
  is_some, is_terminal, may_become, option_eq, state_eq, same_transaction, same_result,
  update_is_allowed,
}
use submittedit.Relay.Moves.{state_eq_sound}

text_option_eq : (a b : Option Text) → option_eq text_eq a b ≡ true → a ≡ b
text_option_eq none none h = refl
text_option_eq none (some b) h = cc
text_option_eq (some a) none h = cc
text_option_eq (some a) (some b) h = ap some ((text_eq_iff a b).0 h)

number_option_eq : (a b : Option ℕ) → option_eq ◌==◌ a b ≡ true → a ≡ b
number_option_eq none none h = refl
number_option_eq none (some b) h = cc
number_option_eq (some a) none h = cc
number_option_eq (some a) (some b) h = ap some (ground arith)

-- The transaction that a row was given: its hash, its nonce and its fees.
pub record SameTransaction (row later : Operation) : Type 0 where
  pub same_hash : later.transaction_hash ≡ row.transaction_hash
  pub same_nonce : later.transaction_nonce ≡ row.transaction_nonce
  pub same_gas_limit : later.gas_limit ≡ row.gas_limit
  pub same_max_fee : later.max_fee_per_gas ≡ row.max_fee_per_gas
  pub same_priority_fee : later.max_priority_fee_per_gas ≡ row.max_priority_fee_per_gas

-- What a view shows of the end of an operation, and what it cost.
pub record SameResult (row later : Operation) : Type 0 where
  pub same_transaction_too : SameTransaction row later
  pub same_state_too : later.state ≡ row.state
  pub same_block : later.block_number ≡ row.block_number
  pub same_reserved : later.reserved_fee ≡ row.reserved_fee
  pub same_charged : later.charged_fee ≡ row.charged_fee
  pub same_confirmed_at : later.confirmed_at ≡ row.confirmed_at

equal_of_test : (a b : ℕ) → (a == b) ≡ true → b ≡ a
equal_of_test a b h = ground arith

five :
    (a b c d e : Bool)
    → (a && b && c && d && e) ≡ true
    → (a ≡ true) × (b ≡ true) × (c ≡ true) × (d ≡ true) × (e ≡ true)
five a b c d e h = ground arith

same_transaction-SameTransaction :
    (old new : Operation) → same_transaction old new ≡ true → SameTransaction old new
unfolding same_transaction
same_transaction-SameTransaction old new h =
    let (hash, nonce, limit, fee, priority) = five _ _ _ _ _ h in
    record {
      same_hash = sym (text_option_eq _ _ hash);
      same_nonce = sym (number_option_eq _ _ nonce);
      same_gas_limit = sym (number_option_eq _ _ limit);
      same_max_fee = sym (number_option_eq _ _ fee);
      same_priority_fee = sym (number_option_eq _ _ priority);
    }

guarded_left : (a b c d e : Bool) → ((not a || b) && (not c || d) && e) ≡ true → a ≡ true → b ≡ true
guarded_left a b c d e h k = ground arith

guarded_right :
    (a b c d e : Bool) → ((not a || b) && (not c || d) && e) ≡ true → c ≡ true → d ≡ true
guarded_right a b c d e h k = ground arith

pub sent-SameTransaction :
    (old new : Operation)
    → is_some old.transaction_hash ≡ true
    → update_is_allowed old new ≡ true
    → SameTransaction old new
unfolding update_is_allowed
sent-SameTransaction old new sent allowed = same_transaction-SameTransaction old new (
    guarded_left (is_some old.transaction_hash) (same_transaction old new) (is_terminal old.state)
      (same_result old new) (state_eq old.state new.state || may_become old.state new.state) allowed
      sent)

pick_six :
    (t s b r c a p e n u f : Bool)
    → (t && s && b && r && c && a && p && e && n && u && f) ≡ true
    → (t ≡ true) × (s ≡ true) × (b ≡ true) × (r ≡ true) × (c ≡ true) × (f ≡ true)
pick_six t s b r c a p e n u f h = ground arith

pub terminal-SameResult :
    (old new : Operation)
    → is_terminal old.state ≡ true
    → update_is_allowed old new ≡ true
    → SameResult old new
unfolding update_is_allowed same_result
terminal-SameResult old new over allowed =
    let (t, s, b, r, c, f) =
      pick_six (same_transaction old new) (state_eq old.state new.state)
        (option_eq ◌==◌ old.block_number new.block_number) (old.reserved_fee == new.reserved_fee)
        (old.charged_fee == new.charged_fee) (old.attempt_count == new.attempt_count)
        (old.poll_count == new.poll_count)
        (option_eq (λ a b. error_index a == error_index b) old.last_error_code new.last_error_code)
        (option_eq ◌==◌ old.next_reconcile_at new.next_reconcile_at)
        (option_eq ◌==◌ old.submitted_at new.submitted_at)
        (option_eq ◌==◌ old.confirmed_at new.confirmed_at) same in
    record {
      same_transaction_too = same_transaction-SameTransaction old new t;
      same_state_too = sym (state_eq_sound old.state new.state s);
      same_block = sym (number_option_eq _ _ b);
      same_reserved = equal_of_test _ _ r;
      same_charged = equal_of_test _ _ c;
      same_confirmed_at = sym (number_option_eq _ _ f);
    }
  where
    same : same_result old new ≡ true
    same =
        guarded_right (is_some old.transaction_hash) (same_transaction old new)
          (is_terminal old.state) (same_result old new)
          (state_eq old.state new.state || may_become old.state new.state) allowed over

pub SameTransaction-trans :
    (a b c : Operation) → SameTransaction a b → SameTransaction b c → SameTransaction a c
SameTransaction-trans a b c f g = record {
  same_hash = g.same_hash ∙ f.same_hash;
  same_nonce = g.same_nonce ∙ f.same_nonce;
  same_gas_limit = g.same_gas_limit ∙ f.same_gas_limit;
  same_max_fee = g.same_max_fee ∙ f.same_max_fee;
  same_priority_fee = g.same_priority_fee ∙ f.same_priority_fee;
}

pub SameTransaction-refl : (a : Operation) → SameTransaction a a
SameTransaction-refl a = record {
  same_hash = refl;
  same_nonce = refl;
  same_gas_limit = refl;
  same_max_fee = refl;
  same_priority_fee = refl;
}
