-- ===== src/Relay/Nonces.antt =====
-- apps/web/lib/relay/relay-service.ts: the nonces that `#prepareNewTransaction` assigns.
use submittedit.Common.{
  ℕ, suc, ◌≤◌, ◌<◌, ◌≡◌, ◌≢◌, refl, inl, inr, Option, none, some, List, [], ◌∷◌, ◌++◌, arith, ◌==◌,
  Bool-cases,
}
use submittedit.Common.Lists.{All}
use submittedit.Text.Order.{text_eq_iff}
use submittedit.Relay.Types.{Operation, SignerKey, SignerNonce}
use submittedit.Relay.Database.{find_operation, replace_operation, find_nonce, set_nonce}
use submittedit.Relay.Statements.{later}

abbrev pub Below : ℕ → Option ℕ → Type 0
Below n none = Unit
Below n (some k) = k < n

abbrev pub Differs : Option ℕ → Option ℕ → Type 0
Differs none other = Unit
Differs (some k) other = other ≢ some k

abbrev pub AllDistinct : List (Option ℕ) → Type 0
AllDistinct [] = Unit
AllDistinct (o ∷ os) = All (Differs o) os × AllDistinct os

unfoldable pub nonces_of : List Operation → List (Option ℕ)
nonces_of [] = []
nonces_of (row ∷ rows) = row.transaction_nonce ∷ nonces_of rows

-- The nonce that the signer's row says is next.
abbrev pub next_of : Option ℕ → ℕ
next_of none = 0
next_of (some n) = n

-- The nonces of the operations are pairwise different, and before the signer's next.
pub record AreOrdered (key : SignerKey) (ops : List Operation) (ns : List SignerNonce)
    : Type 0 where
  pub before : All (Below (next_of (find_nonce key ns))) (nonces_of ops)
  pub distinct : AllDistinct (nonces_of ops)

pub nonces_of-replace :
    (id : ℕ) (rows : List Operation) (row new : Operation)
    → find_operation id rows ≡ some row
    → new.transaction_nonce ≡ row.transaction_nonce
    → nonces_of (replace_operation id new rows) ≡ nonces_of rows
unfolding nonces_of find_operation replace_operation
nonces_of-replace id [] row new found same = refl
nonces_of-replace id (r ∷ rows) row new found same =
    ground (arith, nonces_of-replace id rows row new)

pub weaken : (n m : ℕ) (os : List (Option ℕ)) → n ≤ m → All (Below n) os → All (Below m) os
weaken n m [] h b = tt
weaken n m (none ∷ os) h (b, bs) = (tt, weaken n m os h bs)
weaken n m (some k ∷ os) h (b, bs) = (omega arith, weaken n m os h bs)

Below-Differs_each : (n : ℕ) (os : List (Option ℕ)) → All (Below n) os → All (Differs (some n)) os
Below-Differs_each n [] b = tt
Below-Differs_each n (none ∷ os) (b, bs) = ((λ e. cc), Below-Differs_each n os bs)
Below-Differs_each n (some k ∷ os) (b, bs) = ((λ e. ground arith), Below-Differs_each n os bs)

Below-suc : (n : ℕ) (o : Option ℕ) → Below n o → Below (suc n) o
Below-suc n none b = tt
Below-suc n (some k) b = omega arith

Differs-Below : (n : ℕ) (o : Option ℕ) → Below n o → Differs o (some n)
Differs-Below n none b = tt
Differs-Below n (some k) b = λ e. ground arith

module _ (id n : ℕ) (new : Operation) (given : new.transaction_nonce ≡ some n) where
  pub assigned-Below :
      (rows : List Operation)
      → All (Below n) (nonces_of rows)
      → All (Below (suc n)) (nonces_of (replace_operation id new rows))
  unfolding nonces_of replace_operation
  assigned-Below [] b = tt
  assigned-Below (r ∷ rows) (b, bs) = elim (Bool-cases (r.id == id)) [
    | inl here ↦ rw (here, given) (omega arith, weaken n (suc n) (nonces_of rows) (omega arith) bs)
    | inr there ↦ rw (there) (Below-suc n r.transaction_nonce b, assigned-Below rows bs)
  ]

  assigned-Differs :
      (o : Option ℕ) (rows : List Operation)
      → Below n o
      → All (Differs o) (nonces_of rows)
      → All (Differs o) (nonces_of (replace_operation id new rows))
  unfolding nonces_of replace_operation
  assigned-Differs o [] b d = tt
  assigned-Differs o (r ∷ rows) b (d, ds) = elim (Bool-cases (r.id == id)) [
    | inl here ↦ rw (here, given) (Differs-Below n o b, ds)
    | inr there ↦ rw (there) (d, assigned-Differs o rows b ds)
  ]

  pub assigned-AllDistinct :
      (rows : List Operation)
      → All (Below n) (nonces_of rows)
      → AllDistinct (nonces_of rows)
      → AllDistinct (nonces_of (replace_operation id new rows))
  unfolding nonces_of replace_operation
  assigned-AllDistinct [] b d = tt
  assigned-AllDistinct (r ∷ rows) (b, bs) (d, ds) = elim (Bool-cases (r.id == id)) [
    | inl here ↦ rw (here, given) (Below-Differs_each n (nonces_of rows) bs, ds)
    | inr there ↦
        rw (there) (assigned-Differs r.transaction_nonce rows b d, assigned-AllDistinct rows bs ds)
  ]

pub append-Below :
    (n : ℕ) (rows : List Operation) (row : Operation)
    → row.transaction_nonce ≡ none
    → All (Below n) (nonces_of rows)
    → All (Below n) (nonces_of (rows ++ row ∷ []))
unfolding nonces_of
append-Below n [] row e b = rw (e) (tt, tt)
append-Below n (r ∷ rows) row e (b, bs) = (b, append-Below n rows row e bs)

append-Differs :
    (o : Option ℕ) (rows : List Operation) (row : Operation)
    → row.transaction_nonce ≡ none
    → All (Differs o) (nonces_of rows)
    → All (Differs o) (nonces_of (rows ++ row ∷ []))
unfolding nonces_of
append-Differs none [] row e d = (tt, tt)
append-Differs (some k) [] row e d = rw (e) ((λ h. cc), tt)
append-Differs o (r ∷ rows) row e (d, ds) = (d, append-Differs o rows row e ds)

pub append-AllDistinct :
    (rows : List Operation) (row : Operation)
    → row.transaction_nonce ≡ none
    → AllDistinct (nonces_of rows)
    → AllDistinct (nonces_of (rows ++ row ∷ []))
unfolding nonces_of
append-AllDistinct [] row e d = (tt, tt)
append-AllDistinct (r ∷ rows) row e (d, ds) =
    (append-Differs r.transaction_nonce rows row e d, append-AllDistinct rows row e ds)

pub find-set_nonce :
    (key : SignerKey) (next : ℕ) (ns : List SignerNonce)
    → find_nonce key (set_nonce key next ns) ≡ some next
unfolding find_nonce set_nonce
find-set_nonce key next [] =
    ground (arith, text_eq_iff key.address key.address, text_eq_iff key.signer key.signer)
find-set_nonce key next (n ∷ ns) = ground (arith, find-set_nonce key next ns)

pub next_of-le-later : (stored : Option ℕ) (pending : ℕ) → next_of stored ≤ later stored pending
next_of-le-later none pending = omega arith
next_of-le-later (some n) pending = ground arith
