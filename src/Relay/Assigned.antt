-- ===== src/Relay/Assigned.antt =====
-- apps/web/lib/relay/relay-service.ts: in every order of the statements of all requests, no two operations
-- have the same nonce.
use submittedit.Common.{
  ℕ, suc, ◌≤◌, ◌≡◌, refl, sym, subst, inl, inr, Bool, true, Option, none, some, List, [], ◌∷◌, ◌++◌,
  ltb, ◌||◌, Bool-cases, &&-left, &&-right,
}
use submittedit.Common.Lists.{All, all}
use submittedit.Text.{Text, text_eq}
use submittedit.Text.Order.{text_eq_iff}
use submittedit.Relay.Types.{
  RelayConfiguration, RelayErrorCode, event_already_anchored, transaction_submission_failed,
  Operation, SignerKey, SignerNonce, Scope, Blob, Database,
}
use submittedit.Relay.Database.{
  is_some, is_terminal, find_operation, replace_operation, after, update_operation, store_operation,
  find_nonce, set_nonce,
}
use submittedit.Relay.Statements.{
  mark_retryable, defer_reconciliation, record_rebroadcast, record_submitted, record_reverted,
  record_mismatch, record_confirmed, with_budgets, record_cost_of, record_mined_cost, close,
  close_if, mark_final_without_transaction, mark_externally_anchored, later, assigned_nonce,
  record_prepared, is_closed_to_preparation,
}
use submittedit.Relay.Requests.{
  Acquisition, after_acquire, insert_with, acquired_row, find_blob, apply_rate_limits, counted,
  count_poll, poll_found,
}
use submittedit.Relay.Steps.{
  Statement, marks_retryable, defers, rebroadcasts, submits, reverts, mismatches, confirms, charges,
  gives_up, finds_anchored, prepares, acquires, counts, polls, signer_key, prepared_as,
  prepare_found, prepare_operation, execute, execute_all,
}
use submittedit.Relay.Tables.{update_operation_cases}
use submittedit.Relay.Guarded.{acquire_cases}
use submittedit.Relay.Nonces.{
  Below, AllDistinct, nonces_of, next_of, AreOrdered, nonces_of-replace, weaken, assigned-Below,
  assigned-AllDistinct, append-Below, append-AllDistinct, find-set_nonce, next_of-le-later,
}

module _ (key : SignerKey) where
  Ordered : Database → Type 0
  Ordered db = AreOrdered key db.operations db.nonces

  free-Ordered :
      (id : ℕ) (fits : Operation → Bool) (set : Operation → Operation) (old db : Database)
      → ((row : Operation) → (set row).transaction_nonce ≡ row.transaction_nonce)
      → AreOrdered key old.operations old.nonces
      → AreOrdered key db.operations db.nonces
      → Ordered (after old (update_operation id fits set db))
  unfolding Ordered store_operation
  free-Ordered id fits set old db same o p =
      update_operation_cases Ordered id fits set old db o λ row found f allowed.
        let same_nonces = nonces_of-replace id db.operations row (set row) found (same row) in
        record {
          before =
              subst (All (Below (next_of (find_nonce key db.nonces)))) (sym same_nonces) p.before;
          distinct = subst AllDistinct (sym same_nonces) p.distinct;
        }

  given-Ordered :
      (id n : ℕ) (new : Operation) (ops : List Operation) (ns : List SignerNonce)
      → next_of (find_nonce key ns) ≤ n
      → new.transaction_nonce ≡ some n
      → AreOrdered key ops ns
      → AreOrdered key (replace_operation id new ops) (set_nonce key (suc n) ns)
  given-Ordered id n new ops ns reaches given o = record {
    before = rw (find-set_nonce key (suc n) ns) (assigned-Below id n new given ops earlier);
    distinct = assigned-AllDistinct id n new given ops earlier o.distinct;
  }
    where
      earlier : All (Below n) (nonces_of ops)
      earlier = weaken (next_of (find_nonce key ns)) n (nonces_of ops) reaches o.before

  append-Ordered :
      (ops : List Operation) (ns : List SignerNonce) (row : Operation)
      → row.transaction_nonce ≡ none
      → AreOrdered key ops ns
      → AreOrdered key (ops ++ row ∷ []) ns
  append-Ordered ops ns row unsent o = record {
    before = append-Below (next_of (find_nonce key ns)) ops row unsent o.before;
    distinct = append-AllDistinct ops row unsent o.distinct;
  }

  cost-Ordered :
      (id block : ℕ) (o : Option Operation) (db : Database)
      → Ordered db
      → Ordered (after db (record_cost_of id o block db))
  unfolding Ordered record_cost_of with_budgets
  cost-Ordered id block none db p = p
  cost-Ordered id block (some r) db p = elim (Bool-cases (ltb 0 r.charged_fee)) [
    | inl t ↦ rw (t) p
    | inr f ↦ rw (f) (free-Ordered id _ _ db _ (λ r. refl) p p)
  ]

  close-Ordered :
      (id : ℕ) (stays : Operation → Bool) (code : RelayErrorCode) (o : Option Operation)
      (db : Database)
      → Ordered db
      → Ordered (after db (close_if id stays code o db))
  unfolding Ordered close with_budgets
  close-Ordered id stays code none db p = p
  close-Ordered id stays code (some r) db p = elim (Bool-cases (stays r)) [
    | inl t ↦ rw (t) p
    | inr f ↦ rw (f) (free-Ordered id _ _ db _ (λ r. refl) p p)
  ]

  poll-Ordered :
      (o : Option Operation) (db : Database) → Ordered db → Ordered (after db (poll_found o db))
  unfolding Ordered
  poll-Ordered none db p = p
  poll-Ordered (some r) db p = free-Ordered r.id _ _ db db (λ r. refl) p p

  prepare-Ordered :
      (config : RelayConfiguration) (o : Option Operation) (id pending : ℕ) (hash serialized : Text)
      (at : ℕ) (db : Database)
      → Ordered db
      → Ordered (
          after db (
            prepare_found config o id key pending
              (prepared_as config key pending hash serialized db)
              at
              db))
  unfolding Ordered record_prepared store_operation assigned_nonce
  prepare-Ordered config none id pending hash serialized at db p = p
  prepare-Ordered config (some r) id pending hash serialized at db p =
      elim (Bool-cases (is_closed_to_preparation r)) [
        | inl t ↦ rw (t) p
        | inr f ↦ rw (f) (
            update_operation_cases Ordered id _ _ db _ p λ row found g allowed.
              given-Ordered id (later (find_nonce key db.nonces) pending) _ db.operations db.nonces
                (next_of-le-later (find_nonce key db.nonces) pending) refl p)
      ]

  insert-Ordered :
      (config : RelayConfiguration) (a : Acquisition) (blob : Option Blob) (db : Database)
      → Ordered db
      → Ordered (after_acquire db (insert_with config a blob db))
  unfolding Ordered insert_with acquired_row
  insert-Ordered config a none db p = p
  insert-Ordered config a (some blob) db p = append-Ordered db.operations db.nonces _ refl p

  limits-Ordered :
      (limits : List (Scope × ℕ)) (db : Database)
      → Ordered db
      → Ordered (apply_rate_limits limits db).1
  unfolding Ordered apply_rate_limits counted
  limits-Ordered [] db p = p
  limits-Ordered ((scope, limit) ∷ limits) db p = limits-Ordered limits (counted scope db) p

-- What a statement prepares is for this signer.
abbrev pub is_of : Text → Statement → Bool
is_of signer (prepares id other pending hash serialized at) = text_eq other signer
is_of signer _ = true

module _ (config : RelayConfiguration) (signer : Text) where
  execute-Ordered :
      (s : Statement) (db : Database)
      → is_of signer s ≡ true
      → Ordered (signer_key config signer) db
      → Ordered (signer_key config signer) (execute config s db)
  unfolding Ordered execute mark_retryable defer_reconciliation record_rebroadcast record_submitted
      record_reverted record_mismatch record_confirmed record_mined_cost
      mark_final_without_transaction mark_externally_anchored prepare_operation count_poll
  execute-Ordered (marks_retryable id code at) db own p =
      free-Ordered _ id _ _ db db (λ r. refl) p p
  execute-Ordered (defers id at) db own p = free-Ordered _ id _ _ db db (λ r. refl) p p
  execute-Ordered (rebroadcasts id at) db own p = free-Ordered _ id _ _ db db (λ r. refl) p p
  execute-Ordered (submits id now at) db own p = free-Ordered _ id _ _ db db (λ r. refl) p p
  execute-Ordered (reverts id block now) db own p = free-Ordered _ id _ _ db db (λ r. refl) p p
  execute-Ordered (mismatches id block now) db own p = free-Ordered _ id _ _ db db (λ r. refl) p p
  execute-Ordered (confirms id block now) db own p = free-Ordered _ id _ _ db db (λ r. refl) p p
  execute-Ordered (charges id block) db own p =
      cost-Ordered (signer_key config signer) id block _ db p
  execute-Ordered (gives_up id) db own p =
      close-Ordered (signer_key config signer) id (λ r. is_some r.transaction_hash)
        transaction_submission_failed (find_operation id db.operations) db p
  execute-Ordered (finds_anchored id) db own p =
      close-Ordered (signer_key config signer) id
        (λ r. is_some r.transaction_hash || is_terminal r.state) event_already_anchored
        (find_operation id db.operations) db p
  execute-Ordered (prepares id other pending hash serialized at) db own p =
      subst
        (λ s.
          Ordered (signer_key config signer)
            (execute config (prepares id s pending hash serialized at) db))
        (sym ((text_eq_iff other signer).0 own))
        (prepare-Ordered (signer_key config signer) config (find_operation id db.operations) id
          pending hash serialized at db p)
  execute-Ordered (acquires a) db own p =
      acquire_cases (Ordered (signer_key config signer)) config a db p (
        insert-Ordered (signer_key config signer) config a (find_blob a.validated.blob_id db.blobs)
          db p)
  execute-Ordered (counts limits) db own p = limits-Ordered (signer_key config signer) limits db p
  execute-Ordered (polls token) db own p = poll-Ordered (signer_key config signer) _ db p

  -- Where one signer prepares all transactions, every order of the statements of any requests keeps the
  -- nonces of the operations pairwise different and before the signer's next one.
  pub execute_all-AreOrdered :
      (ss : List Statement) (db : Database)
      → all (is_of signer) ss ≡ true
      → AreOrdered (signer_key config signer) db.operations db.nonces
      → AreOrdered
          (signer_key config signer)
          (execute_all config ss db).operations
          (execute_all config ss db).nonces
  unfolding Ordered execute_all
  execute_all-AreOrdered [] db own p = p
  execute_all-AreOrdered (s ∷ ss) db own p =
      execute_all-AreOrdered ss (execute config s db)
        (&&-right (is_of signer s) (all (is_of signer) ss) own)
        (execute-Ordered s db (&&-left (is_of signer s) (all (is_of signer) ss) own) p)
