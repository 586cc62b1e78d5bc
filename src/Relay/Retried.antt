-- ===== src/Relay/Retried.antt =====
-- apps/web/lib/relay/relay-service.ts: a request that `#acquireOperation` has admitted, made again.
use submittedit.Common.{
  arith, ◌≡◌, refl, ap, ◌∙◌, inl, inr, Bool, not, true, false, Option, none, some, List, [], ◌∷◌,
  ◌++◌, Option-cases, subst, if◌then◌else◌,
}
use submittedit.Text.{Text, text_eq}
use submittedit.Text.Order.{text_eq_refl}
use submittedit.Relay.Types.{
  RelayErrorCode, invalid_transition, daily_budget_exceeded, RelayConfiguration, Operation,
  Database, Blob, idempotency_conflict,
}
use submittedit.Relay.Database.{option_eq}
use submittedit.Relay.Requests.{
  first_operation, find_by_event_hash, find_by_key_hash, Acquisition, Acquired, acquired,
  acquire_failed, insert_with, reserve_and_insert, acquire_unknown, acquire_event,
  acquire_operation, key_conflicts, binds_other, acquired_row, find_blob,
}

module _ (fits : Operation → Bool) where
  first-append_found :
      (rows : List Operation) (row last : Operation)
      → first_operation fits rows ≡ some row
      → first_operation fits (rows ++ last ∷ []) ≡ some row
  unfolding first_operation
  first-append_found [] row last found = cc
  first-append_found (r ∷ rows) row last found = ground (arith, first-append_found rows row last)

  first-append_last :
      (rows : List Operation) (last : Operation)
      → fits last ≡ true
      → first_operation fits rows ≡ none
      → first_operation fits (rows ++ last ∷ []) ≡ some last
  unfolding first_operation
  first-append_last [] last here found = ground arith
  first-append_last (r ∷ rows) last here found = ground (arith, first-append_last rows last here)

-- An admitted request: its event has this row, which was made for the same request, and its key is not
-- bound to another request.
pub record IsAdmitted (a : Acquisition) (row : Operation) (db : Database) : Type 0 where
  pub known : find_by_event_hash a.validated.event.event_hash db ≡ some row
  pub agrees : text_eq row.request_fingerprint a.validated.request_fingerprint ≡ true
  pub unbound : key_conflicts a a.key_hash db ≡ false

-- A later request for the same event, with the same fingerprint and the same key.
pub record IsRetry (a b : Acquisition) : Type 0 where
  pub same_event : b.validated.event.event_hash ≡ a.validated.event.event_hash
  pub same_fingerprint : b.validated.request_fingerprint ≡ a.validated.request_fingerprint
  pub same_key : b.key_hash ≡ a.key_hash

unnegated : (b : Bool) → not b ≡ false → b ≡ true
unnegated b h = ground arith

module _ {created : Bool} {row : Operation} {new : Database} where
  unrefused :
      (b : Bool) (code : RelayErrorCode) (rest : Acquired)
      → (if b then acquire_failed code else rest) ≡ acquired created row new
      → (b ≡ false) × (rest ≡ acquired created row new)
  unrefused true code rest h = cc
  unrefused false code rest h = (refl, h)

  carried :
      (a : Acquisition) (c : Bool) (r : Operation) (db : Database)
      → acquired c r db ≡ acquired created row new
      → IsAdmitted a r db
      → IsAdmitted a row new
  carried a c r db h admitted =
      subst (IsAdmitted a row) (same_database h)
        (subst (λ x. IsAdmitted a x db) (same_row h) admitted)
    where
      same_row : acquired c r db ≡ acquired created row new → r ≡ row
      same_row h = cc

      same_database : acquired c r db ≡ acquired created row new → db ≡ new
      same_database h = cc

module _ (a : Acquisition) where
  open a.validated use {event, request_fingerprint}

  -- A row of the same request does not bind its key to another.
  own-binds_other :
      (row : Operation)
      → row.event_hash ≡ event.event_hash
      → row.request_fingerprint ≡ request_fingerprint
      → binds_other a.validated (some row) ≡ false
  own-binds_other row same print =
      rw (same, print, text_eq_refl event.event_hash, text_eq_refl request_fingerprint) refl

  unbound_found :
      (hash : Text) (found : Option Operation) (db new : Database) (row : Operation)
      → find_by_key_hash hash db ≡ found
      → new.operations ≡ db.operations ++ row ∷ []
      → option_eq text_eq row.idempotency_key_hash (some hash) ≡ true
      → binds_other a.validated (some row) ≡ false
      → binds_other a.validated found ≡ false
      → binds_other a.validated (find_by_key_hash hash new) ≡ false
  unfolding find_by_key_hash
  unbound_found hash none db new row e grown key own free =
      rw (grown, first-append_last _ db.operations row key e) own
  unbound_found hash (some r) db new row e grown key own free =
      rw (grown, first-append_found _ db.operations r row e) free

  unbound_later :
      (key : Option Text) (db new : Database) (row : Operation)
      → new.operations ≡ db.operations ++ row ∷ []
      → row.idempotency_key_hash ≡ key
      → binds_other a.validated (some row) ≡ false
      → key_conflicts a key db ≡ false
      → key_conflicts a key new ≡ false
  unfolding key_conflicts
  unbound_later none db new row grown same own free = refl
  unbound_later (some hash) db new row grown same own free =
      unbound_found hash (find_by_key_hash hash db) db new row refl grown
        (rw (same, text_eq_refl hash) refl) own free

module _ (config : RelayConfiguration) (a : Acquisition) where
  open a.validated use {event, request_fingerprint}

  inserted-IsAdmitted :
      {created : Bool} {row : Operation} {new : Database} (blob : Option Blob) (db : Database)
      → find_by_event_hash event.event_hash db ≡ none
      → key_conflicts a a.key_hash db ≡ false
      → insert_with config a blob db ≡ acquired created row new
      → IsAdmitted a row new
  unfolding insert_with acquired_row find_by_event_hash
  inserted-IsAdmitted none db unknown free h = cc
  inserted-IsAdmitted (some blob) db unknown free h = carried a _ _ _ h (record {
    known =
        first-append_last _ db.operations (acquired_row config a blob db.next_id)
          (text_eq_refl event.event_hash) unknown;
    agrees = text_eq_refl request_fingerprint;
    unbound =
        unbound_later a a.key_hash db _ (acquired_row config a blob db.next_id) refl refl
          (own-binds_other a (acquired_row config a blob db.next_id) refl refl) free;
  })

  event-IsAdmitted :
      {created : Bool} {row : Operation} {new : Database} (found : Option Operation) (db : Database)
      → find_by_event_hash event.event_hash db ≡ found
      → key_conflicts a a.key_hash db ≡ false
      → acquire_event config a found db ≡ acquired created row new
      → IsAdmitted a row new
  unfolding acquire_unknown reserve_and_insert
  event-IsAdmitted none db unknown free h =
      inserted-IsAdmitted (find_blob a.validated.blob_id db.blobs) db unknown free
        (unrefused _ daily_budget_exceeded _ (unrefused _ invalid_transition _ h).1).1
  event-IsAdmitted (some r) db known free h =
      let (fits, given) =
        unrefused (not (text_eq r.request_fingerprint request_fingerprint)) idempotency_conflict _
          h in
      carried a _ _ _ given (record { known = known; agrees = unnegated _ fits; unbound = free })

  -- A request that `#acquireOperation` answers with a row is admitted.
  acquire-IsAdmitted :
      {created : Bool} {row : Operation} {new : Database} (db : Database)
      → acquire_operation config a db ≡ acquired created row new
      → IsAdmitted a row new
  unfolding acquire_operation
  acquire-IsAdmitted db h =
      let (free, rest) = unrefused _ idempotency_conflict _ h in
      event-IsAdmitted (find_by_event_hash event.event_hash db) db refl free rest

  retry-key_conflicts :
      (b : Acquisition) (key : Option Text) (db : Database)
      → IsRetry a b
      → key_conflicts b key db ≡ key_conflicts a key db
  unfolding key_conflicts
  retry-key_conflicts b none db same = refl
  retry-key_conflicts b (some hash) db same = elim (Option-cases (find_by_key_hash hash db)) [
    | inl e ↦ rw (e) refl
    | inr (r, e) ↦ rw (e, same.same_event, same.same_fingerprint) refl
  ]

  -- If `#acquireOperation` answers a request with a row, then it answers a later request for the same
  -- event, with the same fingerprint and the same key, with the same row, which is not new then, and
  -- leaves the database as it is: nothing is reserved or inserted twice, whatever the time, the fee
  -- and the identifier that the later request comes with.
  pub acquire_operation_again :
      (b : Acquisition) (db new : Database) (created : Bool) (row : Operation)
      → acquire_operation config a db ≡ acquired created row new
      → IsRetry a b
      → acquire_operation config b new ≡ acquired false row new
  unfolding acquire_operation
  acquire_operation_again b db new created row h same =
      let admitted = acquire-IsAdmitted db h in
      let free =
        ap (λ key. key_conflicts b key new) same.same_key
        ∙ retry-key_conflicts b a.key_hash new same
        ∙ admitted.unbound in
      let known = ap (λ hash. find_by_event_hash hash new) same.same_event ∙ admitted.known in
      let agrees = ap (text_eq row.request_fingerprint) same.same_fingerprint ∙ admitted.agrees in
      rw (free, known, agrees) refl
