-- ===== src/Relay/History.antt =====
-- apps/web/lib/relay/relay-service.ts: the history of an operation, in every order of the statements of all
-- requests.
use submittedit.Common.{ℕ, ◌≡◌, refl, sym, ap, ◌∙◌, ◌⊎◌, inl, inr, true, some, List, [], ◌∷◌, subst}
use submittedit.Relay.Types.{RelayConfiguration, Operation, Database}
use submittedit.Relay.Database.{is_some, is_terminal, find_operation, update_is_allowed}
use submittedit.Relay.Steps.{Statement, execute, execute_all}
use submittedit.Relay.Guarded.{execute-Has}
use submittedit.Relay.Moves.{IsStep, allowed-IsStep}
use submittedit.Relay.Frozen.{
  SameTransaction, SameResult, sent-SameTransaction, terminal-SameResult, SameTransaction-trans,
  SameTransaction-refl,
}

module _ (config : RelayConfiguration) (id : ℕ) where
  -- What the updates that the trigger allows keep of a row, all statements keep.
  history :
      (P : Operation → Type 0)
      → ((r later : Operation) → P r → update_is_allowed r later ≡ true → P later)
      → (ss : List Statement) (db : Database) (row : Operation)
      → find_operation id db.operations ≡ some row
      → P row
      → (later : Operation) × (find_operation id (execute_all config ss db).operations ≡ some later)
        × (later.binding ≡ row.binding)
        × P later
  unfolding execute_all
  history P keeps [] db row found p = (row, found, refl, p)
  history P keeps (s ∷ ss) db row found p =
      let (next, found_next, (same, change)) = execute-Has id row config s db found in
      let (later, found_later, same_later, q) =
        history P keeps ss (execute config s db) next found_next (changed next change) in
      (later, found_later, same_later ∙ same, q)
    where
      changed : (next : Operation) → (next ≡ row) ⊎ (update_is_allowed row next ≡ true) → P next
      changed next (inl e) = subst P (sym e) p
      changed next (inr allowed) = keeps row next p allowed

  -- Each statement in turn leaves the row there, with its identity, and its state the same or moved.
  pub HasPath : List Statement → Database → Operation → Type 0
  HasPath [] db row = Unit
  HasPath (s ∷ ss) db row =
      (next : Operation) × (find_operation id (execute config s db).operations ≡ some next)
      × (next.binding ≡ row.binding)
      × IsStep row.state next.state
      × HasPath ss (execute config s db) next

  -- In every order of the statements of any requests, no statement removes an operation or changes its
  -- identity, and each leaves its state as it is or makes one move of `Moves`.
  pub execute_all-HasPath :
      (ss : List Statement) (db : Database) (row : Operation)
      → find_operation id db.operations ≡ some row
      → HasPath ss db row
  unfolding HasPath
  execute_all-HasPath [] db row found = tt
  execute_all-HasPath (s ∷ ss) db row found =
      let (next, found_next, (same, change)) = execute-Has id row config s db found in
      (
        next,
        found_next,
        same,
        stepped next change,
        execute_all-HasPath ss (execute config s db) next found_next,
      )
    where
      stepped :
          (next : Operation)
          → (next ≡ row) ⊎ (update_is_allowed row next ≡ true)
          → IsStep row.state next.state
      stepped next (inl e) = inl (ap (λ r. r.state) e)
      stepped next (inr allowed) = allowed-IsStep row next allowed

  -- Once an operation has a transaction, no order of the statements of any requests gives it another
  -- hash, nonce or fee: what is broadcast again is the transaction that was signed first.
  pub execute_all-SameTransaction :
      (ss : List Statement) (db : Database) (row : Operation)
      → find_operation id db.operations ≡ some row
      → is_some row.transaction_hash ≡ true
      → (later : Operation) × (find_operation id (execute_all config ss db).operations ≡ some later)
        × (later.binding ≡ row.binding)
        × SameTransaction row later
  execute_all-SameTransaction ss db row found sent =
      history (SameTransaction row)
        (λ r later same allowed.
          SameTransaction-trans row r later same
            (sent-SameTransaction r later (ap is_some same.same_hash ∙ sent) allowed))
        ss db row found (SameTransaction-refl row)

  -- An operation that is CONFIRMED, REVERTED or FAILED_FINAL keeps its state, its transaction, its
  -- block and its fees in every order of the statements of any requests.
  pub execute_all-SameResult :
      (ss : List Statement) (db : Database) (row : Operation)
      → find_operation id db.operations ≡ some row
      → is_terminal row.state ≡ true
      → (later : Operation) × (find_operation id (execute_all config ss db).operations ≡ some later)
        × (later.binding ≡ row.binding)
        × SameResult row later
  execute_all-SameResult ss db row found over =
      history (SameResult row)
        (λ r later same allowed.
          joined r later same
            (terminal-SameResult r later (ap is_terminal same.same_state_too ∙ over) allowed))
        ss db row found
        (record {
          same_transaction_too = SameTransaction-refl row;
          same_state_too = refl;
          same_block = refl;
          same_reserved = refl;
          same_charged = refl;
          same_confirmed_at = refl;
        })
    where
      joined : (r later : Operation) → SameResult row r → SameResult r later → SameResult row later
      joined r later f g = record {
        same_transaction_too =
            SameTransaction-trans row r later f.same_transaction_too g.same_transaction_too;
        same_state_too = g.same_state_too ∙ f.same_state_too;
        same_block = g.same_block ∙ f.same_block;
        same_reserved = g.same_reserved ∙ f.same_reserved;
        same_charged = g.same_charged ∙ f.same_charged;
        same_confirmed_at = g.same_confirmed_at ∙ f.same_confirmed_at;
      }
