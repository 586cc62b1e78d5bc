-- ===== src/Relay/Traced.antt =====
-- apps/web/lib/relay: a method whose database comes by statements of the service that the chain's answers
-- justify, whatever it returns or throws.
use submittedit.Common.{
  ◌≡◌, refl, ap, ◌∙◌, subst, Bool, true, false, Option, none, some, List, [], ◌∷◌, ◌++◌,
  if◌then◌else◌,
}
use submittedit.Relay.Types.{Operation, Failure, Outcome, thrown, returned, Database}
use submittedit.Relay.Database.{Updated, refused, no_row, updated, after}
use submittedit.Relay.Steps.{Statement, execute, execute_all}
use submittedit.Common.Lists.{All}
use submittedit.Relay.Evidence.{IsJustified}
use submittedit.Relay.Action.{
  Service, Action, continue, ◌>>=◌, give, fail, or_fail, read, ask, settle, perform, demand, caught,
  catching, rolled_back, transaction,
}

All-append {ℓ κ} :
    {A : Type ℓ} (P : A → Type κ) (xs ys : List A) → All P xs → All P ys → All P (xs ++ ys)
All-append P [] ys h k = k
All-append P (x ∷ xs) ys (p, h) k = (p, All-append P xs ys h k)

module _ {W : Type 0} (service : Service W) where
  open service use {configuration}

  -- The second database comes from the first by statements that the chain's answers justify.
  abbrev pub Reaches : Database → Database → Type 0
  Reaches db later =
      (ss : List Statement) × (execute_all configuration ss db ≡ later)
      × All (IsJustified service) ss

  execute_all-append :
      (ss ts : List Statement) (db : Database)
      → execute_all configuration (ss ++ ts) db
        ≡ execute_all configuration ts (execute_all configuration ss db)
  unfolding execute_all
  execute_all-append [] ts db = refl
  execute_all-append (s ∷ ss) ts db = execute_all-append ss ts (execute configuration s db)

  pub stays : (db : Database) → Reaches db db
  unfolding execute_all
  stays db = ([], refl, tt)

  pub reaches_trans : (a b c : Database) → Reaches a b → Reaches b c → Reaches a c
  reaches_trans a b c (ss, e, g) (ts, f, h) = (
    ss ++ ts,
    execute_all-append ss ts a ∙ ap (execute_all configuration ts) e ∙ f,
    All-append (IsJustified service) ss ts g h,
  )

  pub steps :
      (s : Statement)
      → IsJustified service s
      → (db : Database) → Reaches db (execute configuration s db)
  unfolding execute_all
  steps s justified db = (s ∷ [], refl, (justified, tt))

  -- However it is called, its statements lead to the database that it leaves.
  pub record IsTraced {A : Type 0} (action : Action W A) : Type 0 where
    pub trace : (db : Database) (w : W) → Reaches db (action db w).1

  pub give-IsTraced : {A : Type 0} (a : A) → IsTraced (give a)
  give-IsTraced a = record { trace = λ db w. stays db }

  pub fail-IsTraced : {A : Type 0} (f : Failure) → IsTraced (fail {A = A} f)
  fail-IsTraced f = record { trace = λ db w. stays db }

  pub or_fail-IsTraced : {A : Type 0} (f : Failure) (o : Option A) → IsTraced (or_fail f o)
  or_fail-IsTraced f none = record { trace = λ db w. stays db }
  or_fail-IsTraced f (some a) = record { trace = λ db w. stays db }

  pub if-IsTraced :
      {A : Type 0} (b : Bool) {x y : Action W A}
      → IsTraced x
      → IsTraced y
      → IsTraced (if b then x else y)
  if-IsTraced true h k = h
  if-IsTraced false h k = k

  continue_reaches :
      {A B : Type 0} (db : Database) (r : Outcome A × Database × W) (next : A → Action W B)
      → Reaches db r.1
      → ((a : A) → IsTraced (next a))
      → Reaches db (continue r next).1
  continue_reaches db (thrown f, middle, w) next h k = h
  continue_reaches db (returned a, middle, w) next h k =
      reaches_trans db middle _ h ((k a).trace middle w)

  pub bind-IsTraced :
      {A B : Type 0} (action : Action W A) (next : A → Action W B)
      → IsTraced action
      → ((a : A) → IsTraced (next a))
      → IsTraced (action >>= next)
  unfolding ◌>>=◌
  bind-IsTraced action next h k = record {
    trace = λ db w. continue_reaches db (action db w) next (h.trace db w) k;
  }

  -- What follows a call or a SELECT.
  pub ask-IsTraced :
      {A B : Type 0} (call : W → A × W) (next : A → Action W B)
      → ((a : A) → IsTraced (next a))
      → IsTraced (ask call >>= next)
  unfolding ◌>>=◌ ask
  ask-IsTraced call next k = record { trace = λ db w. (k (call w).0).trace db (call w).1 }

  pub read-IsTraced :
      {A B : Type 0} (query : Database → A) (next : A → Action W B)
      → ((a : A) → IsTraced (next a))
      → IsTraced (read query >>= next)
  unfolding ◌>>=◌ read
  read-IsTraced query next k = record { trace = λ db w. (k (query db)).trace db w }

  -- What follows a statement, with the row that it returned.
  pub performed-IsTraced :
      {B : Type 0} (s : Statement) (statement : Database → Updated)
      (next : Option Operation → Action W B)
      → ((db : Database) → execute configuration s db ≡ after db (statement db))
      → IsJustified service s
      → IsTraced (next none)
      → ((db new : Database) (row : Operation)
          → statement db ≡ updated row new
          → IsTraced (next (some row)))
      → IsTraced (perform statement >>= next)
  unfolding ◌>>=◌ perform
  performed-IsTraced s statement next e g k_none k_some = record {
    trace = λ db w. settled db w (statement db) refl (subst (Reaches db) (e db) (steps s g db));
  }
    where
      settled :
          (db : Database) (w : W) (u : Updated)
          → statement db ≡ u
          → Reaches db (after db u)
          → Reaches db (continue (settle db w u) next).1
      settled db w refused given h = stays db
      settled db w no_row given h = k_none.trace db w
      settled db w (updated row new) given h =
          reaches_trans db new _ h ((k_some db new row given).trace new w)

  -- What follows a statement, whatever row it returned.
  pub perform-IsTraced :
      {B : Type 0} (s : Statement) (statement : Database → Updated)
      (next : Option Operation → Action W B)
      → ((db : Database) → execute configuration s db ≡ after db (statement db))
      → IsJustified service s
      → ((found : Option Operation) → IsTraced (next found))
      → IsTraced (perform statement >>= next)
  perform-IsTraced s statement next e g k =
      performed-IsTraced s statement next e g (k none) λ db new row given. k (some row)

  -- What follows a call, with its answer.
  pub answered-IsTraced :
      {A B : Type 0} (call : W → A × W) (next : A → Action W B)
      → ((a : A) (w : W) → (call w).0 ≡ a → IsTraced (next a))
      → IsTraced (ask call >>= next)
  unfolding ◌>>=◌ ask
  answered-IsTraced call next k = record {
    trace = λ db w. (k (call w).0 w refl).trace db (call w).1;
  }

  -- A branch, with the test.
  pub decided-IsTraced :
      {A : Type 0} (b : Bool) {x y : Action W A}
      → (b ≡ true → IsTraced x)
      → (b ≡ false → IsTraced y)
      → IsTraced (if b then x else y)
  decided-IsTraced true h k = h refl
  decided-IsTraced false h k = k refl

  pub demand-IsTraced : {A : Type 0} (call : W → Option A × W) → IsTraced (demand call)
  unfolding demand
  demand-IsTraced call = ask-IsTraced call _ (or_fail-IsTraced _)

  caught_reaches :
      {A : Type 0} (db : Database) (r : Outcome A × Database × W) (handler : Action W A)
      → Reaches db r.1
      → IsTraced handler
      → Reaches db (caught handler r).1
  caught_reaches db (thrown f, middle, w) handler h k =
      reaches_trans db middle _ h (k.trace middle w)
  caught_reaches db (returned a, middle, w) handler h k = h

  pub catching-IsTraced :
      {A : Type 0} (action handler : Action W A)
      → IsTraced action
      → IsTraced handler
      → IsTraced (catching action handler)
  unfolding catching
  catching-IsTraced action handler h k = record {
    trace = λ db w. caught_reaches db (action db w) handler (h.trace db w) k;
  }

  -- A transaction on this database commits one of its statements, or nothing.
  pub record Commits {A : Type 0} (db : Database) (action : Action W A) : Type 0 where
    pub commit : (w : W) → Reaches db (rolled_back db (action db w)).1

  pub give-Commits : {A : Type 0} (db : Database) (a : A) → Commits db (give a)
  give-Commits db a = record { commit = λ w. stays db }

  pub or_fail-Commits :
      {A B : Type 0} (db : Database) (f : Failure) (o : Option A) (next : A → Action W B)
      → ((a : A) → o ≡ some a → Commits db (next a))
      → Commits db (or_fail f o >>= next)
  unfolding ◌>>=◌
  or_fail-Commits db f none next k = record { commit = λ w. stays db }
  or_fail-Commits db f (some a) next k = record { commit = λ w. (k a refl).commit w }

  demand_commits :
      {A B : Type 0} (db : Database) (answer : Option A × W) (next : A → Action W B)
      → ((a : A) → answer.0 ≡ some a → Commits db (next a))
      → (f : Failure)
      → Reaches db (rolled_back db (continue (or_fail f answer.0 db answer.1) next)).1
  demand_commits db (none, w) next k f = stays db
  demand_commits db (some a, w) next k f = (k a refl).commit w

  pub demand-Commits :
      {A B : Type 0} (db : Database) (call : W → Option A × W) (next : A → Action W B)
      → ((a : A) (w : W) → (call w).0 ≡ some a → Commits db (next a))
      → Commits db (demand call >>= next)
  unfolding ◌>>=◌ demand
  demand-Commits db call next k = record {
    commit = λ w. demand_commits db (call w) next (λ a. k a w) _;
  }

  pub read-Commits :
      {A B : Type 0} (db : Database) (query : Database → A) (next : A → Action W B)
      → Commits db (next (query db))
      → Commits db (read query >>= next)
  unfolding ◌>>=◌ read
  read-Commits db query next k = record { commit = λ w. k.commit w }

  pub ask-Commits :
      {A B : Type 0} (db : Database) (call : W → A × W) (next : A → Action W B)
      → ((a : A) → Commits db (next a))
      → Commits db (ask call >>= next)
  unfolding ◌>>=◌ ask
  ask-Commits db call next k = record { commit = λ w. (k (call w).0).commit (call w).1 }

  pub if-Commits :
      {A : Type 0} (db : Database) (b : Bool) {x y : Action W A}
      → (b ≡ true → Commits db x)
      → (b ≡ false → Commits db y)
      → Commits db (if b then x else y)
  if-Commits db true h k = h refl
  if-Commits db false h k = k refl

  pub transaction-IsTraced :
      {A : Type 0} (action : Action W A)
      → ((db : Database) → Commits db action)
      → IsTraced (transaction action)
  unfolding transaction
  transaction-IsTraced action h = record { trace = λ db w. (h db).commit w }
