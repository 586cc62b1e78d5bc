-- ===== src/Relay/Action.antt =====
-- apps/web/lib/relay: a method of the service as a function of the database and of the world, which
-- returns a value or throws. The world is what answers the calls of the chain's gateway, of the clock
-- and of the generator of random identifiers: each call may change it.
use submittedit.Common.{ℕ, ◌≡◌, Bool, Option, none, some}
use submittedit.Text.{Text}
use submittedit.Host.{Host}
use submittedit.Contract.{AnchorRequest}
use submittedit.Relay.Keys.{NodeCrypto}
use submittedit.Relay.Types.{
  Failure, service_error, other_error, Outcome, thrown, returned, rpc_unavailable,
  RelayConfiguration, RelayContractState, RelayFeeQuote, PreparedRelayTransaction,
  RelayTransactionReceipt, Operation, Database,
}
use submittedit.Relay.Database.{Updated, refused, no_row, updated}

-- The end of `waitForReceipt`: a receipt, or an error and what `isTimeoutError` says of it.
pub data Waited : Type 0 where
  arrived : RelayTransactionReceipt → Waited
  rejected : Bool → Waited

-- `RelayChainGateway`, the clock and the generator of identifiers; `none` where a call rejects.
pub record Gateway (W : Type 0) : Type 0 where
  pub get_balance : W → Option ℕ × W
  pub get_chain_id : W → Option ℕ × W
  -- Whether the address has code.
  pub has_contract_code : W → Option Bool × W
  pub get_relayer_address : W → Option Text × W
  pub get_protocol_version : W → Option ℕ × W
  pub get_pending_nonce : W → Option ℕ × W
  pub get_receipt_state : Text → Text → W → Option RelayContractState × W
  pub estimate_anchor : AnchorRequest → W → Option RelayFeeQuote × W
  pub prepare_anchor : AnchorRequest → RelayFeeQuote → ℕ → W → Option PreparedRelayTransaction × W
  pub broadcast_transaction : PreparedRelayTransaction → W → Option Text × W
  -- The number of confirmations and the time to wait are those of the configuration.
  pub wait_for_receipt : Text → ℕ → ℕ → W → Waited × W
  pub read_transaction_receipt : Text → W → Option (Option RelayTransactionReceipt) × W
  pub read_clock : W → ℕ × W
  pub draw_id : W → Text × W

-- What a service is made with, and the code that it calls outside the repository.
pub record Service (W : Type 0) : Type 0 where
  pub configuration : RelayConfiguration
  pub gateway : Gateway W
  pub host : Host
  pub crypto : NodeCrypto
  pub abuse_hash_key : Text
  -- `isAddress(value, { strict: true })` of viem.
  pub is_address : Text → Bool

abbrev pub Action : Type 0 → Type 0 → Type 0
Action W A = Database → W → Outcome A × Database × W

module _ {W A B : Type 0} where
  -- What follows a statement, where it has not thrown.
  abbrev pub continue : Outcome A × Database × W → (A → Action W B) → Outcome B × Database × W
  continue (thrown f, db, w) next = (thrown f, db, w)
  continue (returned a, db, w) next = next a db w

  infixl 5 ◌>>=◌
  unfoldable pub ◌>>=◌ : Action W A → (A → Action W B) → Action W B
  (action >>= next) db w = continue (action db w) next

module _ {W : Type 0} where
  abbrev pub give : {A : Type 0} → A → Action W A
  give a db w = (returned a, db, w)

  abbrev pub fail : {A : Type 0} → Failure → Action W A
  fail f db w = (thrown f, db, w)

  abbrev pub or_fail : {A : Type 0} → Failure → Option A → Action W A
  or_fail f none = fail f
  or_fail f (some a) = give a

  -- A SELECT.
  unfoldable pub read : {A : Type 0} → (Database → A) → Action W A
  read query db w = (returned (query db), db, w)

  -- A call out of the service.
  unfoldable pub ask : {A : Type 0} → (W → A × W) → Action W A
  ask call db w = (returned (call w).0, db, (call w).1)

  abbrev pub settle : Database → W → Updated → Outcome (Option Operation) × Database × W
  settle db w refused = (thrown other_error, db, w)
  settle db w no_row = (returned none, db, w)
  settle db w (updated row new) = (returned (some row), new, w)

  -- A statement that returns its row; an update that the trigger refuses throws.
  unfoldable pub perform : (Database → Updated) → Action W (Option Operation)
  perform statement db w = settle db w (statement db)

  -- A call of the chain that throws where it rejects.
  unfoldable pub demand : {A : Type 0} → (W → Option A × W) → Action W A
  unfolding ◌>>=◌ ask
  demand call = ask call >>= λ answer. or_fail other_error answer

  -- `#chainCall`.
  unfoldable pub chain_call : {A : Type 0} → (W → Option A × W) → Action W A
  unfolding ◌>>=◌ ask
  chain_call call = ask call >>= λ answer. or_fail (service_error rpc_unavailable) answer

  abbrev pub caught :
      {A : Type 0} → Action W A → Outcome A × Database × W → Outcome A × Database × W
  caught handler (thrown f, db, w) = handler db w
  caught handler (returned a, db, w) = (returned a, db, w)

  -- `try { return await action } catch { return handler }`.
  unfoldable pub catching : {A : Type 0} → Action W A → Action W A → Action W A
  catching action handler db w = caught handler (action db w)

  abbrev pub rolled_back :
      {A : Type 0} → Database → Outcome A × Database × W → Outcome A × Database × W
  rolled_back old (thrown f, db, w) = (thrown f, old, w)
  rolled_back old (returned a, db, w) = (returned a, db, w)

  -- `database.begin(…)`.
  unfoldable pub transaction : {A : Type 0} → Action W A → Action W A
  transaction action db w = rolled_back db (action db w)

-- apps/web/lib/relay/chain.ts: what is prepared carries the nonce that it was prepared for.
pub record PreparesNonce {W : Type 0} (gateway : Gateway W) : Type 0 where
  pub prepared_nonce :
      (request : AnchorRequest) (fee : RelayFeeQuote) (nonce : ℕ) (w : W)
      (prepared : PreparedRelayTransaction)
      → (gateway.prepare_anchor request fee nonce w).0 ≡ some prepared
      → prepared.nonce ≡ nonce
