-- ===== src/Relay/Evidence.antt =====
-- apps/web/lib/relay/relay-service.ts: what the chain must have answered before `#finalizeReceipt` and
-- `#broadcastPrepared` make a statement.
use submittedit.Common.{ℕ, ◌≡◌, ◌≤◌, ◌⊎◌, true, false, some}
use submittedit.Text.{Text}
use submittedit.Relay.Types.{
  RelayContractState, RelayTransactionReceipt, PreparedRelayTransaction, Operation,
}
use submittedit.Relay.Action.{Service, arrived}
use submittedit.Relay.Steps.{Statement, charges, reverts, mismatches, confirms, submits}

-- The contract holds what the operation anchored.
pub record IsAnchored (state : RelayContractState) (row : Operation) : Type 0 where
  pub event_anchored : state.is_event_anchored ≡ true
  pub stage_reached : row.contract_stage ≤ state.current_stage
  pub same_key : state.extension_key_hash ≡ row.extension_key_hash

module _ {W : Type 0} (service : Service W) where
  open service use {configuration, gateway}

  -- The gateway has answered with this receipt.
  pub data IsAnswer (receipt : RelayTransactionReceipt) : Type 0 where
    waited_for :
        (hash : Text) (w : W)
        → (gateway.wait_for_receipt hash configuration.confirmation_target
            configuration.confirmation_timeout_ms w).0
          ≡ arrived receipt
        → IsAnswer receipt
    read_back :
        (hash : Text) (w : W)
        → (gateway.read_transaction_receipt hash w).0 ≡ some (some receipt)
        → IsAnswer receipt

  -- The operation's own transaction is in the block, as deep as the configuration asks.
  pub record IsMined (id block : ℕ) : Type 0 where
    pub row : Operation
    pub receipt : RelayTransactionReceipt
    pub is_row : row.id ≡ id
    pub answered : IsAnswer receipt
    pub deep_enough : configuration.confirmation_target ≤ receipt.confirmations
    pub own_hash : row.transaction_hash ≡ some receipt.transaction_hash
    pub in_block : receipt.block_number ≡ block

  -- The gateway has answered with this state of the operation's receipt.
  abbrev pub IsState : Operation → RelayContractState → Type 0
  IsState row state =
      (w : W) × ((gateway.get_receipt_state row.receipt_id row.event_hash w).0 ≡ some state)

  -- It agrees with the operation.
  abbrev pub Agrees : Operation → Type 0
  Agrees row = (state : RelayContractState) × IsState row state × IsAnchored state row

  abbrev pub Differs : Operation → Type 0
  Differs row = (state : RelayContractState) × IsState row state × (¬ (IsAnchored state row))

  -- A transaction is charged, reverted, refused or confirmed by its receipt, and submitted by the
  -- answer to its broadcast.
  abbrev pub IsJustified : Statement → Type 0
  IsJustified (charges id block) = IsMined id block
  IsJustified (reverts id block now) =
      (mined : IsMined id block) × (mined.receipt.is_reverted ≡ true)
  IsJustified (mismatches id block now) =
      (mined : IsMined id block) × (mined.receipt.is_reverted ≡ false)
      × ((mined.receipt.contract_event_found ≡ false) ⊎ Differs mined.row)
  IsJustified (confirms id block now) =
      (mined : IsMined id block) × (mined.receipt.is_reverted ≡ false)
      × (mined.receipt.contract_event_found ≡ true)
      × Agrees mined.row
  IsJustified (submits id now at) =
      (prepared : PreparedRelayTransaction) × (w : W) × ((gateway.broadcast_transaction prepared
          w).0
        ≡ some prepared.hash)
  IsJustified _ = Unit
