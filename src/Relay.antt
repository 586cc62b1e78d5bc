-- ===== src/Relay.antt =====
-- apps/web/lib/relay: the service that anchors signed events on the chain and pays for them.
pub mod Types
pub mod Keys
pub mod Database
pub mod Statements
pub mod Retried
pub mod Limits
pub mod Parsing
pub mod Parsed
pub mod Requests
pub mod Steps
pub mod Tables
pub mod Ledger
pub mod Reserve
pub mod Solvent
pub mod Action
pub mod Finalize
pub mod Sending
pub mod Reconcile
pub mod Checks
pub mod Service
pub mod Evidence
pub mod Traced
pub mod Tracing
pub mod Moves
pub mod Guarded
pub mod Frozen
pub mod History
pub mod Confirming
pub mod Nonces
pub mod Assigned
