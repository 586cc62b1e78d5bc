-- ===== src/Lifecycle.antt =====
-- packages/receipt-core/src/lifecycle.ts: the transitions between stages, the validation of a linked
-- chain of events, the derived status, and the validation and creation of receipts.
pub mod Transitions
pub mod Status
pub mod Chain
pub mod Links
pub mod Linked
pub mod Terminal
pub mod Claims
pub mod Decision
pub mod Receipts
