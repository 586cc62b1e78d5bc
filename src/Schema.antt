-- ===== src/Schema.antt =====
-- packages/receipt-core/src/schema.ts: strict readers of the protocol's records. Each reader takes
-- the value and its path, and its statements stand in the order of the source.
pub mod Tables
pub mod Sorting
pub mod Form
pub mod Core
pub mod Envelope
pub mod State
