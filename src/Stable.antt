-- ===== src/Stable.antt =====
-- packages/receipt-core/src/schema.ts and packages/receipt-core/src/protocol.ts: what a reader has
-- returned, read again as the JavaScript object that it is, from the enumerations up to event cores
-- and their hashes.
pub mod Enums
pub mod Lists
pub mod Form
pub mod Fields
pub mod Sorted
pub mod Ordered
pub mod Core
pub mod Events
pub mod Hashes
