-- ===== src/Types.antt =====
-- packages/receipt-core/src/types.ts: the data of the protocol. A literal type with one value (an
-- algorithm, an encoding, `true`) is left out of its record.
mod Stages
mod Capture
mod Events
pub mod EnumNames
pub mod Values
unfoldable pub use Stages.*
pub use Capture.*
pub use Events.*
