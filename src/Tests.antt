-- ===== src/Tests.antt =====
-- A concrete platform, concrete events and receipts, runs of the code on them, and the theorems at
-- them.
pub mod Platform
pub mod Running
pub mod Samples
pub mod Examples
pub mod Relaying
pub mod RelayExamples
