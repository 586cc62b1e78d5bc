-- ===== src/Capture.antt =====
-- packages/receipt-core/src/capture-policy.ts: which fields of a form are captured, and which are
-- excluded and why.
pub mod Candidate
pub mod Policy
pub mod Placed
pub mod Conserved
