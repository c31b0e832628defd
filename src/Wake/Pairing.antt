-- ===== src/Wake/Pairing.antt =====
-- crates/rdesk_server/src/wake/pairing.rs: the enrolment of a computer by phone.
pub mod State
pub mod Proofs
pub mod Routes
