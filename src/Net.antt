-- ===== src/Net.antt =====
-- crates/rdesk_net: the streams of a connection, and the discovery of addresses.
pub mod Stream
pub mod Stun
pub mod NatDetect
pub mod HolePunch
pub mod Rendezvous
pub mod Endpoint
