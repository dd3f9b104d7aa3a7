-- ===== src/Host.antt =====
-- The host-interface transport of ncc/host_interface.py: datagrams, and the passive receiver that
-- puts messages together from them.
pub mod Packet
pub mod Ingress
