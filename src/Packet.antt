-- ===== src/Packet.antt =====
-- The ZRTP packets (src/packetParser.c): their data, the headers, the checks on a received packet and
-- the reassembly of fragments, the parser and the builder of each message.
pub mod Types
pub mod Names
pub mod Header
pub mod Reassembly
pub mod Check
pub mod Parser
pub mod Builder
pub mod Send
pub mod Delivery
pub mod RoundTrip
pub mod Fragmentation
pub mod Seal
