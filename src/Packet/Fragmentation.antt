-- ===== src/Packet/Fragmentation.antt =====
-- Long messages: the fragments that bzrtp_packetBuild makes, bzrtp_sendPacket sends and
-- bzrtp_packetCheck puts together (src/packetParser.c, src/stateMachine.c).
pub mod Tiling
pub mod Collected
pub mod Arrival
pub mod InOrder
pub mod Order
pub mod Whole
