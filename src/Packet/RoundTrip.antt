-- ===== src/Packet/RoundTrip.antt =====
-- Messages that are built by bzrtp_packetBuild and parsed by bzrtp_packetParser (src/packetParser.c).
pub mod Reading
pub mod Frame
pub mod Stored
pub mod Hello
pub mod Commit
pub mod DhPart
pub mod ConfirmPlain
pub mod Confirm
pub mod CommitVariable
