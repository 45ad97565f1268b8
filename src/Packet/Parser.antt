-- ===== src/Packet/Parser.antt =====
-- bzrtp_packetParser (src/packetParser.c): the message of a checked packet, by its type. An error
-- leaves the packet as it is.
use bzrtp.Common.{
  ℕ, Bytes, drop, read, Option, none, some, Result, ok, err, fault, ◌>>=◌, ◌>>◌, guard, Error, ◌==◌,
}
use bzrtp.Packet.Types.{MessageType, Packet, go_clear_data, ping_data}
use bzrtp.Channel.{Crypto, Channel}
use bzrtp.Algo.Lengths.{KemSizes}
use bzrtp.Packet.Parser.Hello.{parse_hello}
use bzrtp.Packet.Parser.Commit.{parse_commit}
use bzrtp.Packet.Parser.DhPart.{parse_dhpart}
use bzrtp.Packet.Parser.Confirm.{parse_confirm}
pub mod Reading
pub mod Hello
pub mod Commit
pub mod DhPart
pub mod Confirm
pub mod Authentic
pub mod Accepted
pub mod Confirmed

unfoldable pub parse_hello_ack : Packet → Result Packet
parse_hello_ack p = do guard (p.message_length == 12) Error.parser_error_invalid_message; ok p

unfoldable pub parse_go_clear : Bytes → Packet → Result Packet
parse_go_clear input p = do
  (clear_mac, content) ← read 8 (drop 24 input)
  ok (record p { message_data = some (go_clear_data (record { clear_mac = clear_mac })) })

unfoldable pub parse_ping : Bytes → Packet → Result Packet
parse_ping input p = do
  (version, content) ← read 4 (drop 24 input)
  (endpoint_hash, content) ← read 8 content
  ok (record p {
    message_data = some (ping_data (record { version = version; endpoint_hash = endpoint_hash }));
  })

unfoldable pub parse_as :
    KemSizes → KemSizes → Crypto → Channel → Bytes → ℕ → Packet → MessageType → Result Packet
unfolding parse_hello_ack parse_go_clear parse_ping
parse_as pk ct c ch input n p MessageType.hello = parse_hello c ch.peer_hello_hash input n p
parse_as pk ct c ch input n p MessageType.hello_ack = parse_hello_ack p
parse_as pk ct c ch input n p MessageType.commit =
    parse_commit pk ct c ch.peer_packets.hello input n p
parse_as pk ct c ch input n p MessageType.dhpart1 = parse_dhpart pk ct c ch input n p
parse_as pk ct c ch input n p MessageType.dhpart2 = parse_dhpart pk ct c ch input n p
parse_as pk ct c ch input n p MessageType.confirm1 = parse_confirm c ch input n p
parse_as pk ct c ch input n p MessageType.confirm2 = parse_confirm c ch input n p
parse_as pk ct c ch input n p MessageType.go_clear = parse_go_clear input p
parse_as pk ct c ch input n p MessageType.ping = parse_ping input p
parse_as pk ct c ch input n p _ = ok p

unfoldable pub packet_parser :
    KemSizes → KemSizes → Crypto → Channel → Bytes → ℕ → Packet → Result Packet
unfolding parse_as
packet_parser pk ct c ch input input_length p =
    parse_as pk ct c ch input input_length p p.message_type
