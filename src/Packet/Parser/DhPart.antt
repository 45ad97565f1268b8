-- ===== src/Packet/Parser/DhPart.antt =====
-- The MSGTYPE_DHPART1 and MSGTYPE_DHPART2 cases of bzrtp_packetParser (src/packetParser.c).
use bzrtp.Common.{
  ℕ, ◌+◌, Bytes, drop, read, ◌++◌, Option, none, some, Result, ok, fault, ◌>>=◌, ◌>>◌, guard, Error,
  if◌then◌else◌, ◌==◌, ltb, not, bytes_eq, length,
}
use bzrtp.Packet.Types.{MessageType, Packet, DhPartMessage, dhpart_data}
use bzrtp.Packet.Parser.Reading.{message_bytes, stored_commit, check_hello, check_commit}
use bzrtp.Channel.{Crypto, HashFunction, sha256, Role, initiator, responder, Channel}
use bzrtp.Algo.Lengths.{
  KemSizes, compute_key_agreement_public_value_length, PublicValueMessage, in_dhpart1, in_dhpart2,
}

-- The message type as bzrtp_computeKeyAgreementPublicValueLength takes it, for a DHPart.
abbrev pub dhpart_message : MessageType → PublicValueMessage
dhpart_message MessageType.dhpart1 = in_dhpart1
dhpart_message _ = in_dhpart2

-- The message of a packet that the builder made.
unfoldable pub built_message : Option Packet → Result Bytes
unfolding message_bytes
built_message none = fault
built_message (some p) = elim p.packet_string [
  | none ↦ fault
  | some buffer ↦ message_bytes p.message_length buffer
]

-- hvi: the agreed hash of the initiator's DHPart2 followed by the responder's Hello. The length of the
-- two together is a uint16_t.
unfoldable pub compute_hvi : Crypto → Option HashFunction → Bytes → Bytes → Result Bytes
compute_hvi c none dhpart hello = fault
compute_hvi c (some f) dhpart hello =
    if ltb (length dhpart + length hello) 65536 then ok (c.hash f (dhpart ++ hello) 32) else fault

-- The checks of the responder against the peer's Commit.
unfoldable pub check_as_responder : Crypto → Channel → Bytes → Packet → Bytes → Result (Unit {0})
unfolding check_commit stored_commit built_message compute_hvi
check_as_responder c ch input p h1 = do
  check_commit c ch.peer_packets.commit h1
  (_, commit) ← stored_commit ch.peer_packets.commit
  dhpart ← message_bytes p.message_length input
  hello ← built_message ch.self_packets.hello
  hvi ← compute_hvi c ch.hash_function dhpart hello
  guard (bytes_eq hvi commit.hvi) Error.parser_error_unmatching_hvi

-- The hash chain and the MAC of an earlier message of the peer; hvi for the responder only.
unfoldable pub check_dhpart_chain :
    Crypto → Channel → Role → Bytes → Packet → Bytes → Result (Unit {0})
unfolding check_as_responder check_hello
check_dhpart_chain c ch responder input p h1 = check_as_responder c ch input p h1
check_dhpart_chain c ch initiator input p h1 =
    check_hello c ch.peer_packets.hello (c.hash sha256 h1 32)

-- The message behind its H1.
unfoldable pub parse_dhpart_message : ℕ → Bytes → Bytes → Result DhPartMessage
parse_dhpart_message pv_length h1 content = do
  (rs1_id, content) ← read 8 content
  (rs2_id, content) ← read 8 content
  (auxsecret_id, content) ← read 8 content
  (pbxsecret_id, content) ← read 8 content
  (pv, content) ← read pv_length content
  (mac, content) ← read 8 content
  ok (record {
    h1 = h1;
    rs1_id = rs1_id;
    rs2_id = rs2_id;
    auxsecret_id = auxsecret_id;
    pbxsecret_id = pbxsecret_id;
    pv = pv;
    mac = mac;
  })

unfoldable pub parse_dhpart :
    KemSizes → KemSizes → Crypto → Channel → Bytes → ℕ → Packet → Result Packet
unfolding check_dhpart_chain parse_dhpart_message
parse_dhpart pk ct c ch input input_length p =
    let pv_length =
      compute_key_agreement_public_value_length pk ct ch.key_agreement_algo
        (dhpart_message p.message_type) in
    do
      guard (not (pv_length == 0)) Error.parser_error_invalid_context
      guard (p.message_length == 84 + pv_length) Error.parser_error_invalid_message
      (h1, content) ← read 32 (drop 24 input)
      check_dhpart_chain c ch ch.role input p h1
      message ← parse_dhpart_message pv_length h1 content
      (stored, rest) ← read input_length input
      ok (record p { message_data = some (dhpart_data message); packet_string = some stored })
