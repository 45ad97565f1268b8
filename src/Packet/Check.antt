-- ===== src/Packet/Check.antt =====
-- bzrtp_packetCheck (src/packetParser.c): what makes a datagram a ZRTP packet. The input buffer is a
-- list whose length is `*inputLength`; the context is never NULL.
use bzrtp.Common.{
  ℕ, ◌-◌, ◌*◌, ◌%◌, Bytes, be16, be32, get_or, take, drop, length, read, [], none, some, Result, ok,
  err, fault, ◌>>=◌, ◌>>◌, guard, Error, ◌==◌, ltb, Bool, true, false, ◌&&◌, ◌||◌, not,
}
use bzrtp.Packet.Types.{MessageType, Packet}
use bzrtp.Packet.Names.{message_type_string_to_int}
use bzrtp.Packet.Reassembly.{reassemble, Reassembled, incomplete, complete}
use bzrtp.Channel.{Channel}
use bzrtp.Crc.{crc32}

-- A packet, with `*inputPtr` and `*inputLength` as the function leaves them.
pub record Checked : Type 0 where
  pub packet : Packet
  pub input : Bytes
  pub input_length : ℕ

abbrev pub byte : Bytes → ℕ → ℕ
byte input i = get_or input i 0

-- `*inputLength < ZRTP_MIN_PACKET_LENGTH || *inputLength > ZRTP_MAX_PACKET_LENGTH`.
unfoldable pub check_size : ℕ → Result (Unit {0})
check_size n = guard (not (ltb n 28 || ltb 3072 n)) Error.parser_error_invalid_packet

unfoldable pub check_magic : Bytes → Result (Unit {0})
check_magic input =
    guard
      ((byte input 0 == 0x10 || byte input 0 == 0x11)
        && (byte input 1 == 0
            && (byte input 4 == 0x5a
                && (byte input 5 == 0x52 && (byte input 6 == 0x54 && byte input 7 == 0x50)))))
      Error.parser_error_invalid_packet

-- The sequence number of a packet that is no fragment is larger than the last one.
unfoldable pub check_sequence : ℕ → Bool → ℕ → Result (Unit {0})
check_sequence peer_sequence_number is_fragmented sequence_number =
    guard (is_fragmented || ltb peer_sequence_number sequence_number)
      Error.parser_error_out_of_order

-- `packetCRC`, of the four bytes that end the packet.
abbrev pub packet_crc : Bytes → ℕ
packet_crc tail = be32 (byte tail 0) (byte tail 1) (byte tail 2) (byte tail 3)

unfoldable pub check_crc : Bytes → Result (Unit {0})
check_crc input =
    guard (crc32 (take (length input - 4) input) == packet_crc (drop (length input - 4) input))
      Error.parser_error_invalid_crc

-- The tests on the packet header and the checksum: is the packet a fragment, and its sequence number.
unfoldable pub check_packet_header : ℕ → Bytes → Result (Bool × ℕ)
unfolding check_size check_magic check_sequence check_crc
check_packet_header peer_sequence_number input =
    let is_fragmented = byte input 0 == 0x11 in
    let sequence_number = be16 (byte input 2) (byte input 3) in
    do
      check_size (length input)
      check_magic input
      check_sequence peer_sequence_number is_fragmented sequence_number
      check_crc input
      ok (is_fragmented, sequence_number)

unfoldable pub is_invalid : MessageType → Bool
is_invalid MessageType.invalid = true
is_invalid _ = false

-- The tests on the message header, and the packet.
unfoldable pub check_message_header : ℕ → Bytes → Result Packet
unfolding is_invalid
check_message_header sequence_number input = do
  (header, message) ← read 12 input
  (preamble, message) ← read 2 message
  guard (get_or preamble 0 0 == 0x50 && get_or preamble 1 0 == 0x5a)
      Error.parser_error_invalid_message
  (words, message) ← read 2 message
  (name, message) ← read 8 message
  guard (not (is_invalid (message_type_string_to_int name))) Error.parser_error_invalid_message
  ok (record {
    sequence_number = sequence_number;
    source_identifier =
        be32 (get_or header 8 0) (get_or header 9 0) (get_or header 10 0) (get_or header 11 0);
    message_type = message_type_string_to_int name;
    message_length = 4 * be16 (get_or words 0 0) (get_or words 1 0) % 65536;
    message_data = none;
    packet_string = none;
    fragments = [];
  })

-- The packet of a buffer that is an entire packet.
unfoldable pub check_entire : ℕ → Bytes → ℕ → Result Checked
check_entire sequence_number input input_length = do
  packet ← check_message_header sequence_number input
  ok (record { packet = packet; input = input; input_length = input_length })

-- What follows the reassembly of a fragment; the state is that of the reassembly.
unfoldable pub check_reassembled : ℕ → Reassembled → Result Checked
check_reassembled sequence_number incomplete = err Error.parser_info_packet_fragment
check_reassembled sequence_number (complete none n) = fault
check_reassembled sequence_number (complete (some buffer) n) = check_entire sequence_number buffer n

-- The context after the call and the outcome.
unfoldable pub packet_check : ℕ → Bytes → Channel → Channel × Result Checked
packet_check junk input ch = elim (check_packet_header ch.peer_sequence_number input) [
  | err e ↦ (ch, err e)
  | fault ↦ (ch, fault)
  | ok (false, sequence_number) ↦ (ch, check_entire sequence_number input (length input))
  | ok (true, sequence_number) ↦ elim (reassemble junk input ch.incoming_fragmented_packet) [
    | err e ↦ (ch, err e)
    | fault ↦ (ch, fault)
    | ok (r, outcome) ↦
        (record ch { incoming_fragmented_packet = r }, check_reassembled sequence_number outcome)
  ]
]
