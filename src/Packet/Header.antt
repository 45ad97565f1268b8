-- ===== src/Packet/Header.antt =====
-- The headers of a message and of a packet and the checksum that ends a packet (zrtpMessageSetHeader,
-- zrtpPacketSetHeader and bzrtp_packetSetSequenceNumber of src/packetParser.c). Buffers of malloc hold
-- `junk` until they are written.
use bzrtp.Common.{
  ℕ, ◌+◌, ◌/◌, ◌%◌, Bytes, bytes16, bytes32, write_at, take, ◌∷◌, ◌++◌, none, some, Result, ok, err,
  ◌>>=◌, Error,
}
use bzrtp.Packet.Types.{MessageType, Packet}
use bzrtp.Crc.{crc32}

-- ZRTP_MAGIC_COOKIE.
abbrev pub magic_cookie : ℕ
magic_cookie = 0x5a525450

abbrev pub message_set_header : ℕ → Bytes → Bytes
message_set_header message_length message_type =
    0x50 ∷ 0x5a ∷ (bytes16 (message_length / 4) ++ message_type)

abbrev pub first_byte : MessageType → ℕ
first_byte MessageType.fragment = 0x11
first_byte _ = 0x10

-- The twelve bytes of the packet header; those of the sequence number are not written yet.
abbrev pub packet_set_header : ℕ → MessageType → ℕ → Bytes
packet_set_header junk message_type source_identifier =
    first_byte message_type
    ∷ 0x00
    ∷ junk
    ∷ junk
    ∷ (bytes32 magic_cookie ++ bytes32 source_identifier)

abbrev pub packet_header_length : MessageType → ℕ
packet_header_length MessageType.fragment = 20
packet_header_length _ = 12

-- The buffer of bzrtp_packetSetSequenceNumber, with the sequence number, then the checksum, written.
unfoldable pub number_and_checksum : ℕ → ℕ → Bytes → Result Bytes
number_and_checksum sequence_number covered packet_string = do
  numbered ← write_at 2 (bytes16 sequence_number) packet_string
  write_at covered (bytes32 (crc32 (take (covered % 65536) numbered))) numbered

unfoldable pub packet_set_sequence_number : Packet → ℕ → Result Packet
unfolding number_and_checksum
packet_set_sequence_number p sequence_number = elim p.packet_string [
  | none ↦ err Error.builder_error_invalid_packet
  | some packet_string ↦ do
    packet_string ←
        number_and_checksum sequence_number (p.message_length + packet_header_length p.message_type)
          packet_string
    ok (record p { sequence_number = sequence_number; packet_string = some packet_string })
]
