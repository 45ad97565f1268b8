-- ===== src/Packet/Delivery.antt =====
-- What an endpoint sends as one datagram is what its peer accepts: bzrtp_packetSetSequenceNumber and
-- bzrtp_sendPacket against bzrtp_packetCheck (src/packetParser.c, src/stateMachine.c).
use bzrtp.Common.{
  ℕ, ◌+◌, ◌*◌, ◌/◌, ◌%◌, ◌^◌, ◌<◌, ◌≤◌, Bytes, be16, be32, bytes16, bytes32, length, length-append,
  replicate, read-append, take_all, [], ◌∷◌, ◌++◌, append_assoc, none, some, ok, false, ◌≡◌, refl,
  ap, ◌∙◌, arith, inr,
}
use bzrtp.Packet.Types.{MessageType, Packet}
use bzrtp.Packet.Names.{message_type_int_to_string, message_type-string_to_int-int_to_string}
use bzrtp.Packet.Header.{
  first_byte, packet_header_length, packet_set_header, magic_cookie, number_and_checksum,
  message_set_header, packet_set_sequence_number,
}
use bzrtp.Packet.Check.{
  check_packet_header, check_message_header, check_entire, packet_check, is_invalid, byte,
}
use bzrtp.Packet.Builder.{build_entire}
use bzrtp.Packet.Send.{send_entire, datagram, next_sequence_number}
use bzrtp.Packet.Seal.{
  sealed, header_string, number_and_checksum-sealed, check_packet_header-sealed, be32-bytes32,
}
use bzrtp.Channel.{Channel}
use bzrtp.Crc.{crc32}

-- The packet that the peer makes of a message of type t.
abbrev pub received_packet : ℕ → ℕ → MessageType → ℕ → Packet
received_packet seq ssrc t message_length = record {
  sequence_number = seq;
  source_identifier = ssrc;
  message_type = t;
  message_length = message_length;
  message_data = none;
  packet_string = none;
  fragments = [];
}

is_invalid_named :
    (t : MessageType) {name : Bytes}
    → message_type_int_to_string t ≡ some name
    → is_invalid t ≡ false
unfolding is_invalid message_type_int_to_string
is_invalid_named MessageType.invalid e = cc
is_invalid_named _ e = refl

-- The source of a packet, from the header that stands before its message.
abbrev pub source_of : Bytes → ℕ
source_of header = be32 (byte header 8) (byte header 9) (byte header 10) (byte header 11)

-- The message header decides about a buffer, whatever the twelve bytes before it are.
pub check_message_header-message_set_header :
    (seq n : ℕ) (header : Bytes) (t : MessageType) (name rest : Bytes)
    → length header ≡ 12
    → message_type_int_to_string t ≡ some name
    → length name ≡ 8
    → n < 65536
    → n % 4 ≡ 0
    → check_message_header seq (header ++ (message_set_header n name ++ rest))
      ≡ ok (received_packet seq (source_of header) t n)
unfolding check_message_header
check_message_header-message_set_header seq n header t name rest h12 e h lt d =
    let word : 4 * be16 (n / 4 / 256 % 256) (n / 4 % 256) % 65536 ≡ n = omega arith in
    rw (
      read-append 12 header (message_set_header n name ++ rest) h12,
      read-append 2 (0x50 ∷ 0x5a ∷ []) (bytes16 (n / 4) ++ (name ++ rest)) refl,
      read-append 2 (bytes16 (n / 4)) (name ++ rest) refl,
      read-append 8 name rest h,
      message_type-string_to_int-int_to_string t e,
      is_invalid_named t e,
      word,
    )

regular_header :
    (t : MessageType) {name : Bytes}
    → message_type_int_to_string t ≡ some name
    → (first_byte t ≡ 0x10) × (packet_header_length t ≡ 12)
unfolding message_type_int_to_string
regular_header MessageType.fragment e = cc
regular_header _ e = (refl, refl)

-- The datagram of a message that is sent in one piece.
unfoldable pub entire_string : ℕ → ℕ → Bytes → Bytes
entire_string seq ssrc message = sealed (header_string 0x10 seq ssrc ++ message)

pub length-entire_string :
    (seq ssrc : ℕ) (message : Bytes) → length (entire_string seq ssrc message) ≡ length message + 16
unfolding entire_string sealed
length-entire_string seq ssrc message =
    let x = header_string 0x10 seq ssrc ++ message in
    let e : length (x ++ bytes32 (crc32 x)) ≡ length x + 4 = length-append x (bytes32 (crc32 x)) in
    omega (arith, e)

number_entire :
    (junk seq n ssrc : ℕ) (t : MessageType) (message : Bytes) {name : Bytes}
    → message_type_int_to_string t ≡ some name
    → length message ≡ n
    → n ≤ 3056
    → number_and_checksum seq
        (n + packet_header_length t)
        (packet_set_header junk t ssrc ++ (message ++ replicate 4 junk))
      ≡ ok (entire_string seq ssrc message)
unfolding entire_string
number_entire junk seq n ssrc t message e h lo =
    rw ((regular_header t e).0, (regular_header t e).1)
      (number_and_checksum-sealed seq (n + 12) 0x10 0x00 junk junk
        (bytes32 magic_cookie ++ (bytes32 ssrc ++ message)) (replicate 4 junk) (omega (arith, h))
        (omega arith) refl)

pub send_entire-build_entire :
    (junk : ℕ) (send_data : Bytes → ℕ) (ch : Channel) (p : Packet) (n : ℕ) (message : Bytes)
    {name : Bytes}
    → message_type_int_to_string p.message_type ≡ some name
    → length message ≡ n
    → n ≤ 3056
    → send_entire send_data ch (build_entire junk p n message)
      ≡ ok (record {
        channel = next_sequence_number ch;
        packet = record p {
          sequence_number = ch.self_sequence_number;
          message_length = n;
          packet_string = some (entire_string ch.self_sequence_number p.source_identifier message);
        };
        datagrams = entire_string ch.self_sequence_number p.source_identifier message ∷ [];
        retval = send_data (entire_string ch.self_sequence_number p.source_identifier message);
      })
unfolding send_entire build_entire packet_set_sequence_number datagram
send_entire-build_entire junk send_data ch p n message e h lo =
    rw
      (number_entire junk ch.self_sequence_number n p.source_identifier p.message_type message e h
        lo)
      (rw (
        take_all (n + 16) (entire_string ch.self_sequence_number p.source_identifier message) (
          length-entire_string ch.self_sequence_number p.source_identifier message
          ∙ ap (λ k. k + 16) h)))

packet_check-entire :
    (junk seq : ℕ) (input : Bytes) (ch : Channel)
    → check_packet_header ch.peer_sequence_number input ≡ ok (false, seq)
    → packet_check junk input ch ≡ (ch, check_entire seq input (length input))
unfolding packet_check
packet_check-entire junk seq input ch h = rw (packet_check, h)

check_entire-entire_string :
    (seq ssrc n : ℕ) (t : MessageType) (name rest : Bytes)
    → message_type_int_to_string t ≡ some name
    → length name ≡ 8
    → ssrc < 2 ^ 32
    → n < 65536
    → n % 4 ≡ 0
    → let sent = entire_string seq ssrc (message_set_header n name ++ rest) in
      check_entire seq sent (length sent)
      ≡ ok (record {
        packet = received_packet seq ssrc t n;
        input = sent;
        input_length = length sent;
      })
unfolding check_entire entire_string sealed
check_entire-entire_string seq ssrc n t name rest e h s lt d =
    let tail =
      bytes32 (crc32 (header_string 0x10 seq ssrc ++ (message_set_header n name ++ rest))) in
    rw (
      append_assoc name rest tail,
      check_message_header-message_set_header seq n (header_string 0x10 seq ssrc) t name
          (rest ++ tail) refl e h lt d,
      be32-bytes32 ssrc s,
    )

pub packet_check-entire_string :
    (junk seq ssrc n : ℕ) (peer : Channel) (t : MessageType) (name rest : Bytes)
    → message_type_int_to_string t ≡ some name
    → length name ≡ 8
    → length rest + 12 ≡ n
    → n % 4 ≡ 0
    → n ≤ 3056
    → ssrc < 2 ^ 32
    → seq < 65536
    → peer.peer_sequence_number < seq
    → let sent = entire_string seq ssrc (message_set_header n name ++ rest) in
      packet_check junk sent peer ≡ (
        peer,
        ok (record {
          packet = received_packet seq ssrc t n;
          input = sent;
          input_length = length sent;
        }),
      )
unfolding entire_string
packet_check-entire_string junk seq ssrc n peer t name rest e h hn d lo s sq lt =
    let message = message_set_header n name ++ rest in
    let size : length message ≡ n = omega (arith, hn, h, length-append name rest) in
    let header =
      check_packet_header-sealed peer.peer_sequence_number 0x10 seq ssrc message (inr (refl, lt)) sq
        (omega (arith, size)) (omega (arith, size)) in
    packet_check-entire junk seq (entire_string seq ssrc message) peer header
    ∙ ap (λ r. (peer, r)) (check_entire-entire_string seq ssrc n t name rest e h s (omega arith) d)
