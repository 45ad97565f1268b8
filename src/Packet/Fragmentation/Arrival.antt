-- ===== src/Packet/Fragmentation/Arrival.antt =====
-- The datagram of a fragment, and what bzrtp_packetCheck makes of it (src/packetParser.c).
use bzrtp.Common.{
  ℕ, ◌-◌, ◌/◌, ◌%◌, ◌≤◌, ◌<◌, Bytes, be16, bytes16, bytes32, length, length-append, take,
  take-append, drop, ◌++◌, ok, true, ◌≡◌, refl, arith, inl,
}
use bzrtp.Packet.Seal.{sealed, header_string, check_packet_header-sealed}
use bzrtp.Packet.Check.{check_packet_header}
use bzrtp.Packet.Reassembly.{FragmentHeader, parse_fragment_header}
use bzrtp.Crc.{crc32}

module _ (ssrc message_id total : ℕ) where
  -- The four fields of the fragment header.
  abbrev pub fragment_fields : ℕ → ℕ → Bytes
  fragment_fields offset size =
      bytes16 message_id ++ (bytes16 (total / 4) ++ (bytes16 (offset / 4) ++ bytes16 (size / 4)))

  unfoldable pub fragment_string : ℕ → ℕ → Bytes → Bytes
  fragment_string seq offset chunk =
      sealed (header_string 0x11 seq ssrc ++ (fragment_fields offset (length chunk) ++ chunk))

  abbrev pub header_of : ℕ → ℕ → FragmentHeader
  header_of offset size = record {
    message_id = message_id;
    message_total_length = total / 4;
    offset = offset / 4;
    fragment_length = size / 4;
  }

  pub parse_fragment_header-fragment_string :
      (seq offset : ℕ) (chunk : Bytes)
      → message_id < 65536
      → total < 65536
      → offset < 65536
      → length chunk < 65536
      → parse_fragment_header (fragment_string seq offset chunk) ≡ header_of offset (length chunk)
  unfolding parse_fragment_header fragment_string sealed
  parse_fragment_header-fragment_string seq offset chunk mi tt oo ll =
      let a : be16 (message_id / 256 % 256) (message_id % 256) ≡ message_id = omega arith in
      let b : be16 (total / 4 / 256 % 256) (total / 4 % 256) ≡ total / 4 = omega arith in
      let c : be16 (offset / 4 / 256 % 256) (offset / 4 % 256) ≡ offset / 4 = omega arith in
      let d : be16 (length chunk / 4 / 256 % 256) (length chunk / 4 % 256) ≡ length chunk / 4 =
        omega arith in
      rw (a, b, c, d)

  -- `input + 20` of length `inputLength - 24` is the chunk.
  pub carried_chunk :
      (seq offset : ℕ) (chunk : Bytes)
      → let input = fragment_string seq offset chunk in
        take (length input - 24) (drop 20 input) ≡ chunk
  unfolding fragment_string sealed
  carried_chunk seq offset chunk =
      let front = header_string 0x11 seq ssrc ++ (fragment_fields offset (length chunk) ++ chunk) in
      let size : length (front ++ bytes32 (crc32 front)) - 24 ≡ length chunk =
        omega (arith, length-append front (bytes32 (crc32 front))) in
      rw (size) (take-append (length chunk) chunk (bytes32 (crc32 front)) refl)

  -- A fragment datagram passes the header checks, whatever sequence number was seen last.
  pub check_packet_header-fragment_string :
      (peer seq offset : ℕ) (chunk : Bytes)
      → seq < 65536
      → 4 ≤ length chunk
      → length chunk ≤ 3048
      → check_packet_header peer (fragment_string seq offset chunk) ≡ ok (true, seq)
  unfolding fragment_string
  check_packet_header-fragment_string peer seq offset chunk s lo hi =
      check_packet_header-sealed peer 0x11 seq ssrc (fragment_fields offset (length chunk) ++ chunk)
        (inl refl) s (omega arith) (omega arith)
