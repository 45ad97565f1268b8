-- ===== src/Packet/Builder/Fragments.antt =====
-- The fragmentation loop of bzrtp_packetBuild (src/packetParser.c). `rest` is the message from `offset`
-- on, `total` is `messageLength`.
use bzrtp.Common.{
  ℕ, zero, suc, ◌+◌, ◌-◌, ◌/◌, ◌%◌, Bytes, bytes16, length, take, drop, replicate, List, [], ◌∷◌,
  ◌++◌, Option, none, some, if◌then◌else◌, ltb,
}
use bzrtp.Packet.Types.{MessageType, Fragment}
use bzrtp.Packet.Header.{packet_set_header}

-- The last fragment takes what is left, the others the most that the MTU allows.
unfoldable pub fragment_size : ℕ → ℕ → ℕ
fragment_size mtu left = if ltb left (mtu - 24) then left else (mtu - 24) % 65536

-- The packet of one fragment: its header, the chunk, and the checksum, not written yet.
unfoldable pub make_fragment : ℕ → ℕ → ℕ → ℕ → ℕ → Bytes → Fragment
make_fragment junk ssrc message_id total offset chunk = record {
  sequence_number = 0;
  source_identifier = ssrc;
  message_length = length chunk;
  packet_string =
      packet_set_header junk MessageType.fragment ssrc
      ++ (bytes16 message_id
          ++ (bytes16 (total / 4)
              ++ (bytes16 (offset / 4)
                  ++ (bytes16 (length chunk / 4) ++ (chunk ++ replicate 4 junk)))));
}

-- `while (offset < messageLength)`; `none` where the fuel does not last.
unfoldable pub fragment_loop : ℕ → ℕ → ℕ → ℕ → ℕ → ℕ → ℕ → Bytes → Option (List Fragment)
unfolding fragment_size make_fragment
fragment_loop zero junk mtu ssrc message_id total offset rest =
    if ltb offset total then none else some []
fragment_loop (suc fuel) junk mtu ssrc message_id total offset rest =
    let size = fragment_size mtu (total - offset) in
    let others =
      fragment_loop fuel junk mtu ssrc message_id total ((offset + size) % 65536)
        (drop size rest) in
    if ltb offset total
    then elim others [
      | none ↦ none
      | some fs ↦ some (make_fragment junk ssrc message_id total offset (take size rest) ∷ fs)
    ]
    else some []

-- A round takes a byte at least, so the length is fuel enough.
unfoldable pub fragments_of : ℕ → ℕ → ℕ → ℕ → ℕ → Bytes → Option (List Fragment)
unfolding fragment_loop
fragments_of junk mtu ssrc message_id message_length message =
    fragment_loop message_length junk mtu ssrc message_id message_length 0 message
