-- ===== src/Packet/Builder.antt =====
-- bzrtp_packetBuild (src/packetParser.c): the packet string of a packet, from its message, and the
-- fragments of a packet that is longer than the MTU.
use bzrtp.Common.{
  ℕ, suc, ◌+◌, ◌%◌, Bytes, length, replicate, List, [], ◌∷◌, ◌++◌, Option, none, some, Result, ok,
  err, fault, ◌>>=◌, ◌>>◌, guard, Error, if◌then◌else◌, ltb,
}
use bzrtp.Packet.Types.{
  MessageType, Packet, MessageData, hello_data, commit_data, dhpart_data, confirm_data,
  go_clear_data, ping_ack_data,
}
use bzrtp.Packet.Names.{message_type_int_to_string}
use bzrtp.Packet.Header.{message_set_header, packet_set_header}
use bzrtp.Channel.{Crypto, Channel, sha256}
use bzrtp.Context.{Context}
use bzrtp.Algo.Lengths.{KemSizes, in_dhpart1, in_dhpart2}
use bzrtp.Packet.Builder.Bodies.{
  Body, hello_body, commit_body, dhpart_body, empty_body, go_clear_body, ping_ack_body,
}
use bzrtp.Packet.Builder.Confirm.{confirm_body, confirm_without_data}
use bzrtp.Packet.Builder.Fragments.{fragments_of}
pub mod Bodies
pub mod Confirm
pub mod Fragments

-- The `switch`. A type that it does not know allocates no packet string; data of another message is a
-- pointer to a structure of the wrong type; GoClear and PingACK read through it without a check.
unfoldable pub build_body :
    KemSizes → KemSizes → Crypto → Channel → MessageType → Option MessageData → Result Body
unfolding confirm_without_data
build_body pk ct c ch MessageType.hello none = err Error.builder_error_invalid_message
build_body pk ct c ch MessageType.hello (some (hello_data m)) = ok (hello_body ch.self_h2 m)
build_body pk ct c ch MessageType.hello_ack _ = ok empty_body
build_body pk ct c ch MessageType.commit none = err Error.builder_error_invalid_message
build_body pk ct c ch MessageType.commit (some (commit_data m)) = commit_body pk ct ch.self_h1 m
build_body pk ct c ch MessageType.dhpart1 none = err Error.builder_error_invalid_message
build_body pk ct c ch MessageType.dhpart1 (some (dhpart_data m)) =
    dhpart_body pk ct ch.self_h0 ch.key_agreement_algo in_dhpart1 m
build_body pk ct c ch MessageType.dhpart2 none = err Error.builder_error_invalid_message
build_body pk ct c ch MessageType.dhpart2 (some (dhpart_data m)) =
    dhpart_body pk ct ch.self_h0 ch.key_agreement_algo in_dhpart2 m
build_body pk ct c ch MessageType.confirm1 none = confirm_without_data ch
build_body pk ct c ch MessageType.confirm2 none = confirm_without_data ch
build_body pk ct c ch MessageType.confirm1 (some (confirm_data m)) = confirm_body c ch m
build_body pk ct c ch MessageType.confirm2 (some (confirm_data m)) = confirm_body c ch m
build_body pk ct c ch MessageType.conf2_ack _ = ok empty_body
build_body pk ct c ch MessageType.go_clear (some (go_clear_data m)) = ok (go_clear_body m)
build_body pk ct c ch MessageType.clear_ack _ = ok empty_body
build_body pk ct c ch MessageType.ping_ack (some (ping_ack_data m)) = ok (ping_ack_body m)
build_body pk ct c ch MessageType.error _ = err Error.builder_error_unknown
build_body pk ct c ch MessageType.error_ack _ = err Error.builder_error_unknown
build_body pk ct c ch MessageType.sas_relay _ = err Error.builder_error_unknown
build_body pk ct c ch MessageType.relay_ack _ = err Error.builder_error_unknown
build_body pk ct c ch MessageType.ping _ = err Error.builder_error_unknown
build_body pk ct c ch _ _ = fault

-- The MAC that ends a message, where it has one.
unfoldable pub mac_of : Crypto → Option Bytes → Bytes → Bytes
mac_of c none message = []
mac_of c (some key) message = c.hmac sha256 key message 8

-- The message: its header, its body, and the MAC over both.
unfoldable pub build_message : Crypto → Bytes → Body → Bytes
unfolding mac_of
build_message c name body =
    let unauthenticated = message_set_header body.message_length name ++ body.content in
    unauthenticated ++ mac_of c body.mac_key unauthenticated

-- The packet of one piece; the sequence number and the checksum are not written yet.
unfoldable pub build_entire : ℕ → Packet → ℕ → Bytes → Packet
build_entire junk p message_length message = record p {
  message_length = message_length;
  packet_string =
      some (
        packet_set_header junk p.message_type p.source_identifier ++ (message ++ replicate 4 junk));
}

-- The packet of many pieces; the packet string has no packet header, and the message id is used up.
unfoldable pub build_fragmented : ℕ → ℕ → Channel → Packet → ℕ → Bytes → Result (Channel × Packet)
build_fragmented junk mtu ch p message_length message =
    elim (fragments_of junk mtu ch.self_ssrc ch.self_message_sequence_number message_length
      message) [
        | none ↦ fault
        | some fragments ↦ ok (
          record ch { self_message_sequence_number = suc ch.self_message_sequence_number % 65536 },
          record p {
            message_length = message_length;
            packet_string = some (replicate 12 junk ++ (message ++ replicate 4 junk));
            fragments = p.fragments ++ fragments;
          },
        )
      ]

unfoldable pub write_packet : ℕ → ℕ → Channel → Packet → ℕ → Bytes → Result (Channel × Packet)
unfolding build_entire build_fragmented
write_packet junk mtu ch p message_length message =
    if ltb mtu ((message_length + 16) % 65536)
    then build_fragmented junk mtu ch p message_length message
    else ok (ch, build_entire junk p message_length message)

-- `none` for the packet is the NULL that the function refuses.
unfoldable pub packet_build :
    ℕ → KemSizes → KemSizes → Crypto → Context → Channel → Option Packet → Result (Channel × Packet)
unfolding build_body build_message write_packet
packet_build junk pk ct c ctx ch none = err Error.builder_error_invalid_packet
packet_build junk pk ct c ctx ch (some p) = elim (message_type_int_to_string p.message_type) [
  | none ↦ err Error.builder_error_invalid_message_type
  | some name ↦ do
    body ← build_body pk ct c ch p.message_type p.message_data
    write_packet junk ctx.mtu ch p body.message_length (build_message c name body)
]
