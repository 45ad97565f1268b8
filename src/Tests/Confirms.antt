-- ===== src/Tests/Confirms.antt =====
-- A Confirm from the responder to the initiator, which stored the DHPart before.
use bzrtp.Common.{
  ◌<◌, ◌^◌, Bytes, codes, [], ◌++◌, length, replicate, none, some, ok, ok-injective, ◌≡◌, refl, sym,
  subst, ◌∙◌, read, arith,
}
use bzrtp.Tests.Data.{toy, toy-CryptoLaws, h0, dhpart, confirm, channel, no_packets}
use bzrtp.Channel.{Channel, initiator, responder, sha256, aes128}
use bzrtp.Algo.Lengths.{no_kem, compute_key_agreement_public_value_length}
use bzrtp.Packet.Types.{MessageType, Packet, dhpart_data, confirm_data}
use bzrtp.Packet.Builder.{build_message, mac_of}
use bzrtp.Packet.Builder.Confirm.{confirm_body, confirm_plain, signature_string, call_encrypt}
use bzrtp.Packet.Builder.Bodies.{Body}
use bzrtp.Packet.Delivery.{entire_string, length-entire_string, received_packet}
use bzrtp.Packet.Parser.Confirm.{check_h0, without_dhpart, key_of, call_hmac}
use bzrtp.Packet.Parser.Confirmed.{IsConfirmFrom, parse_confirm_authentic}
use bzrtp.Packet.RoundTrip.Frame.{built_mac}
use bzrtp.Packet.RoundTrip.Stored.{IsStored, check_dhpart-IsStored}
use bzrtp.Packet.RoundTrip.DhPart.{valid_body}
use bzrtp.Packet.RoundTrip.Confirm.{SharesKeys, ConfirmArrives, parse_confirm-build_message}
use bzrtp.Packet.RoundTrip.ConfirmPlain.{ConfirmIsValid, unsigned}

abbrev dhpart_sent : Body
dhpart_sent = valid_body no_kem no_kem 0x42 MessageType.dhpart1 h0 dhpart

abbrev stored : Packet
stored = record (received_packet 3 4 MessageType.dhpart1 116) {
  message_data =
      some (dhpart_data (record dhpart { mac = built_mac toy (codes "DHPart1 ") dhpart_sent }));
  packet_string = some (entire_string 3 4 (build_message toy (codes "DHPart1 ") dhpart_sent));
}

stored-IsStored : IsStored toy (codes "DHPart1 ") dhpart_sent h0 stored
unfolding compute_key_agreement_public_value_length
stored-IsStored = record {
  seq = 3;
  ssrc = 4;
  keyed = refl;
  name_length = refl;
  sized = refl;
  message_length = refl;
  packet_string = refl;
}

abbrev initiator_channel : Channel
initiator_channel = record (channel initiator) {
  peer_packets = record no_packets { dhpart = some stored };
}

h0_proved : check_h0 toy initiator_channel (without_dhpart initiator_channel) initiator h0 ≡ ok tt
unfolding check_h0
h0_proved =
    check_dhpart-IsStored toy (codes "DHPart1 ") dhpart_sent h0 stored
      (record dhpart { mac = built_mac toy (codes "DHPart1 ") dhpart_sent }) stored-IsStored refl
      refl refl

confirm-ConfirmIsValid : ConfirmIsValid confirm
confirm-ConfirmIsValid = record {
  h0_length = refl;
  iv_length = refl;
  sig_len_bits = omega arith;
  e_bit = omega arith;
  v_bit = omega arith;
  a_bit = omega arith;
  d_bit = omega arith;
  expiration_bits = omega arith;
  signature = unsigned refl refl refl;
}

shared : SharesKeys (channel responder) initiator_channel
shared = record {
  key = replicate 16 14;
  mackey = replicate 32 12;
  hmac_as = sha256;
  cipher_as = aes128;
  self_key = refl;
  peer_key = refl;
  self_mac_key = refl;
  peer_mac_key = refl;
  self_hmac = refl;
  peer_hmac = refl;
  self_cipher = refl;
  peer_cipher = refl;
  self_hash_length = refl;
  peer_hash_length = refl;
}

confirm_example :
    ConfirmArrives toy toy-CryptoLaws
      (channel responder)
      initiator_channel
      shared
      (codes "Confirm1")
      confirm
      MessageType.confirm1
      4
      4
confirm_example =
    parse_confirm-build_message toy toy-CryptoLaws (channel responder) initiator_channel shared
      (codes "Confirm1") confirm MessageType.confirm1 4 4 confirm-ConfirmIsValid refl h0_proved

confirm_arrives :
    ConfirmArrives toy toy-CryptoLaws
      (channel responder)
      initiator_channel
      shared
      (codes "Confirm1")
      confirm
      MessageType.confirm1
      4
      4
confirm_arrives =
    parse_confirm-build_message toy toy-CryptoLaws (channel responder) initiator_channel shared
      (codes "Confirm1") confirm MessageType.confirm1 4 4 confirm-ConfirmIsValid refl h0_proved

abbrev confirm_input : Bytes
unfolding ConfirmArrives
confirm_input = entire_string 4 4 (build_message toy (codes "Confirm1") confirm_arrives.0)

abbrev confirm_packet : Packet
unfolding ConfirmArrives
confirm_packet = received_packet 4 4 MessageType.confirm1 confirm_arrives.0.message_length

abbrev received_confirm : Packet
unfolding ConfirmArrives
received_confirm = record confirm_packet {
  message_data = some (confirm_data (record confirm { confirm_mac = confirm_arrives.1 }));
  packet_string = some confirm_input;
}

abbrev confirm_sent : Body
confirm_sent = record {
  message_length = 76;
  content =
      toy.hmac sha256 (replicate 32 12) (confirm_plain confirm []) 8
      ++ (replicate 16 8 ++ confirm_plain confirm []);
  mac_key = none;
}

confirm_built : confirm_body toy (channel responder) confirm ≡ ok confirm_sent
unfolding confirm_body key_of signature_string call_encrypt call_hmac read
confirm_built = refl

abbrev confirm_arrived : Body
unfolding ConfirmArrives
confirm_arrived = confirm_arrives.0

confirm_arrived_body : confirm_sent ≡ confirm_arrived
unfolding ConfirmArrives confirm_arrived
confirm_arrived_body = ok-injective (sym confirm_built ∙ confirm_arrives.2)

confirm_sent-length : length (build_message toy (codes "Confirm1") confirm_sent) ≡ 76
unfolding build_message mac_of confirm_plain
confirm_sent-length = refl

IsShort : Body → Type 0
IsShort b =
    (length (entire_string 4 4 (build_message toy (codes "Confirm1") b)) < 2 ^ 16)
    × (b.message_length < 2 ^ 16)

confirm_sent-IsShort : IsShort confirm_sent
unfolding IsShort
confirm_sent-IsShort = (
  omega (
    arith,
    length-entire_string 4 4 (build_message toy (codes "Confirm1") confirm_sent),
    confirm_sent-length,
  ),
  omega arith,
)

confirm_arrives-IsShort : IsShort confirm_arrived
confirm_arrives-IsShort = subst IsShort confirm_arrived_body confirm_sent-IsShort

confirm_sender_example :
    IsConfirmFrom toy initiator_channel confirm_input confirm_packet received_confirm
unfolding ConfirmArrives confirm_packet received_confirm confirm_input IsShort confirm_arrived
confirm_sender_example =
    parse_confirm_authentic toy initiator_channel confirm_input (length confirm_input)
      confirm_packet confirm_arrives-IsShort.0 confirm_arrives-IsShort.1 confirm_arrives.3
