-- ===== src/Tests/Messages.antt =====
-- Messages that are built, sent and parsed back.
use bzrtp.Common.{Bytes, codes, [], ◌∷◌, ◌++◌, length, none, some, ok, ◌≡◌, refl, arith}
use bzrtp.Tests.Data.{toy, toy-CryptoLaws, h2, hello, channel}
use bzrtp.Channel.{initiator, responder}
use bzrtp.Algo.Names.{is_code}
use bzrtp.Algo.Widths.{AllNamed}
use bzrtp.Packet.Types.{MessageType, Packet, hello_data}
use bzrtp.Packet.Names.{
  message_type_int_to_string, message_type_string_to_int, message_type-string_to_int-int_to_string,
}
use bzrtp.Packet.Header.{message_set_header}
use bzrtp.Packet.Check.{packet_check}
use bzrtp.Packet.Send.{send_entire, next_sequence_number}
use bzrtp.Packet.Builder.{build_message, build_entire}
use bzrtp.Packet.Builder.Bodies.{hello_body}
use bzrtp.Packet.Delivery.{
  entire_string, received_packet, packet_check-entire_string, send_entire-build_entire,
}
use bzrtp.Packet.Parser.Hello.{parse_hello, hello_length}
use bzrtp.Packet.RoundTrip.Hello.{
  HelloIsValid, counts_of, received_hello, hello_mac, parse_hello-build_message,
}

type_example : message_type_string_to_int (codes "Commit  ") ≡ MessageType.commit
unfolding message_type_int_to_string
type_example = message_type-string_to_int-int_to_string MessageType.commit refl

hello-HelloIsValid : HelloIsValid hello
unfolding AllNamed is_code
hello-HelloIsValid = record {
  version_length = refl;
  client_identifier_length = refl;
  h3_length = refl;
  zid_length = refl;
  s_bit = omega arith;
  m_bit = omega arith;
  p_bit = omega arith;
  hash_count = omega arith;
  cipher_count = omega arith;
  auth_tag_count = omega arith;
  key_agreement_count = omega arith;
  sas_count = omega arith;
  hash_named = (refl, (refl, tt));
  cipher_named = (refl, (refl, tt));
  auth_tag_named = (refl, tt);
  key_agreement_named = (refl, (refl, tt));
  sas_named = (refl, tt);
}

hello_example :
    parse_hello toy none
      (entire_string 1 0x01020304 (build_message toy (codes "Hello   ") (hello_body h2 hello)))
      (length
        (entire_string 1 0x01020304 (build_message toy (codes "Hello   ") (hello_body h2 hello))))
      (received_packet 1 0x01020304 MessageType.hello (hello_length (counts_of hello)))
    ≡ ok (record (received_packet 1 0x01020304 MessageType.hello (hello_length (counts_of hello))) {
      message_data = some (hello_data (received_hello hello (hello_mac toy h2 hello)));
      packet_string =
          some (
            entire_string 1 0x01020304
              (build_message toy (codes "Hello   ") (hello_body h2 hello)));
    })
hello_example =
    parse_hello-build_message toy toy-CryptoLaws h2 hello 1 0x01020304 none hello-HelloIsValid tt

delivery_example :
    packet_check 0
      (entire_string 5 0x01020304 (message_set_header 12 (codes "HelloACK") ++ []))
      (channel responder)
    ≡ (
      channel responder,
      ok (record {
        packet = received_packet 5 0x01020304 MessageType.hello_ack 12;
        input = entire_string 5 0x01020304 (message_set_header 12 (codes "HelloACK") ++ []);
        input_length =
            length (entire_string 5 0x01020304 (message_set_header 12 (codes "HelloACK") ++ []));
      }),
    )
unfolding message_type_int_to_string
delivery_example =
    packet_check-entire_string 0 5 0x01020304 12 (channel responder) MessageType.hello_ack
      (codes "HelloACK") [] refl refl refl refl (omega arith) (omega arith) (omega arith)
      (omega arith)

abbrev hello_ack_packet : Packet
hello_ack_packet = received_packet 0 0x01020304 MessageType.hello_ack 0

abbrev hello_ack_message : Bytes
hello_ack_message = message_set_header 12 (codes "HelloACK") ++ []

send_example :
    send_entire (λ d. 0) (channel initiator) (build_entire 7 hello_ack_packet 12 hello_ack_message)
    ≡ ok (record {
      channel = next_sequence_number (channel initiator);
      packet = record hello_ack_packet {
        sequence_number = 1;
        message_length = 12;
        packet_string = some (entire_string 1 0x01020304 hello_ack_message);
      };
      datagrams = entire_string 1 0x01020304 hello_ack_message ∷ [];
      retval = 0;
    })
unfolding message_type_int_to_string
send_example =
    send_entire-build_entire 7 (λ d. 0) (channel initiator) hello_ack_packet 12 hello_ack_message
      refl refl (omega arith)
