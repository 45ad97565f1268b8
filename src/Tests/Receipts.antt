-- ===== src/Tests/Receipts.antt =====
-- What accepted messages prove, along a handshake in the order of its messages.
use bzrtp.Common.{◌+◌, Bytes, codes, length, some, ok, ◌≡◌, refl, arith}
use bzrtp.Tests.Data.{toy, toy-CryptoLaws, h0, h1, h2, hello, commit, dhpart, channel, no_packets}
use bzrtp.Channel.{Channel, initiator}
use bzrtp.Algo.Lengths.{
  in_dhpart1, no_kem, compute_commit_message_variable_length,
  compute_key_agreement_public_value_length, is_kem,
}
use bzrtp.Algo.Names.{is_code, crypto_algo_type_int_to_string}
use bzrtp.Packet.Types.{MessageType, Packet, hello_data, commit_data, dhpart_data}
use bzrtp.Packet.Builder.{build_message}
use bzrtp.Packet.Builder.Bodies.{
  Body, hello_body, hello_content, flags_string, algos_string, dhpart_body,
}
use bzrtp.Packet.Delivery.{entire_string, received_packet}
use bzrtp.Packet.Parser.DhPart.{parse_dhpart, check_dhpart_chain}
use bzrtp.Packet.RoundTrip.DhPart.{DhPartIsValid, valid_body, pv_length, parse_dhpart-build_message}
use bzrtp.Packet.Parser.Reading.{check_hello}
use bzrtp.Packet.Parser.Commit.{commit_pv_length}
use bzrtp.Packet.Parser.Accepted.{IsCommitFrom, parse_commit_authentic}
use bzrtp.Packet.RoundTrip.Frame.{built_mac}
use bzrtp.Packet.RoundTrip.Stored.{IsStored, check_hello-IsStored}
use bzrtp.Packet.RoundTrip.CommitVariable.{dh_fields}
use bzrtp.Packet.RoundTrip.Commit.{CommitIsValid, CommitArrives, parse_commit-build_message}

abbrev sent_hello : Body
sent_hello = hello_body h2 hello

-- The Hello as the peer stored it.
abbrev stored : Packet
stored = record (received_packet 1 4 MessageType.hello 120) {
  message_data =
      some (hello_data (record hello { mac = built_mac toy (codes "Hello   ") sent_hello }));
  packet_string = some (entire_string 1 4 (build_message toy (codes "Hello   ") sent_hello));
}

stored-IsStored : IsStored toy (codes "Hello   ") sent_hello h2 stored
unfolding hello_body hello_content flags_string algos_string crypto_algo_type_int_to_string
stored-IsStored = record {
  seq = 1;
  ssrc = 4;
  keyed = refl;
  name_length = refl;
  sized = refl;
  message_length = refl;
  packet_string = refl;
}

stored_example : check_hello toy (some stored) h2 ≡ ok tt
stored_example =
    check_hello-IsStored toy (codes "Hello   ") sent_hello h2 stored
      (record hello { mac = built_mac toy (codes "Hello   ") sent_hello }) stored-IsStored refl refl
      refl

hello_opens : check_hello toy (some stored) h2 ≡ ok tt
hello_opens =
    check_hello-IsStored toy (codes "Hello   ") sent_hello h2 stored
      (record hello { mac = built_mac toy (codes "Hello   ") sent_hello }) stored-IsStored refl refl
      refl

commit-CommitIsValid : CommitIsValid no_kem no_kem commit
unfolding is_code compute_commit_message_variable_length is_kem commit_pv_length
commit-CommitIsValid = record {
  h2_length = refl;
  zid_length = refl;
  hash_named = refl;
  cipher_named = refl;
  auth_tag_named = refl;
  key_agreement_named = refl;
  sas_named = refl;
  known = λ e. absurd (omega arith);
  small = omega arith;
  variable = dh_fields refl refl refl refl refl refl;
}

commit_example : CommitArrives no_kem no_kem toy h1 commit (some stored) 2 4
commit_example =
    parse_commit-build_message no_kem no_kem toy toy-CryptoLaws h1 commit (some stored) 2 4
      commit-CommitIsValid hello_opens

commit_arrives : CommitArrives no_kem no_kem toy h1 commit (some stored) 2 4
commit_arrives =
    parse_commit-build_message no_kem no_kem toy toy-CryptoLaws h1 commit (some stored) 2 4
      commit-CommitIsValid hello_opens

abbrev commit_input : Bytes
unfolding CommitArrives
commit_input = entire_string 2 4 (build_message toy (codes "Commit  ") commit_arrives.0)

abbrev commit_packet : Packet
unfolding CommitArrives
commit_packet = received_packet 2 4 MessageType.commit commit_arrives.0.message_length

abbrev received_commit : Packet
unfolding CommitArrives
received_commit = record commit_packet {
  message_data =
      some
        (commit_data (record commit { mac = built_mac toy (codes "Commit  ") commit_arrives.0 }));
  packet_string = some commit_input;
}

commit_sender_example : IsCommitFrom no_kem no_kem toy (some stored) commit_packet received_commit
unfolding CommitArrives commit_packet received_commit commit_input
commit_sender_example =
    parse_commit_authentic no_kem no_kem toy (some stored) commit_input (length commit_input)
      commit_packet commit_arrives.2

-- The initiator, which stored the responder's Hello and later its DHPart1.
abbrev initiator_channel : Channel
initiator_channel = record (channel initiator) {
  peer_packets = record no_packets { hello = some stored };
}

dhpart-DhPartIsValid : DhPartIsValid no_kem no_kem 0x42 MessageType.dhpart1 dhpart
unfolding compute_key_agreement_public_value_length
dhpart-DhPartIsValid = record {
  h1_length = refl;
  rs1_length = refl;
  rs2_length = refl;
  auxsecret_length = refl;
  pbxsecret_length = refl;
  pv_fits = refl;
  known = λ e. absurd (omega arith);
  small = omega arith;
}

abbrev dhpart_sent : Body
dhpart_sent = valid_body no_kem no_kem 0x42 MessageType.dhpart1 h0 dhpart

abbrev dhpart_input : Bytes
dhpart_input = entire_string 3 4 (build_message toy (codes "DHPart1 ") dhpart_sent)

abbrev dhpart_packet : Packet
dhpart_packet =
    received_packet 3 4 MessageType.dhpart1 (84 + pv_length no_kem no_kem 0x42 MessageType.dhpart1)

abbrev received_dhpart : Packet
received_dhpart = record dhpart_packet {
  message_data =
      some (dhpart_data (record dhpart { mac = built_mac toy (codes "DHPart1 ") dhpart_sent }));
  packet_string = some dhpart_input;
}

dhpart_chain :
    check_dhpart_chain toy initiator_channel initiator dhpart_input dhpart_packet h1 ≡ ok tt
unfolding check_dhpart_chain
dhpart_chain = hello_opens

dhpart_example :
    (dhpart_body no_kem no_kem h0 0x42 in_dhpart1 dhpart ≡ ok dhpart_sent)
    × (parse_dhpart no_kem no_kem toy initiator_channel dhpart_input
          (length dhpart_input)
          dhpart_packet
        ≡ ok received_dhpart)
dhpart_example =
    parse_dhpart-build_message no_kem no_kem 0x42 MessageType.dhpart1 toy toy-CryptoLaws h0
      (codes "DHPart1 ") dhpart initiator_channel 3 4 dhpart-DhPartIsValid refl refl dhpart_chain
