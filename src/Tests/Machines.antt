-- ===== src/Tests/Machines.antt =====
-- Runs of the state machine.
use bzrtp.Common.{
  Bytes, Error, codes, List, [], ◌∷◌, ◌++◌, replicate, true, some, ok, if◌then◌else◌, ◌≡◌, refl,
  arith,
}
use bzrtp.Channel.{initiator}
use bzrtp.Packet.Types.{MessageType}
use bzrtp.Packet.Check.{Checked, packet_check}
use bzrtp.Packet.Header.{message_set_header}
use bzrtp.Packet.Names.{message_type_int_to_string}
use bzrtp.Packet.Parser.{packet_parser, parse_as, parse_hello_ack}
use bzrtp.Session.Action.{◌>>=◌, ◌>>◌, and_then, ask, modify, return, change, changed}
use bzrtp.Machine.Sending.{parse, send_self, commit_slot}
use bzrtp.Machine.Cache.{update_cached_secrets}
use bzrtp.Machine.Entering.{give_secrets, enter_secure, start_srtp_session}
use bzrtp.Machine.Confirmation.{initiator_sending_confirm2}
use bzrtp.Packet.Delivery.{packet_check-entire_string, entire_string, received_packet}
use bzrtp.Session.{
  Session, not_started, discovery_init, sending_go_clear, clear, key_agreement_sending_commit,
  secure, confirmation_initiator_sending_confirm2,
}
use bzrtp.Machine.Driving.{
  on_message, process_message, is_started, after_check, handle, iterate_channel,
}
use bzrtp.Machine.Ticks.{ticked, commit, iterate_channel-iterate}
use bzrtp.Timer.{non_hello, start_timer, iterate}
use bzrtp.Calls.{Hexadecimal}
use bzrtp.Calls.Running.{
  Call, start, tick, receive, peer_hello_hash, timer_reset, ask_go_clear, run,
}
use bzrtp.Machine.Keeping.{view}
use bzrtp.Machine.Runs.{IsCoherent, run-IsCoherent}
use bzrtp.Keys.Derivation.{key_derivation_function, stored_key}
use bzrtp.Machine.Destruction.{go_clear, new_zrtp_sess, destroy_key_material}
use bzrtp.Machine.Clear.{sending_go_clear_on}
use bzrtp.Machine.Cleared.{IsClearedBy, IsDestroyed, on_message-IsDestroyed}
use bzrtp.Machine.Secured.{Completes, process_message-Completes}
use bzrtp.Machine.Forged.{parses, Refuses, on_message-Refuses}
use bzrtp.Tests.Data.{channel}
use bzrtp.Tests.Sessions.{env, session, context}

-- Every byte is its own form.
abbrev plain : Hexadecimal
plain = record { int8_to_str = λ b. b; str_to_uint8 = λ b. b }

abbrev fresh : Session
fresh = session not_started (context 1) 2 (channel initiator)

-- A datagram that is no packet, and the hash of a Hello that is not there yet.
abbrev calls : List Call
calls =
    start
    ∷ tick 0
    ∷ receive (replicate 30 7)
    ∷ peer_hello_hash (replicate 32 0)
    ∷ timer_reset
    ∷ ask_go_clear
    ∷ []

abbrev ended : Session
ended = record fresh { state_machine = secure; is_secure = true }

run-IsCoherent_example : IsCoherent (view (run env plain calls ended))
unfolding IsCoherent
run-IsCoherent_example = run-IsCoherent env plain calls ended refl

-- A Commit that is due, and is not there to be sent.
abbrev committing : Session
committing = record fresh {
  state_machine = key_agreement_sending_commit;
  timer = start_timer non_hello 100;
}

iterate_channel_example : iterate_channel env 300 committing ≡ (
    if (iterate non_hello 300 committing.timer).1
    then send_self env commit_slot (ticked non_hello 300 committing)
    else (ticked non_hello 300 committing, ok tt))
iterate_channel_example = iterate_channel-iterate env 300 committing non_hello commit_slot commit

-- A Conf2ACK for an initiator in the state that sends its Confirm2, on a further channel.
abbrev confirming : Session
confirming =
    session confirmation_initiator_sending_confirm2 (context 1) 2
      (record (channel initiator) { key_agreement_algo = 0x9f })

abbrev conf2_ack_string : Bytes
conf2_ack_string = entire_string 5 0x01020304 (message_set_header 12 (codes "Conf2ACK") ++ [])

conf2_ack-secure : (process_message env conf2_ack_string confirming).0.state_machine ≡ secure
unfolding message_type_int_to_string process_message is_started after_check handle on_message
    initiator_sending_confirm2 ◌>>=◌ ◌>>◌ and_then parse ask packet_parser parse_as modify
    update_cached_secrets give_secrets enter_secure start_srtp_session return
conf2_ack-secure =
    rw
      (packet_check-entire_string env.junk 5 0x01020304 12 confirming.channel MessageType.conf2_ack
        (codes "Conf2ACK") [] refl refl refl refl (omega arith) (omega arith) (omega arith)
        (omega arith))
      refl

secured_example :
    Completes env confirming.state_machine
      (packet_check env.junk conf2_ack_string confirming.channel)
secured_example =
    process_message-Completes env conf2_ack_string confirming (λ h. cc) conf2_ack-secure

-- A ClearACK for an endpoint that has asked for GoClear.
abbrev asking : Session
asking = record (session sending_go_clear (context 1) 2 (channel initiator)) {
  is_secure = true;
  s0 = some (replicate 32 1);
  zrtp_sess = some (replicate 32 2);
}

abbrev clear_ack : Checked
clear_ack = record {
  packet = received_packet 5 0x01020304 MessageType.clear_ack 12;
  input = [];
  input_length = 0;
}

asking-clear :
    (on_message env sending_go_clear clear_ack MessageType.clear_ack asking).0.state_machine ≡ clear
unfolding on_message sending_go_clear_on change changed go_clear new_zrtp_sess stored_key
    key_derivation_function destroy_key_material
asking-clear = refl

gone_example :
    IsClearedBy env clear_ack asking sending_go_clear MessageType.clear_ack
    × IsDestroyed (on_message env sending_go_clear clear_ack MessageType.clear_ack asking).0
gone_example = on_message-IsDestroyed env clear_ack asking (λ h. cc) asking-clear

-- A HelloACK of the wrong length.
abbrev long_hello_ack : Checked
long_hello_ack = record {
  packet = received_packet 5 0x01020304 MessageType.hello_ack 16;
  input = [];
  input_length = 0;
}

forged_example :
    Refuses fresh (on_message env discovery_init long_hello_ack MessageType.hello_ack fresh)
unfolding parses packet_parser parse_as parse_hello_ack
forged_example =
    on_message-Refuses env discovery_init long_hello_ack MessageType.hello_ack fresh
      Error.parser_error_invalid_message refl refl
