-- ===== src/Machine/Driving.antt =====
-- What drives the state machine (src/bzrtp.c): bzrtp_startChannelEngine, bzrtp_iterate and
-- bzrtp_processMessage on a channel that is found, and the state functions by state and event.
use bzrtp.Common.{
  ℕ, ◌+◌, ◌%◌, Bytes, Option, none, some, Result, ok, err, fault, Error, Bool, not, ◌||◌,
  if◌then◌else◌,
}
use bzrtp.Packet.Types.{MessageType, Packet}
use bzrtp.Channel.{Channel}
use bzrtp.Packet.Check.{Checked, packet_check}
use bzrtp.Packet.Header.{packet_set_sequence_number}
use bzrtp.Packet.Send.{datagram, next_sequence_number}
use bzrtp.Timer.{hello, non_hello, is_due}
use bzrtp.Session.{
  Environment, Session, State, not_started, discovery_init, discovery_waiting_for_hello,
  discovery_waiting_for_hello_ack, key_agreement_sending_commit,
  key_agreement_responder_sending_dhpart1, key_agreement_initiator_sending_dhpart2,
  confirmation_responder_sending_confirm1, confirmation_initiator_sending_confirm2, secure,
  sending_go_clear, clear, sent,
}
use bzrtp.Session.Action.{
  Action, return, raise, ask, ◌>>=◌, ◌>>◌, modify, require, on_channel, output,
}
use bzrtp.Machine.Sending.{
  hello_slot, commit_slot, dhpart_slot, confirm_slot, create_and_build, parse_anyway, go_clear_slot,
}
use bzrtp.Machine.Discovery.{
  retransmit, enter_discovery, init_discovery, waiting_for_hello, waiting_for_hello_ack,
}
use bzrtp.Machine.Commitment.{sending_commit}
use bzrtp.Machine.Exchange.{has_dhpart, responder_sending_dhpart1, initiator_sending_dhpart2}
use bzrtp.Machine.Confirmation.{responder_sending_confirm1, initiator_sending_confirm2, secure_on}
use bzrtp.Machine.Clear.{
  UserEvent, go_clear_event, secure_on_event, sending_go_clear_on, clear_on, clear_on_event,
  repeat_clear_ack,
}

-- A message event; a channel that is not started has no state function.
unfoldable pub on_message : Environment → State → Checked → MessageType → Action (Unit {0})
on_message env not_started c t = raise Error.error_invalid_context
on_message env discovery_init c t = init_discovery env c t
on_message env discovery_waiting_for_hello c t = waiting_for_hello env c t
on_message env discovery_waiting_for_hello_ack c t = waiting_for_hello_ack env c t
on_message env key_agreement_sending_commit c t = sending_commit env c t
on_message env key_agreement_responder_sending_dhpart1 c t = responder_sending_dhpart1 env c t
on_message env key_agreement_initiator_sending_dhpart2 c t = initiator_sending_dhpart2 env c t
on_message env confirmation_responder_sending_confirm1 c t = responder_sending_confirm1 env c t
on_message env confirmation_initiator_sending_confirm2 c t = initiator_sending_confirm2 env c t
on_message env secure c t = secure_on env c t
on_message env sending_go_clear c t = sending_go_clear_on env c t
on_message env clear c t = clear_on env c t

-- A timer event.
unfoldable pub on_timer : Environment → State → Action (Unit {0})
on_timer env discovery_init = retransmit env hello hello_slot
on_timer env discovery_waiting_for_hello_ack = retransmit env hello hello_slot
on_timer env key_agreement_sending_commit = retransmit env non_hello commit_slot
on_timer env key_agreement_responder_sending_dhpart1 = has_dhpart
on_timer env key_agreement_initiator_sending_dhpart2 = retransmit env non_hello dhpart_slot
on_timer env confirmation_initiator_sending_confirm2 = retransmit env non_hello confirm_slot
on_timer env secure = raise Error.error_peer_doesnt_accept_go_clear
on_timer env sending_go_clear = retransmit env non_hello go_clear_slot
on_timer env clear = repeat_clear_ack env
on_timer env _ = return tt

-- The events of bzrtp_sendGoClear, bzrtp_confirmGoClear and bzrtp_backToSecureMode.
unfoldable pub on_user_event : Environment → State → UserEvent → Action (Unit {0})
on_user_event env key_agreement_responder_sending_dhpart1 e = has_dhpart
on_user_event env secure e = secure_on_event env e
on_user_event env clear e = clear_on_event env e
on_user_event env _ e = return tt

-- bzrtp_sendGoClear.
unfoldable pub send_go_clear : Environment → Action (Unit {0})
unfolding on_user_event
send_go_clear env = do s ← ask λ s. ok s; on_user_event env s.state_machine go_clear_event

-- What bzrtp_confirmGoClear and bzrtp_backToSecureMode have in common: they count a firing.
unfoldable pub counted_event : Environment → UserEvent → Action (Unit {0})
unfolding on_user_event
counted_event env e = do
  modify
      λ s. record s { timer = record s.timer { firing_count = (s.timer.firing_count + 1) % 256 } }
  s ← ask λ s. ok s
  on_user_event env s.state_machine e

unfoldable pub is_started : State → Bool
is_started not_started = Bool.false
is_started _ = Bool.true

-- bzrtp_startChannelEngine.
unfoldable pub start_channel_engine : Environment → Action (Unit {0})
unfolding is_started
start_channel_engine env = do
  s ← ask λ s. ok s
  require (not (is_started s.state_machine)) Error.error_channel_already_started
  require (s.is_main_channel || s.context_is_secure) Error.error_context_not_ready
  modify λ s. record s { time_reference = 0; state_machine = discovery_init }
  enter_discovery env

-- bzrtp_iterate.
unfoldable pub iterate_channel : Environment → ℕ → Action (Unit {0})
unfolding on_timer
iterate_channel env time_reference = do
  modify λ s. record s { time_reference = time_reference }
  s ← ask λ s. ok s
  if is_due time_reference s.timer
      then (do
        modify λ s. record s {
          timer = record s.timer { firing_count = (s.timer.firing_count + 1) % 256 };
        }
        on_timer env s.state_machine)
      else return tt

-- What the callback returns for a PingACK is ignored.
unfoldable pub send_ping_ack : Option (Bytes → ℕ) → Packet → Action (Unit {0})
send_ping_ack none p = return tt
send_ping_ack (some f) p = do
  q ← ask λ s. packet_set_sequence_number p s.channel.self_sequence_number
  d ← ask λ s. datagram (q.message_length + 16) q.packet_string
  output (sent d)
  on_channel next_sequence_number

unfoldable pub forget_ping : Session × Result (Unit {0}) → Session × Result (Unit {0})
forget_ping (s, r) = (record s { channel = record s.channel { ping_packet = none } }, r)

unfoldable pub respond_to_ping : Environment → Checked → Action (Unit {0})
unfolding send_ping_ack
respond_to_ping env c = do
  p ← parse_anyway env c.packet c.input c.input_length
  on_channel λ ch. record ch { ping_packet = some p }
  q ← create_and_build env MessageType.ping_ack
  send_ping_ack env.send_data q

unfoldable pub answer_ping : Environment → Checked → Action (Unit {0})
unfolding respond_to_ping forget_ping
answer_ping env c s = forget_ping (respond_to_ping env c s)

-- A packet that passed the checks: a Ping is answered, anything else goes to the state machine.
unfoldable pub handle : Environment → Checked → MessageType → Action (Unit {0})
unfolding answer_ping on_message
handle env c MessageType.ping s = answer_ping env c s
handle env c t s = on_message env s.state_machine c t s

-- A fragment of a message that is not complete is no error.
unfoldable pub after_check :
    Environment → Session → Channel × Result Checked → Session × Result (Unit {0})
unfolding handle
after_check env s (ch, ok c) = handle env c c.packet.message_type (record s { channel = ch })
after_check env s (ch, err Error.parser_info_packet_fragment) = (record s { channel = ch }, ok tt)
after_check env s (ch, err e) = (record s { channel = ch }, err e)
after_check env s (ch, fault) = (record s { channel = ch }, fault)

-- bzrtp_processMessage.
unfoldable pub process_message : Environment → Bytes → Action (Unit {0})
unfolding after_check is_started
process_message env input s =
    if is_started s.state_machine
    then after_check env s (packet_check env.junk input s.channel)
    else (s, err Error.error_invalid_context)
