-- ===== src/Machine/Discovery.antt =====
-- The discovery states (src/stateMachine.c): Hello and HelloACK in both directions.
use bzrtp.Common.{Option, none, some, ok, Error, if◌then◌else◌}
use bzrtp.Packet.Types.{MessageType, Packet}
use bzrtp.Packet.Check.{Checked}
use bzrtp.Packet.Send.{next_sequence_number}
use bzrtp.Timer.{Repeats, hello, adjust_timer}
use bzrtp.Creation.{create_zrtp_packet}
use bzrtp.Session.{
  Environment, discovery_waiting_for_hello, discovery_waiting_for_hello_ack,
  key_agreement_sending_commit,
}
use bzrtp.Session.Action.{Action, return, raise, ask, ◌>>=◌, ◌>>◌, modify, on_channel}
use bzrtp.Machine.Sending.{
  Slot, hello_slot, store_self, send_self, send_created, build_or_return_zero, parse, accept,
  accept_repetition,
}
use bzrtp.Machine.Entering.{
  start_retransmission, stop_retransmission, go_to, enter_sending_commit, is_set,
}
use bzrtp.Machine.Greeting.{response_to_hello_message}
use bzrtp.Machine.Responding.{turn_into_responder, commit_message}

-- The timer event of the states that send: the timer is adjusted, the packet sent again.
unfoldable pub retransmit : Environment → Repeats → Slot → Action (Unit {0})
retransmit env k slot = do
  modify λ s. record s { timer = adjust_timer k s.time_reference s.timer }
  send_self env slot

-- A packet is parsed, and its sequence number kept.
unfoldable pub receive : Environment → Checked → Action Packet
receive env c = do p ← parse env c.packet c.input c.input_length; accept p; return p

abbrev pub unexpected : Action (Unit {0})
unexpected = raise Error.parser_error_unexpected_message

abbrev start_hello : Action (Unit {0})
start_hello = do start_retransmission hello; on_channel next_sequence_number

unfoldable pub begin_hello : Option Packet → Action (Unit {0})
begin_hello none = return tt
begin_hello (some p) = do store_self hello_slot (some p); start_hello

-- state_discovery_init, on its first call: the Hello is there already, or made now.
unfoldable pub enter_discovery : Environment → Action (Unit {0})
unfolding begin_hello
enter_discovery env = do
  s ← ask λ s. ok s
  if is_set s.channel.self_packets.hello then start_hello else (do
    p ← create_zrtp_packet env MessageType.hello
    built ← build_or_return_zero env p
    begin_hello built)

unfoldable pub init_discovery : Environment → Checked → MessageType → Action (Unit {0})
unfolding receive
init_discovery env c MessageType.hello = do
  p ← receive env c
  response_to_hello_message env p
  start_retransmission hello
  go_to discovery_waiting_for_hello_ack
init_discovery env c MessageType.hello_ack = do
  p ← receive env c
  stop_retransmission
  go_to discovery_waiting_for_hello
init_discovery env c _ = unexpected

unfoldable pub waiting_for_hello : Environment → Checked → MessageType → Action (Unit {0})
unfolding receive
waiting_for_hello env c MessageType.hello = do
  p ← receive env c
  response_to_hello_message env p
  go_to key_agreement_sending_commit
  enter_sending_commit env
waiting_for_hello env c _ = unexpected

unfoldable pub waiting_for_hello_ack : Environment → Checked → MessageType → Action (Unit {0})
unfolding receive
waiting_for_hello_ack env c MessageType.hello = do
  accept_repetition hello_slot c.packet c.input
  send_created env MessageType.hello_ack
waiting_for_hello_ack env c MessageType.hello_ack = do
  p ← receive env c
  stop_retransmission
  go_to key_agreement_sending_commit
  enter_sending_commit env
waiting_for_hello_ack env c MessageType.commit = do
  p ← receive env c
  m ← ask λ s. commit_message p.message_data
  turn_into_responder env p m
waiting_for_hello_ack env c _ = unexpected
