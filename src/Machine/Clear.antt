-- ===== src/Machine/Clear.antt =====
-- GoClear (src/stateMachine.c): its branches of state_secure, state_sending_GoClear and state_clear. The
-- loops over the channels of a context touch the one channel that there is.
use bzrtp.Common.{
  ℕ, ◌+◌, ◌%◌, ◌^◌, Option, none, some, ok, Error, false, if◌then◌else◌, leb, not, ◌==◌, bytes_eq,
}
use bzrtp.Algo.{keyagreement_mult}
use bzrtp.Channel.{PacketStore}
use bzrtp.Packet.Types.{MessageType, Packet}
use bzrtp.Packet.Check.{Checked}
use bzrtp.Timer.{Timer, non_hello, timer_on, timer_off, stop_timer}
use bzrtp.Session.{Environment, Session, key_agreement_sending_commit, sending_go_clear}
use bzrtp.Session.Action.{
  Action, return, raise, ask, ◌>>=◌, ◌>>◌, modify, change, require, on_channel,
}
use bzrtp.Machine.Sending.{
  go_clear_slot, store_self, send_self, send_created, create_and_build, parse, parse_anyway, accept,
  accept_repetition,
}
use bzrtp.Machine.Entering.{start_retransmission, stop_retransmission, go_to, enter_sending_commit}
use bzrtp.Machine.Discovery.{unexpected}
use bzrtp.Machine.Destruction.{expected_clear_mac, clear_mac_of, go_clear}
use bzrtp.Machine.Responding.{turn_into_responder, commit_message}

-- BZRTP_EVENT_GOCLEAR, BZRTP_EVENT_ACCEPT_GOCLEAR, BZRTP_EVENT_BACKTOSECURE.
pub data UserEvent : Type 0 where
  go_clear_event accept_go_clear_event back_to_secure_event : UserEvent

unfoldable pub check_clear_mac : Environment → Checked → Action (Unit {0})
check_clear_mac env c = do
  p ← parse_anyway env c.packet c.input c.input_length
  expected ← ask λ s. expected_clear_mac env.crypto s.channel
  mac ← ask λ s. clear_mac_of p.message_data
  require (bytes_eq mac expected) Error.error_invalid_clear_mac

-- CLEARACK_BASE_RETRANSMISSION_STEP.
abbrev clear_ack_timer : Session → Timer
clear_ack_timer s = record {
  status = timer_on;
  firing_time = (s.time_reference + 5000) % 2 ^ 64;
  firing_count = 0;
  timer_step = 5000;
}

-- A GoClear in state_secure.
unfoldable pub take_go_clear : Environment → Checked → Action (Unit {0})
unfolding check_clear_mac
take_go_clear env c = do
  check_clear_mac env c
  send_created env MessageType.clear_ack
  change (go_clear env (λ s. clear_ack_timer s))

-- The init event of state_sending_GoClear.
unfoldable pub enter_sending_go_clear : Environment → Action (Unit {0})
enter_sending_go_clear env = do
  p ← create_and_build env MessageType.go_clear
  store_self go_clear_slot (some p)
  send_self env go_clear_slot
  start_retransmission non_hello

-- Any event of the user but a GoClear that the peer accepts is answered with this error.
unfoldable pub secure_on_event : Environment → UserEvent → Action (Unit {0})
secure_on_event env go_clear_event = do
  s ← ask λ s. ok s
  require (not (s.peer_accept_go_clear == 0)) Error.error_peer_doesnt_accept_go_clear
  go_to sending_go_clear
  enter_sending_go_clear env
secure_on_event env _ = raise Error.error_peer_doesnt_accept_go_clear

-- A GoClear that crosses the own one; it is never stored.
unfoldable pub check_crossing : Environment → Checked → Option Packet → Action (Unit {0})
check_crossing env c none = do check_clear_mac env c; accept c.packet
check_crossing env c (some p) = accept_repetition go_clear_slot c.packet c.input

unfoldable pub answer_go_clear : Environment → Checked → Action (Unit {0})
unfolding check_crossing
answer_go_clear env c = do
  s ← ask λ s. ok s
  check_crossing env c s.channel.peer_packets.go_clear
  send_created env MessageType.clear_ack

-- state_sending_GoClear; a ClearACK is not parsed.
unfoldable pub sending_go_clear_on : Environment → Checked → MessageType → Action (Unit {0})
unfolding answer_go_clear
sending_go_clear_on env c MessageType.clear_ack = change (go_clear env (λ s. stop_timer s.timer))
sending_go_clear_on env c MessageType.go_clear = answer_go_clear env c
sending_go_clear_on env c _ = unexpected

abbrev only_hello : PacketStore → PacketStore
only_hello s = record {
  hello = s.hello;
  commit = none;
  dhpart = none;
  confirm = none;
  go_clear = none;
}

-- All packets but the Hellos are deleted.
abbrev drop_packets : Action (Unit {0})
drop_packets = on_channel λ ch. record ch {
  self_packets = only_hello ch.self_packets;
  peer_packets = only_hello ch.peer_packets;
}

-- state_clear.
unfoldable pub clear_on : Environment → Checked → MessageType → Action (Unit {0})
clear_on env c MessageType.commit = do
  p ← parse env c.packet c.input c.input_length
  drop_packets
  modify λ s. record s { is_clear = false }
  accept p
  m ← ask λ s. commit_message p.message_data
  turn_into_responder env p m
clear_on env c _ = unexpected

-- The user accepts the GoClear of the peer, or wants to be secure again.
unfoldable pub clear_on_event : Environment → UserEvent → Action (Unit {0})
clear_on_event env go_clear_event = return tt
clear_on_event env accept_go_clear_event = stop_retransmission
clear_on_event env back_to_secure_event = do
  drop_packets
  on_channel λ ch. record ch { key_agreement_algo = keyagreement_mult }
  modify λ s. record s { is_clear = false }
  go_to key_agreement_sending_commit
  enter_sending_commit env

-- CLEARACK_MAX_RETRANSMISSION_NUMBER; the step stays.
unfoldable pub adjust_clear_timer : ℕ → Timer → Timer
adjust_clear_timer time_reference t =
    if leb t.firing_count 20
    then record t { firing_time = (time_reference + t.timer_step) % 2 ^ 64 }
    else record t { status = timer_off }

unfoldable pub repeat_clear_ack : Environment → Action (Unit {0})
unfolding adjust_clear_timer
repeat_clear_ack env = do
  modify λ s. record s { timer = adjust_clear_timer s.time_reference s.timer }
  send_created env MessageType.clear_ack
