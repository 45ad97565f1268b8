-- ===== src/Machine/Commitment.antt =====
-- state_keyAgreement_sendingCommit (src/stateMachine.c): this endpoint has sent a Commit, and takes a
-- DHPart1, a Confirm1 or a Commit of the peer.
use bzrtp.Common.{
  ℕ, Option, none, some, Result, ok, fault, Error, Bool, not, if◌then◌else◌, ◌==◌, ◌||◌,
}
use bzrtp.Channel.{Role, initiator, responder}
use bzrtp.Packet.Types.{
  MessageType, Packet, CommitMessage, DhPartMessage, ConfirmMessage, MessageData, dhpart_data,
  confirm_data,
}
use bzrtp.Packet.Check.{Checked}
use bzrtp.Algo.{keyagreement_prsh, keyagreement_mult}
use bzrtp.Contention.{becomes_responder, is_non_dhm}
use bzrtp.Keys.{compute_s0_dhm_mode, compute_s0_multistream_mode}
use bzrtp.Session.{
  Environment, key_agreement_initiator_sending_dhpart2, confirmation_initiator_sending_confirm2,
}
use bzrtp.Session.Action.{Action, return, ask, change, ◌>>=◌, ◌>>◌, modify, require, on_channel}
use bzrtp.Machine.Sending.{commit_slot, dhpart_slot, confirm_slot, store_self, store_peer}
use bzrtp.Machine.Cache.{match_dhpart1}
use bzrtp.Machine.Entering.{
  stop_retransmission, go_to, enter_sending_dhpart2, enter_sending_confirm2,
}
use bzrtp.Machine.Greeting.{hello_message}
use bzrtp.Machine.Responding.{turn_into_responder, commit_message}
use bzrtp.Machine.Discovery.{receive, unexpected}
use bzrtp.Machine.SharedSecret.{compute_shared_secret}

unfoldable pub dhpart_of : Option MessageData → Result DhPartMessage
dhpart_of (some (dhpart_data m)) = ok m
dhpart_of _ = fault

unfoldable pub confirm_of : Option MessageData → Result ConfirmMessage
confirm_of (some (confirm_data m)) = ok m
confirm_of _ = fault

abbrev message_data_of : Option Packet → Option MessageData
message_data_of none = none
message_data_of (some p) = p.message_data

-- The tests on the mode, in the order of the source. That for a DHPart1 names one algorithm twice.
unfoldable pub fits_mode : MessageType → ℕ → Bool
fits_mode MessageType.dhpart1 algo = not (algo == keyagreement_prsh || algo == keyagreement_prsh)
fits_mode MessageType.confirm1 algo = is_non_dhm algo
fits_mode _ algo = Bool.true

-- A Confirm1 in multistream mode needs the keys before it can be parsed.
unfoldable pub multistream_keys : Environment → MessageType → Action (Unit {0})
multistream_keys env MessageType.confirm1 = do
  ch ← ask λ s. ok s.channel
  if ch.key_agreement_algo == keyagreement_mult
      then change (compute_s0_multistream_mode env)
      else return tt
multistream_keys env _ = return tt

-- The flags M of the two Hellos, which are read where the key agreements are the same.
unfoldable pub contention_flags : Bool → Action (ℕ × ℕ)
contention_flags same =
    if same
    then (do
      self_hello ← ask λ s. hello_message (message_data_of s.channel.self_packets.hello)
      peer_hello ← ask λ s. hello_message (message_data_of s.channel.peer_packets.hello)
      return (self_hello.m, peer_hello.m))
    else return (0, 0)

-- The role of this endpoint, given the two Commits; it stays initiator by default.
unfoldable pub contend : CommitMessage → Action (Unit {0})
unfolding becomes_responder contention_flags
contend peer = do
  self ← ask λ s. commit_message (message_data_of s.channel.self_packets.commit)
  (self_m, peer_m) ← contention_flags (peer.key_agreement_algo == self.key_agreement_algo)
  if becomes_responder self peer self_m peer_m
      then (on_channel λ ch. record ch { role = Role.responder })
      else return tt

unfoldable pub follow : Environment → Packet → CommitMessage → Role → Action (Unit {0})
follow env p m initiator = return tt
follow env p m responder = do store_self commit_slot none; turn_into_responder env p m

unfoldable pub take_dhpart1 : Environment → Packet → Action (Unit {0})
unfolding dhpart_of
take_dhpart1 env p = do
  stop_retransmission
  m ← ask λ s. dhpart_of p.message_data
  match_dhpart1 m
  modify λ s. record s { peer_h1 = m.h1 }
  store_peer dhpart_slot (some p)
  compute_shared_secret env MessageType.dhpart1 m.pv
  change (compute_s0_dhm_mode env)
  go_to key_agreement_initiator_sending_dhpart2
  enter_sending_dhpart2 env

unfoldable pub take_confirm1 : Environment → Packet → Action (Unit {0})
unfolding confirm_of
take_confirm1 env p = do
  stop_retransmission
  m ← ask λ s. confirm_of p.message_data
  modify λ s. record s { peer_h0 = m.h0 }
  store_peer confirm_slot (some p)
  go_to confirmation_initiator_sending_confirm2
  enter_sending_confirm2 env

unfoldable pub take_commit_contention : Environment → Packet → Action (Unit {0})
unfolding contend follow
take_commit_contention env p = do
  m ← ask λ s. commit_message p.message_data
  contend m
  ch ← ask λ s. ok s.channel
  follow env p m ch.role

-- The branches after the packet is accepted, by its type.
unfoldable pub proceed : Environment → MessageType → Packet → Action (Unit {0})
proceed env MessageType.dhpart1 p = take_dhpart1 env p
proceed env MessageType.confirm1 p = take_confirm1 env p
proceed env MessageType.commit p = take_commit_contention env p
proceed env _ p = return tt

-- Mode, keys, parsing, and the branch.
unfoldable pub receive_answer : Environment → Checked → MessageType → Action (Unit {0})
unfolding fits_mode multistream_keys proceed receive
receive_answer env c t = do
  ch ← ask λ s. ok s.channel
  require (fits_mode t ch.key_agreement_algo) Error.parser_error_unexpected_message
  multistream_keys env t
  p ← receive env c
  proceed env t p

unfoldable pub sending_commit : Environment → Checked → MessageType → Action (Unit {0})
sending_commit env c MessageType.commit = receive_answer env c MessageType.commit
sending_commit env c MessageType.dhpart1 = receive_answer env c MessageType.dhpart1
sending_commit env c MessageType.confirm1 = receive_answer env c MessageType.confirm1
sending_commit env c _ = unexpected
