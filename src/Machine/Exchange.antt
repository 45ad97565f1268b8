-- ===== src/Machine/Exchange.antt =====
-- The states in which the DHParts are exchanged (src/stateMachine.c): the responder waits for a DHPart2,
-- the initiator for a Confirm1.
use bzrtp.Common.{some, ok, Error, if◌then◌else◌, ◌==◌}
use bzrtp.Packet.Types.{MessageType, Packet, ConfirmMessage}
use bzrtp.Packet.Check.{Checked}
use bzrtp.Algo.{keyagreement_mult}
use bzrtp.Keys.{compute_s0_dhm_mode}
use bzrtp.Session.{
  Environment, Session, confirmation_responder_sending_confirm1,
  confirmation_initiator_sending_confirm2,
}
use bzrtp.Session.Action.{Action, ask, change, ◌>>=◌, ◌>>◌, modify, require}
use bzrtp.Machine.Sending.{
  commit_slot, dhpart_slot, confirm_slot, store_peer, send_self, parse, accept, accept_repetition,
}
use bzrtp.Machine.Cache.{match_dhpart2}
use bzrtp.Machine.Entering.{
  stop_retransmission, go_to, is_set, enter_sending_confirm1, enter_sending_confirm2,
}
use bzrtp.Machine.Discovery.{unexpected}
use bzrtp.Machine.SharedSecret.{compute_shared_secret}
use bzrtp.Machine.Commitment.{dhpart_of, confirm_of}

-- The flag V and H0 of the peer; in multistream mode the flag stays.
unfoldable pub remember_confirm : ConfirmMessage → Session → Session
remember_confirm m s = record s {
  peer_h0 = m.h0;
  peer_accept_go_clear = if s.is_main_channel then m.a else s.peer_accept_go_clear;
  peer_pvs = if s.channel.key_agreement_algo == keyagreement_mult then s.peer_pvs else m.v;
}

-- A DHPart2 that is parsed.
unfoldable pub take_dhpart2 : Environment → Packet → Action (Unit {0})
take_dhpart2 env p = do
  m ← ask λ s. dhpart_of p.message_data
  match_dhpart2 m
  accept p
  modify λ s. record s { peer_h1 = m.h1 }
  store_peer dhpart_slot (some p)
  compute_shared_secret env MessageType.dhpart2 m.pv
  change (compute_s0_dhm_mode env)
  go_to confirmation_responder_sending_confirm1
  enter_sending_confirm1 env

-- Every event needs the DHPart1 to be there.
unfoldable pub has_dhpart : Action (Unit {0})
has_dhpart = do
  s ← ask λ s. ok s
  require (is_set s.channel.self_packets.dhpart) Error.error_invalid_context

unfoldable pub sending_dhpart1_on : Environment → Checked → MessageType → Action (Unit {0})
unfolding take_dhpart2
sending_dhpart1_on env c MessageType.commit = do
  accept_repetition commit_slot c.packet c.input
  send_self env dhpart_slot
sending_dhpart1_on env c MessageType.dhpart2 = do
  p ← parse env c.packet c.input c.input_length
  take_dhpart2 env p
sending_dhpart1_on env c _ = unexpected

unfoldable pub responder_sending_dhpart1 : Environment → Checked → MessageType → Action (Unit {0})
unfolding has_dhpart sending_dhpart1_on
responder_sending_dhpart1 env c t = has_dhpart >> sending_dhpart1_on env c t

unfoldable pub initiator_sending_dhpart2 : Environment → Checked → MessageType → Action (Unit {0})
unfolding remember_confirm
initiator_sending_dhpart2 env c MessageType.dhpart1 = accept_repetition dhpart_slot c.packet c.input
initiator_sending_dhpart2 env c MessageType.confirm1 = do
  p ← parse env c.packet c.input c.input_length
  stop_retransmission
  m ← ask λ s. confirm_of p.message_data
  modify (remember_confirm m)
  store_peer confirm_slot (some p)
  accept p
  go_to confirmation_initiator_sending_confirm2
  enter_sending_confirm2 env
initiator_sending_dhpart2 env c _ = unexpected
