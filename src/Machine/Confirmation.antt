-- ===== src/Machine/Confirmation.antt =====
-- The states of the Confirm messages, and the secure state (src/stateMachine.c).
use bzrtp.Common.{ℕ, some, ok, Error, Bool, not, if◌then◌else◌, ◌==◌}
use bzrtp.Packet.Types.{MessageType, Packet}
use bzrtp.Packet.Check.{Checked}
use bzrtp.Contention.{is_non_dhm}
use bzrtp.Keys.Srtp.{derive_srtp_keys_from_s0}
use bzrtp.Session.{Environment, secrets_for_receiver, secrets_for_sender, secure}
use bzrtp.Session.Action.{Action, ask, change, ◌>>=◌, ◌>>◌, modify, require}
use bzrtp.Machine.Sending.{
  Slot, commit_slot, dhpart_slot, confirm_slot, store_peer, send_self, send_created, parse, accept,
  accept_repetition,
}
use bzrtp.Machine.Cache.{update_cached_secrets}
use bzrtp.Machine.Entering.{stop_retransmission, go_to, give_secrets, enter_secure}
use bzrtp.Machine.Discovery.{unexpected}
use bzrtp.Machine.Commitment.{confirm_of}
use bzrtp.Machine.Exchange.{remember_confirm}
use bzrtp.Machine.Clear.{take_go_clear}

-- What the responder does with a Confirm2 that is parsed.
unfoldable pub take_confirm2 : Environment → Packet → Action (Unit {0})
unfolding remember_confirm confirm_of
take_confirm2 env p = do
  m ← ask λ s. confirm_of p.message_data
  modify (remember_confirm m)
  store_peer confirm_slot (some p)
  accept p
  change (derive_srtp_keys_from_s0 env.crypto)
  update_cached_secrets env
  give_secrets env λ s. secrets_for_receiver s.srtp_secrets
  send_created env MessageType.conf2_ack
  give_secrets env λ s. secrets_for_sender s.srtp_secrets
  go_to secure
  enter_secure env

-- A message of the other mode is not expected; one of this mode is a repetition.
unfoldable pub repeat_confirm1 : Environment → Slot → (ℕ → Bool) → Checked → Action (Unit {0})
repeat_confirm1 env slot fits c = do
  ch ← ask λ s. ok s.channel
  require (fits ch.key_agreement_algo) Error.parser_error_unexpected_message
  accept_repetition slot c.packet c.input
  send_self env confirm_slot

unfoldable pub responder_sending_confirm1 : Environment → Checked → MessageType → Action (Unit {0})
unfolding repeat_confirm1 take_confirm2
responder_sending_confirm1 env c MessageType.commit =
    repeat_confirm1 env commit_slot (λ a. is_non_dhm a) c
responder_sending_confirm1 env c MessageType.dhpart2 =
    repeat_confirm1 env dhpart_slot (λ a. not (is_non_dhm a)) c
responder_sending_confirm1 env c MessageType.confirm2 = do
  p ← parse env c.packet c.input c.input_length
  take_confirm2 env p
responder_sending_confirm1 env c _ = unexpected

-- The sequence number of a Conf2ACK is not kept.
unfoldable pub initiator_sending_confirm2 : Environment → Checked → MessageType → Action (Unit {0})
initiator_sending_confirm2 env c MessageType.confirm1 =
    accept_repetition confirm_slot c.packet c.input
initiator_sending_confirm2 env c MessageType.conf2_ack = do
  p ← parse env c.packet c.input c.input_length
  stop_retransmission
  update_cached_secrets env
  give_secrets env λ s. secrets_for_sender s.srtp_secrets
  go_to secure
  enter_secure env
initiator_sending_confirm2 env c _ = unexpected

-- A Confirm2 is answered again, a GoClear is taken where this endpoint accepts it.
unfoldable pub secure_on : Environment → Checked → MessageType → Action (Unit {0})
unfolding take_go_clear
secure_on env c MessageType.confirm2 = do
  accept_repetition confirm_slot c.packet c.input
  send_created env MessageType.conf2_ack
secure_on env c MessageType.go_clear = do
  s ← ask λ s. ok s
  if s.context.self_accept_go_clear == 0 then unexpected else take_go_clear env c
secure_on env c _ = unexpected
