-- ===== src/Machine/Responding.antt =====
-- bzrtp_turnIntoResponder (src/stateMachine.c): a Commit of the peer makes this endpoint the responder.
use bzrtp.Common.{Option, none, some, Result, ok, fault, if◌then◌else◌}
use bzrtp.Channel.{Channel, Role}
use bzrtp.Packet.Types.{MessageType, Packet, CommitMessage, MessageData, commit_data, dhpart_data}
use bzrtp.Algo.Agreement.{Outcome, done, failed, update_crypto_function_pointers}
use bzrtp.Algo.Lengths.{is_kem}
use bzrtp.Contention.{is_non_dhm}
use bzrtp.Creation.{create_zrtp_packet}
use bzrtp.Session.{
  Environment, Session, confirmation_responder_sending_confirm1,
  key_agreement_responder_sending_dhpart1,
}
use bzrtp.Session.Action.{Action, return, ask, ◌>>=◌, ◌>>◌, modify, on_channel}
use bzrtp.Machine.Sending.{commit_slot, dhpart_slot, store_self, store_peer, build}
use bzrtp.Machine.Entering.{
  stop_retransmission, go_to, enter_sending_confirm1, enter_sending_dhpart1,
}

-- The return value of bzrtp_updateCryptoFunctionPointers is ignored.
unfoldable pub channel_of : Outcome → Channel
channel_of (done ch) = ch
channel_of (failed ch e) = ch

-- The algorithms are those of the initiator's Commit.
unfoldable pub take_algos : CommitMessage → Channel → Channel
unfolding channel_of update_crypto_function_pointers
take_algos m ch = channel_of (
    update_crypto_function_pointers (record ch {
      role = Role.responder;
      hash_algo = m.hash_algo;
      cipher_algo = m.cipher_algo;
      auth_tag_algo = m.auth_tag_algo;
      key_agreement_algo = m.key_agreement_algo;
      sas_algo = m.sas_algo;
    }))

-- The DHPart2 turns into a DHPart1: the type, the identifiers, and no string.
unfoldable pub as_dhpart1 : Session → Packet → Result Packet
as_dhpart1 s p = elim p.message_data [
  | some (dhpart_data m) ↦ ok (record p {
    message_type = MessageType.dhpart1;
    message_data = some (
        dhpart_data (record m {
          rs1_id = s.context.responder_cached_secret_hash.rs1_id;
          rs2_id = s.context.responder_cached_secret_hash.rs2_id;
          auxsecret_id = s.responder_auxsecret_id;
          pbxsecret_id = s.context.responder_cached_secret_hash.pbxsecret_id;
        }));
    packet_string = none;
  })
  | _ ↦ fault
]

-- The DHPart1 before it is built: a new one in a KEM mode, where the context of the key agreement goes.
unfoldable pub renew_dhpart : Environment → Packet → Action Packet
unfolding as_dhpart1
renew_dhpart env p = do
  ch ← ask λ s. ok s.channel
  if is_kem ch.key_agreement_algo
      then (do
        modify λ s. record s { key_agreement_context = none }
        store_self dhpart_slot none
        create_zrtp_packet env MessageType.dhpart1)
      else (ask λ s. as_dhpart1 s p)

-- In a DHM mode a DHPart is there. The identifiers of the auxiliary secret are swapped first.
unfoldable pub rebuild_dhpart : Environment → Option Packet → Action (Unit {0})
unfolding renew_dhpart
rebuild_dhpart env none = return tt
rebuild_dhpart env (some p) = do
  modify λ s. record s {
    initiator_auxsecret_id = s.responder_auxsecret_id;
    responder_auxsecret_id = s.initiator_auxsecret_id;
  }
  q ← renew_dhpart env p
  store_self dhpart_slot (some q)
  built ← build env q
  store_self dhpart_slot (some built)

unfoldable pub start_responding : Environment → Action (Unit {0})
start_responding env = do
  ch ← ask λ s. ok s.channel
  if is_non_dhm ch.key_agreement_algo
      then (do go_to confirmation_responder_sending_confirm1; enter_sending_confirm1 env)
      else (do go_to key_agreement_responder_sending_dhpart1; enter_sending_dhpart1 env)

-- What the contexts take from the Commit.
unfoldable pub take_commit : Packet → CommitMessage → Action (Unit {0})
unfolding take_algos
take_commit p m = do
  stop_retransmission
  store_peer commit_slot (some p)
  modify λ s. record s { peer_h2 = m.h2 }
  on_channel (take_algos m)

unfoldable pub turn_into_responder : Environment → Packet → CommitMessage → Action (Unit {0})
unfolding rebuild_dhpart start_responding take_commit
turn_into_responder env p m = do
  take_commit p m
  s ← ask λ s. ok s
  rebuild_dhpart env s.channel.self_packets.dhpart
  start_responding env

unfoldable pub commit_message : Option MessageData → Result CommitMessage
commit_message (some (commit_data m)) = ok m
commit_message _ = fault
