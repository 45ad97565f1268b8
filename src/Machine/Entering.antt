-- ===== src/Machine/Entering.antt =====
-- The first call of a state function, with an init event (src/stateMachine.c): these are the calls by
-- which a state goes to the next.
use bzrtp.Common.{
  [], ◌∷◌, ◌++◌, Option, none, some, ok, Error, Bool, true, false, ◌&&◌, not, if◌then◌else◌, ◌==◌,
}
use bzrtp.Packet.Types.{MessageType, Packet}
use bzrtp.Packet.Send.{next_sequence_number}
use bzrtp.Algo.{keyagreement_mult, keyagreement_prsh}
use bzrtp.Timer.{Repeats, non_hello, start_timer, stop_timer}
use bzrtp.Keys.{compute_s0_multistream_mode}
use bzrtp.Keys.Srtp.{derive_srtp_keys_from_s0}
use bzrtp.Creation.{create_zrtp_packet}
use bzrtp.Session.{Environment, Session, State, Output, secrets_for_receiver, session_started}
use bzrtp.Session.Action.{Action, return, ask, change, ◌>>=◌, ◌>>◌, modify, require, on_channel}
use bzrtp.Machine.Sending.{
  commit_slot, dhpart_slot, confirm_slot, store_self, send_self, create_and_build,
  build_or_return_zero,
}

abbrev pub start_retransmission : Repeats → Action (Unit {0})
start_retransmission k = modify λ s. record s { timer = start_timer k s.time_reference }

abbrev pub stop_retransmission : Action (Unit {0})
stop_retransmission = modify λ s. record s { timer = stop_timer s.timer }

abbrev pub go_to : State → Action (Unit {0})
go_to state = modify λ s. record s { state_machine = state }

abbrev pub is_set {ℓ} : {A : Type ℓ} → Option A → Bool
is_set none = false
is_set (some a) = true

-- The callback bzrtp_srtpSecretsAvailable, where there is one.
unfoldable pub give_secrets : Environment → (Session → Output) → Action (Unit {0})
give_secrets env o =
    if env.srtp_secrets_available
    then (modify λ s. record s { outputs = s.outputs ++ o s ∷ [] })
    else return tt

-- The callback bzrtp_startSrtpSession, with the flag that the SAS was verified by both.
unfoldable pub start_srtp_session : Environment → Action (Unit {0})
start_srtp_session env =
    if env.start_srtp_session
    then (modify λ s. record s {
      outputs =
          s.outputs
          ++ session_started s.srtp_secrets
              (not (s.context.previously_verified_sas == 0) && not (s.peer_pvs == 0))
            ∷ [];
    })
    else return tt

-- state_secure.
unfoldable pub enter_secure : Environment → Action (Unit {0})
enter_secure env = do
  stop_retransmission
  modify λ s. record s {
    context_is_secure =
        if s.channel.key_agreement_algo == keyagreement_mult then s.context_is_secure else true;
    is_secure = true;
  }
  start_srtp_session env

-- state_confirmation_initiatorSendingConfirm2. The sequence number is counted up once more.
unfoldable pub enter_sending_confirm2 : Environment → Action (Unit {0})
enter_sending_confirm2 env = do
  s ← ask λ s. ok s
  require (is_set s.channel.mackeyi && is_set s.channel.zrtpkeyi) Error.error_invalid_context
  p ← create_and_build env MessageType.confirm2
  store_self confirm_slot (some p)
  change (derive_srtp_keys_from_s0 env.crypto)
  give_secrets env λ s. secrets_for_receiver s.srtp_secrets
  send_self env confirm_slot
  on_channel next_sequence_number
  start_retransmission non_hello

-- The keys that state_confirmation_responderSendingConfirm1 needs: derived in multistream mode, there
-- already in a DHM mode.
unfoldable pub prepare_confirm1 : Environment → Action (Unit {0})
prepare_confirm1 env = do
  s ← ask λ s. ok s
  if s.channel.key_agreement_algo == keyagreement_mult
      then (do
        require (is_set s.zrtp_sess) Error.error_invalid_context
        change (compute_s0_multistream_mode env))
      else if s.channel.key_agreement_algo == keyagreement_prsh
      then return tt
      else require (is_set s.channel.mackeyr && is_set s.channel.zrtpkeyr)
          Error.error_invalid_context

unfoldable pub enter_sending_confirm1 : Environment → Action (Unit {0})
unfolding prepare_confirm1
enter_sending_confirm1 env = do
  prepare_confirm1 env
  stop_retransmission
  p ← create_and_build env MessageType.confirm1
  store_self confirm_slot (some p)
  send_self env confirm_slot

-- state_keyAgreement_responderSendingDHPart1.
unfoldable pub enter_sending_dhpart1 : Environment → Action (Unit {0})
enter_sending_dhpart1 env = do
  s ← ask λ s. ok s
  require (is_set s.channel.self_packets.dhpart) Error.error_invalid_context
  stop_retransmission
  send_self env dhpart_slot

-- state_keyAgreement_initiatorSendingDHPart2.
unfoldable pub enter_sending_dhpart2 : Environment → Action (Unit {0})
enter_sending_dhpart2 env = do start_retransmission non_hello; send_self env dhpart_slot

-- The rest of state_keyAgreement_sendingCommit once the Commit is built; nothing where it was not.
unfoldable pub begin_commit : Environment → Option Packet → Action (Unit {0})
begin_commit env none = return tt
begin_commit env (some p) = do
  store_self commit_slot (some p)
  start_retransmission non_hello
  send_self env commit_slot

-- state_keyAgreement_sendingCommit: an init event does nothing where a Commit is stored.
unfoldable pub enter_sending_commit : Environment → Action (Unit {0})
unfolding begin_commit
enter_sending_commit env = do
  s ← ask λ s. ok s
  if is_set s.channel.self_packets.commit then return tt else (do
    p ← create_zrtp_packet env MessageType.commit
    built ← build_or_return_zero env p
    begin_commit env built)
