-- ===== src/Machine/Forged.antt =====
-- A message that the parser refuses (src/stateMachine.c).
use bzrtp.Common.{Result, err, Error, Bool, true, false, ◌≡◌, refl, inl, inr, Bool-cases}
use bzrtp.Packet.Types.{MessageType}
use bzrtp.Packet.Check.{Checked}
use bzrtp.Packet.Parser.{packet_parser}
use bzrtp.Session.{
  Environment, Session, State, not_started, discovery_init, discovery_waiting_for_hello,
  discovery_waiting_for_hello_ack, key_agreement_sending_commit,
  key_agreement_responder_sending_dhpart1, key_agreement_initiator_sending_dhpart2,
  confirmation_responder_sending_confirm1, confirmation_initiator_sending_confirm2, secure,
  sending_go_clear, clear,
}
use bzrtp.Session.Action.{raise, ask, require, return, ◌>>=◌, ◌>>◌, and_then}
use bzrtp.Machine.Sending.{parse}
use bzrtp.Machine.Entering.{is_set}
use bzrtp.Machine.Discovery.{receive, init_discovery, waiting_for_hello, waiting_for_hello_ack}
use bzrtp.Machine.Commitment.{fits_mode, multistream_keys, receive_answer, sending_commit}
use bzrtp.Machine.Exchange.{
  has_dhpart, sending_dhpart1_on, responder_sending_dhpart1, initiator_sending_dhpart2,
}
use bzrtp.Machine.Confirmation.{responder_sending_confirm1, initiator_sending_confirm2}
use bzrtp.Machine.Clear.{clear_on}
use bzrtp.Machine.Driving.{on_message}

-- The messages that a state has parsed before anything else.
unfoldable pub parses : State → MessageType → Bool
parses discovery_init MessageType.hello = true
parses discovery_init MessageType.hello_ack = true
parses discovery_waiting_for_hello MessageType.hello = true
parses discovery_waiting_for_hello_ack MessageType.hello_ack = true
parses discovery_waiting_for_hello_ack MessageType.commit = true
parses key_agreement_sending_commit MessageType.commit = true
parses key_agreement_sending_commit MessageType.dhpart1 = true
parses key_agreement_responder_sending_dhpart1 MessageType.dhpart2 = true
parses key_agreement_initiator_sending_dhpart2 MessageType.confirm1 = true
parses confirmation_responder_sending_confirm1 MessageType.confirm2 = true
parses confirmation_initiator_sending_confirm2 MessageType.conf2_ack = true
parses clear MessageType.commit = true
parses _ _ = false

-- An error that leaves the session as it is.
unfoldable pub Refuses : Session → Session × Result (Unit {0}) → Type 0
Refuses s r = (e : Error) × (r ≡ (s, err e))

module _ (env : Environment) (c : Checked) (s : Session) (e : Error)
    (h : packet_parser env.pk env.ct env.crypto s.channel c.input c.input_length c.packet
      ≡ err e) where
  init_discovery-forged :
      (t : MessageType) → parses discovery_init t ≡ true → Refuses s (init_discovery env c t s)
  unfolding Refuses parses init_discovery receive parse ask ◌>>=◌ ◌>>◌ and_then
  init_discovery-forged MessageType.hello q = (e, rw h refl)
  init_discovery-forged MessageType.hello_ack q = (e, rw h refl)
  init_discovery-forged _ q = cc

  waiting_for_hello-forged :
      (t : MessageType)
      → parses discovery_waiting_for_hello t ≡ true
      → Refuses s (waiting_for_hello env c t s)
  unfolding Refuses parses waiting_for_hello receive parse ask ◌>>=◌ ◌>>◌ and_then
  waiting_for_hello-forged MessageType.hello q = (e, rw h refl)
  waiting_for_hello-forged _ q = cc

  waiting_for_hello_ack-forged :
      (t : MessageType)
      → parses discovery_waiting_for_hello_ack t ≡ true
      → Refuses s (waiting_for_hello_ack env c t s)
  unfolding Refuses parses waiting_for_hello_ack receive parse ask ◌>>=◌ ◌>>◌ and_then
  waiting_for_hello_ack-forged MessageType.hello_ack q = (e, rw h refl)
  waiting_for_hello_ack-forged MessageType.commit q = (e, rw h refl)
  waiting_for_hello_ack-forged _ q = cc

  sending_dhpart1_on-forged :
      (t : MessageType)
      → parses key_agreement_responder_sending_dhpart1 t ≡ true
      → Refuses s (sending_dhpart1_on env c t s)
  unfolding Refuses parses sending_dhpart1_on receive parse ask ◌>>=◌ ◌>>◌ and_then
  sending_dhpart1_on-forged MessageType.dhpart2 q = (e, rw h refl)
  sending_dhpart1_on-forged _ q = cc

  initiator_sending_dhpart2-forged :
      (t : MessageType)
      → parses key_agreement_initiator_sending_dhpart2 t ≡ true
      → Refuses s (initiator_sending_dhpart2 env c t s)
  unfolding Refuses parses initiator_sending_dhpart2 receive parse ask ◌>>=◌ ◌>>◌ and_then
  initiator_sending_dhpart2-forged MessageType.confirm1 q = (e, rw h refl)
  initiator_sending_dhpart2-forged _ q = cc

  responder_sending_confirm1-forged :
      (t : MessageType)
      → parses confirmation_responder_sending_confirm1 t ≡ true
      → Refuses s (responder_sending_confirm1 env c t s)
  unfolding Refuses parses responder_sending_confirm1 receive parse ask ◌>>=◌ ◌>>◌ and_then
  responder_sending_confirm1-forged MessageType.confirm2 q = (e, rw h refl)
  responder_sending_confirm1-forged _ q = cc

  initiator_sending_confirm2-forged :
      (t : MessageType)
      → parses confirmation_initiator_sending_confirm2 t ≡ true
      → Refuses s (initiator_sending_confirm2 env c t s)
  unfolding Refuses parses initiator_sending_confirm2 receive parse ask ◌>>=◌ ◌>>◌ and_then
  initiator_sending_confirm2-forged MessageType.conf2_ack q = (e, rw h refl)
  initiator_sending_confirm2-forged _ q = cc

  responder_sending_dhpart1-forged :
      (t : MessageType)
      → parses key_agreement_responder_sending_dhpart1 t ≡ true
      → Refuses s (responder_sending_dhpart1 env c t s)
  unfolding Refuses responder_sending_dhpart1 has_dhpart ask ◌>>=◌ ◌>>◌ and_then require return
      raise
  responder_sending_dhpart1-forged t q = elim (Bool-cases (is_set s.channel.self_packets.dhpart)) [
    | inl set ↦ rw set (sending_dhpart1_on-forged t q)
    | inr unset ↦ rw unset (_, refl)
  ]

  receive_answer-forged :
      (t : MessageType)
      → parses key_agreement_sending_commit t ≡ true
      → Refuses s (receive_answer env c t s)
  unfolding Refuses parses receive_answer fits_mode multistream_keys receive parse ask ◌>>=◌ ◌>>◌
      and_then require return raise
  receive_answer-forged MessageType.commit q = (e, rw h refl)
  receive_answer-forged MessageType.dhpart1 q =
      elim (Bool-cases (fits_mode MessageType.dhpart1 s.channel.key_agreement_algo)) [
        | inl fits ↦ rw (fits, h) (e, refl)
        | inr no_fit ↦ rw no_fit (_, refl)
      ]
  receive_answer-forged _ q = cc

  sending_commit-forged :
      (t : MessageType)
      → parses key_agreement_sending_commit t ≡ true
      → Refuses s (sending_commit env c t s)
  unfolding parses sending_commit
  sending_commit-forged MessageType.commit q = receive_answer-forged _ refl
  sending_commit-forged MessageType.dhpart1 q = receive_answer-forged _ refl
  sending_commit-forged _ q = cc

  clear_on-forged : (t : MessageType) → parses clear t ≡ true → Refuses s (clear_on env c t s)
  unfolding Refuses parses clear_on parse ask ◌>>=◌ ◌>>◌ and_then
  clear_on-forged MessageType.commit q = (e, rw h refl)
  clear_on-forged _ q = cc

-- A message that the parser refuses, of a type that the state has parsed before anything else, is
-- answered with an error, and nothing of the session changes.
pub on_message-Refuses :
    (env : Environment) (x : State) (c : Checked) (t : MessageType) (s : Session) (e : Error)
    → packet_parser env.pk env.ct env.crypto s.channel c.input c.input_length c.packet ≡ err e
    → parses x t ≡ true
    → Refuses s (on_message env x c t s)
unfolding on_message parses
on_message-Refuses env not_started c t s e h q = cc
on_message-Refuses env discovery_init c t s e h q = init_discovery-forged env c s e h t q
on_message-Refuses env discovery_waiting_for_hello c t s e h q =
    waiting_for_hello-forged env c s e h t q
on_message-Refuses env discovery_waiting_for_hello_ack c t s e h q =
    waiting_for_hello_ack-forged env c s e h t q
on_message-Refuses env key_agreement_sending_commit c t s e h q =
    sending_commit-forged env c s e h t q
on_message-Refuses env key_agreement_responder_sending_dhpart1 c t s e h q =
    responder_sending_dhpart1-forged env c s e h t q
on_message-Refuses env key_agreement_initiator_sending_dhpart2 c t s e h q =
    initiator_sending_dhpart2-forged env c s e h t q
on_message-Refuses env confirmation_responder_sending_confirm1 c t s e h q =
    responder_sending_confirm1-forged env c s e h t q
on_message-Refuses env confirmation_initiator_sending_confirm2 c t s e h q =
    initiator_sending_confirm2-forged env c s e h t q
on_message-Refuses env secure c t s e h q = cc
on_message-Refuses env sending_go_clear c t s e h q = cc
on_message-Refuses env clear c t s e h q = clear_on-forged env c s e h t q
