-- ===== src/Machine/Secured.antt =====
-- What makes a channel secure: a datagram with a Confirm2 or a Conf2ACK that was accepted
-- (src/stateMachine.c, src/bzrtp.c).
use bzrtp.Common.{
  Bytes, Result, ok, err, fault, Error, Bool, true, ◌≡◌, ◌≢◌, refl, sym, ap, ◌∙◌, inl, inr,
  Bool-cases,
}
use bzrtp.Channel.{Channel}
use bzrtp.Packet.Types.{MessageType, Packet}
use bzrtp.Packet.Check.{Checked, packet_check}
use bzrtp.Packet.Parser.{packet_parser}
use bzrtp.Session.{
  Environment, Session, State, secure, confirmation_responder_sending_confirm1,
  confirmation_initiator_sending_confirm2,
}
use bzrtp.Session.Action.{ask, ◌>>=◌, ◌>>◌, and_then}
use bzrtp.Machine.Sending.{parse}
use bzrtp.Machine.Confirmation.{responder_sending_confirm1, initiator_sending_confirm2}
use bzrtp.Machine.Driving.{on_message, handle, after_check, process_message, is_started}
use bzrtp.Machine.Keeping.{Keeps}
use bzrtp.Machine.Edges.{
  Edge, Move, Moves, hello_first, hello_acked, hello_last, ack_last, commit_dhm, commit_non_dhm,
  contention_dhm, contention_non_dhm, dhpart1_dhm, confirm1_non_dhm, dhpart2_dhm, confirm1_dhm,
  confirm2_last, conf2_ack_last, go_clear_taken, go_clear_acked, clear_dhm, clear_non_dhm,
}
use bzrtp.Machine.Progress.{on_message-Moves}
use bzrtp.Machine.Driven.{answer_ping-Keeps}
use bzrtp.Machine.Forged.{parses, Refuses, on_message-Refuses}

-- The last message of a responder's handshake, and of an initiator's.
pub data Last : State → MessageType → Type 0 where
  last_confirm2 : Last confirmation_responder_sending_confirm1 MessageType.confirm2
  last_conf2_ack : Last confirmation_initiator_sending_confirm2 MessageType.conf2_ack

Edge-Last : (x y : State) (t : MessageType) → Edge x t y → y ≡ secure → Last x t
Edge-Last x y t hello_first h = cc
Edge-Last x y t hello_acked h = cc
Edge-Last x y t hello_last h = cc
Edge-Last x y t ack_last h = cc
Edge-Last x y t commit_dhm h = cc
Edge-Last x y t commit_non_dhm h = cc
Edge-Last x y t contention_dhm h = cc
Edge-Last x y t contention_non_dhm h = cc
Edge-Last x y t dhpart1_dhm h = cc
Edge-Last x y t confirm1_non_dhm h = cc
Edge-Last x y t dhpart2_dhm h = cc
Edge-Last x y t confirm1_dhm h = cc
Edge-Last x y t confirm2_last h = last_confirm2
Edge-Last x y t conf2_ack_last h = last_conf2_ack
Edge-Last x y t go_clear_taken h = cc
Edge-Last x y t go_clear_acked h = cc
Edge-Last x y t clear_dhm h = cc
Edge-Last x y t clear_non_dhm h = cc

Last-parses : (x : State) (t : MessageType) → Last x t → parses x t ≡ true
unfolding parses
Last-parses x t last_confirm2 = refl
Last-parses x t last_conf2_ack = refl

-- A parser that faults leaves the session as it is.
on_message-fault :
    (env : Environment) (x : State) (c : Checked) (t : MessageType) (s : Session)
    → Last x t
    → packet_parser env.pk env.ct env.crypto s.channel c.input c.input_length c.packet ≡ fault
    → on_message env x c t s ≡ (s, fault)
unfolding on_message responder_sending_confirm1 initiator_sending_confirm2 parse ask ◌>>=◌ ◌>>◌
    and_then
on_message-fault env x c t s last_confirm2 h = rw h refl
on_message-fault env x c t s last_conf2_ack h = rw h refl

-- The message of the packet is accepted.
pub Accepts : Environment → Channel → Checked → Type 0
Accepts env ch c =
    (p : Packet) × (packet_parser env.pk env.ct env.crypto ch c.input c.input_length c.packet
      ≡ ok p)

accepted_by :
    (env : Environment) (c : Checked) (t : MessageType) (s : Session) (r : Result Packet)
    → packet_parser env.pk env.ct env.crypto s.channel c.input c.input_length c.packet ≡ r
    → Last s.state_machine t
    → s.state_machine ≢ secure
    → (on_message env s.state_machine c t s).0.state_machine ≡ secure
    → Accepts env s.channel c
unfolding Accepts Refuses
accepted_by env c t s (ok p) h last before after = (p, h)
accepted_by env c t s (err e) h last before after =
    let (e', refused) = on_message-Refuses env s.state_machine c t s e h (Last-parses _ _ last) in
    absurd (before (sym (ap (λ r. r.0.state_machine) refused) ∙ after))
accepted_by env c t s fault h last before after = absurd (
    before (
      sym (ap (λ r. r.0.state_machine) (on_message-fault env s.state_machine c t s last h))
      ∙ after))

Move-Last :
    (t : MessageType) (w v : State × Bool) → Move t w v → w.0 ≢ secure → v.0 ≡ secure → Last w.0 t
unfolding Move
Move-Last t w v (inl same) before after = absurd (before (sym (ap (λ z. z.0) same) ∙ after))
Move-Last t w v (inr (y, edge, there)) before after =
    Edge-Last w.0 y t edge (sym (ap (λ z. z.0) there) ∙ after)

on_message-secured :
    (env : Environment) (c : Checked) (t : MessageType) (s : Session)
    → s.state_machine ≢ secure
    → (on_message env s.state_machine c t s).0.state_machine ≡ secure
    → Last s.state_machine t × Accepts env s.channel c
unfolding Moves
on_message-secured env c t s before after =
    let last = Move-Last t _ _ (on_message-Moves env s.state_machine c t s refl) before after in
    (last, accepted_by env c t s _ refl last before after)

handle-secured :
    (env : Environment) (c : Checked) (t : MessageType) (s : Session)
    → s.state_machine ≢ secure
    → (handle env c t s).0.state_machine ≡ secure
    → Last s.state_machine t × Accepts env s.channel c
unfolding handle Keeps
handle-secured env c MessageType.ping s before after =
    absurd (before (sym (ap (λ z. z.0) (answer_ping-Keeps env c s)) ∙ after))
handle-secured env c t s before after = on_message-secured env c t s before after

-- The datagram was checked and its message accepted, in the state that takes it as the last one.
pub Completes : Environment → State → Channel × Result Checked → Type 0
Completes env x r =
    (ch : Channel) × (c : Checked) × (r ≡ (ch, ok c))
    × (Last x c.packet.message_type × Accepts env ch c)

after_check-Completes :
    (env : Environment) (s : Session) (r : Channel × Result Checked)
    → s.state_machine ≢ secure
    → (after_check env s r).0.state_machine ≡ secure
    → Completes env s.state_machine r
unfolding after_check Completes
after_check-Completes env s (ch, ok c) before after =
    (ch, c, refl, handle-secured env c _ (record s { channel = ch }) before after)
after_check-Completes env s (ch, err Error.parser_info_packet_fragment) before after =
    absurd (before after)
after_check-Completes env s (ch, err e) before after = absurd (before after)
after_check-Completes env s (ch, fault) before after = absurd (before after)

-- A received datagram that makes a channel secure passed the check of the packet, is a Confirm2 for a
-- responder or a Conf2ACK for an initiator in the state that sends its Confirm2, and was accepted by the
-- parser.
pub process_message-Completes :
    (env : Environment) (input : Bytes) (s : Session)
    → s.state_machine ≢ secure
    → (process_message env input s).0.state_machine ≡ secure
    → Completes env s.state_machine (packet_check env.junk input s.channel)
unfolding process_message
process_message-Completes env input s before after =
    elim (Bool-cases (is_started s.state_machine)) [
      | inl started ↦
          let whole : process_message env input s
              ≡ after_check env s (packet_check env.junk input s.channel) =
            rw started refl in
          after_check-Completes env s _ before (sym (ap (λ r. r.0.state_machine) whole) ∙ after)
      | inr not_yet ↦
          let whole : process_message env input s ≡ (s, err Error.error_invalid_context) =
            rw not_yet refl in
          absurd (before (sym (ap (λ r. r.0.state_machine) whole) ∙ after))
    ]
