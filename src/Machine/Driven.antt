-- ===== src/Machine/Driven.antt =====
-- The calls of src/bzrtp.c follow the graph of the states.
use bzrtp.Common.{
  ℕ, Bytes, Option, none, some, Result, ok, err, fault, Error, false, ◌≡◌, refl, ◌∙◌, ◌⊎◌, inl, inr,
  Bool-cases, ◌||◌,
}
use bzrtp.Channel.{Channel}
use bzrtp.Packet.Types.{MessageType, Packet}
use bzrtp.Packet.Check.{Checked, packet_check}
use bzrtp.Session.{
  Environment, Session, State, not_started, discovery_init, discovery_waiting_for_hello_ack,
  key_agreement_sending_commit, key_agreement_responder_sending_dhpart1,
  key_agreement_initiator_sending_dhpart2, confirmation_initiator_sending_confirm2,
  sending_go_clear, clear,
}
use bzrtp.Session.Action.{◌>>=◌, ◌>>◌, and_then, ask, require, raise, return, modify}
use bzrtp.Machine.Clear.{repeat_clear_ack}
use bzrtp.Machine.Driving.{
  on_timer, start_channel_engine, iterate_channel, send_ping_ack, forget_ping, respond_to_ping,
  answer_ping, handle, after_check, process_message, is_started,
}
use bzrtp.Machine.Discovery.{enter_discovery}
use bzrtp.Machine.Keeping.{Keeps, view}
use bzrtp.Machine.Staying.{packets_keep}
use bzrtp.Machine.Entered.{retransmit-Keeps, enter_discovery-Keeps}
use bzrtp.Machine.Edges.{Move, Moves}
use bzrtp.Machine.Progress.{on_message-Moves, has_dhpart-Keeps}

repeat_clear_ack-Keeps : (env : Environment) → Keeps (repeat_clear_ack env)
unfolding repeat_clear_ack
repeat_clear_ack-Keeps env = search packets_keep depth 40

on_timer-Keeps : (env : Environment) (x : State) → Keeps (on_timer env x)
unfolding on_timer
on_timer-Keeps env discovery_init = search retransmit-Keeps
on_timer-Keeps env discovery_waiting_for_hello_ack = search retransmit-Keeps
on_timer-Keeps env key_agreement_sending_commit = search retransmit-Keeps
on_timer-Keeps env key_agreement_responder_sending_dhpart1 = has_dhpart-Keeps
on_timer-Keeps env key_agreement_initiator_sending_dhpart2 = search retransmit-Keeps
on_timer-Keeps env confirmation_initiator_sending_confirm2 = search retransmit-Keeps
on_timer-Keeps env sending_go_clear = search retransmit-Keeps
on_timer-Keeps env clear = repeat_clear_ack-Keeps env
on_timer-Keeps env _ = search packets_keep depth 40

pub iterate_channel-Keeps : (env : Environment) (time : ℕ) → Keeps (iterate_channel env time)
unfolding iterate_channel
iterate_channel-Keeps env time = search (packets_keep, on_timer-Keeps) depth 40

send_ping_ack-Keeps : (f : Option (Bytes → ℕ)) (p : Packet) → Keeps (send_ping_ack f p)
unfolding send_ping_ack
send_ping_ack-Keeps none p = search packets_keep depth 40
send_ping_ack-Keeps (some f) p = search packets_keep depth 40

respond_to_ping-Keeps : (env : Environment) (c : Checked) → Keeps (respond_to_ping env c)
unfolding respond_to_ping
respond_to_ping-Keeps env c = search (packets_keep, send_ping_ack-Keeps) depth 40

forget_ping-view : (r : Session × Result (Unit {0})) → view (forget_ping r).0 ≡ view r.0
unfolding forget_ping
forget_ping-view (s, r) = refl

pub answer_ping-Keeps : (env : Environment) (c : Checked) → Keeps (answer_ping env c)
unfolding answer_ping Keeps
answer_ping-Keeps env c s =
    forget_ping-view (respond_to_ping env c s) ∙ respond_to_ping-Keeps env c s

handle-Move :
    (env : Environment) (c : Checked) (t : MessageType) (s : Session)
    → Move t (view s) (view (handle env c t s).0)
unfolding handle Moves Move Keeps
handle-Move env c MessageType.ping s = inl (answer_ping-Keeps env c s)
handle-Move env c t s = on_message-Moves env s.state_machine c t s refl

-- A datagram that is not taken leaves state and flag as they are.
after_check-Move :
    (env : Environment) (s : Session) (r : Channel × Result Checked)
    → (t : MessageType) × Move t (view s) (view (after_check env s r).0)
unfolding after_check Move
after_check-Move env s (ch, ok c) =
    (c.packet.message_type, handle-Move env c _ (record s { channel = ch }))
after_check-Move env s (ch, err Error.parser_info_packet_fragment) = (MessageType.invalid, inl refl)
after_check-Move env s (ch, err e) = (MessageType.invalid, inl refl)
after_check-Move env s (ch, fault) = (MessageType.invalid, inl refl)

pub process_message-Move :
    (env : Environment) (input : Bytes) (s : Session)
    → (t : MessageType) × Move t (view s) (view (process_message env input s).0)
unfolding process_message Move
process_message-Move env input s = elim (Bool-cases (is_started s.state_machine)) [
  | inl started ↦ rw started (after_check-Move env s (packet_check env.junk input s.channel))
  | inr not_yet ↦ rw not_yet (MessageType.invalid, inl refl)
]

is_started-false : (x : State) → is_started x ≡ false → x ≡ not_started
unfolding is_started
is_started-false not_started h = refl
is_started-false _ h = cc

enter_discovery-view : (env : Environment) (s : Session) → view (enter_discovery env s).0 ≡ view s
unfolding Keeps
enter_discovery-view env s = enter_discovery-Keeps env s

-- bzrtp_startChannelEngine moves a channel that is not started to the first state.
pub started-view :
    (env : Environment) (s : Session)
    → (view (start_channel_engine env s).0 ≡ view s)
      ⊎ ((s.state_machine ≡ not_started)
          × (view (start_channel_engine env s).0 ≡ (discovery_init, s.is_secure)))
unfolding start_channel_engine ◌>>=◌ ◌>>◌ and_then ask require raise return modify
started-view env s = elim (Bool-cases (is_started s.state_machine)) [
  | inl started ↦ inl (rw started refl)
  | inr not_yet ↦ elim (Bool-cases (s.is_main_channel || s.context_is_secure)) [
    | inl ready ↦
        inr (
          is_started-false s.state_machine not_yet,
          rw (not_yet, ready) (enter_discovery-view env _),
        )
    | inr unready ↦ inl (rw (not_yet, unready) refl)
  ]
]
