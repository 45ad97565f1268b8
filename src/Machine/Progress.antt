-- ===== src/Machine/Progress.antt =====
-- The second half of the graph: the exchange of DHParts, the Confirm messages and the secure state, and
-- all message events together (src/stateMachine.c, include/stateMachine.h).
use bzrtp.Common.{ℕ, Bool, refl}
use bzrtp.Packet.Types.{MessageType, Packet}
use bzrtp.Packet.Check.{Checked}
use bzrtp.Session.{
  Environment, State, not_started, discovery_init, discovery_waiting_for_hello,
  discovery_waiting_for_hello_ack, key_agreement_sending_commit,
  key_agreement_responder_sending_dhpart1, key_agreement_initiator_sending_dhpart2,
  confirmation_responder_sending_confirm1, confirmation_initiator_sending_confirm2, secure,
  sending_go_clear, clear,
}
use bzrtp.Machine.Sending.{Slot}
use bzrtp.Machine.Exchange.{
  take_dhpart2, has_dhpart, sending_dhpart1_on, responder_sending_dhpart1,
  initiator_sending_dhpart2,
}
use bzrtp.Machine.Confirmation.{
  take_confirm2, repeat_confirm1, responder_sending_confirm1, initiator_sending_confirm2, secure_on,
}
use bzrtp.Machine.Driving.{on_message}
use bzrtp.Machine.Keeping.{Keeps}
use bzrtp.Machine.Entered.{
  give_secrets-Keeps, dhm-Keeps, srtp-Keeps, enter_sending_confirm2-Keeps,
  enter_sending_confirm1-Keeps,
}
use bzrtp.Machine.Answered.{
  match_dhpart2-Keeps, update_cached_secrets-Keeps, compute_shared_secret-Keeps,
}
use bzrtp.Machine.Edges.{
  flag, Moves, Keeps-Moves, go_to-Moves, secure-Moves, dhpart2_dhm, confirm1_dhm, confirm2_last,
  conf2_ack_last,
}
use bzrtp.Machine.Clearing.{take_go_clear-Moves, sending_go_clear_on-Moves, clear_on-Moves}
use bzrtp.Machine.Graph.{
  moving, init_discovery-Moves, waiting_for_hello-Moves, waiting_for_hello_ack-Moves,
  sending_commit-Moves,
}

take_dhpart2-Moves :
    (env : Environment) (p : Packet)
    → Moves MessageType.dhpart2 key_agreement_responder_sending_dhpart1 (take_dhpart2 env p)
unfolding take_dhpart2 flag
take_dhpart2-Moves env p =
    search
      (
        moving,
        match_dhpart2-Keeps,
        compute_shared_secret-Keeps,
        dhm-Keeps,
        go_to-Moves _ _ _ _ dhpart2_dhm (λ b. refl) (enter_sending_confirm1-Keeps env),
      )
      depth 40

pub has_dhpart-Keeps : Keeps has_dhpart
unfolding has_dhpart
has_dhpart-Keeps = search moving depth 40

sending_dhpart1_on-Moves :
    (env : Environment) (c : Checked) (t : MessageType)
    → Moves t key_agreement_responder_sending_dhpart1 (sending_dhpart1_on env c t)
unfolding sending_dhpart1_on
sending_dhpart1_on-Moves env c MessageType.commit = search (moving, Keeps-Moves) depth 40
sending_dhpart1_on-Moves env c MessageType.dhpart2 = search (moving, take_dhpart2-Moves) depth 40
sending_dhpart1_on-Moves env c _ = search (moving, Keeps-Moves) depth 40

responder_sending_dhpart1-Moves :
    (env : Environment) (c : Checked) (t : MessageType)
    → Moves t key_agreement_responder_sending_dhpart1 (responder_sending_dhpart1 env c t)
unfolding responder_sending_dhpart1
responder_sending_dhpart1-Moves env c t =
    search (moving, has_dhpart-Keeps, sending_dhpart1_on-Moves) depth 40

initiator_sending_dhpart2-Moves :
    (env : Environment) (c : Checked) (t : MessageType)
    → Moves t key_agreement_initiator_sending_dhpart2 (initiator_sending_dhpart2 env c t)
unfolding initiator_sending_dhpart2 flag
initiator_sending_dhpart2-Moves env c MessageType.dhpart1 = search (moving, Keeps-Moves) depth 40
initiator_sending_dhpart2-Moves env c MessageType.confirm1 =
    search (moving, go_to-Moves _ _ _ _ confirm1_dhm (λ b. refl) (enter_sending_confirm2-Keeps env))
      depth 40
initiator_sending_dhpart2-Moves env c _ = search (moving, Keeps-Moves) depth 40

take_confirm2-Moves :
    (env : Environment) (p : Packet)
    → Moves MessageType.confirm2 confirmation_responder_sending_confirm1 (take_confirm2 env p)
unfolding take_confirm2
take_confirm2-Moves env p =
    search
      (
        moving,
        srtp-Keeps,
        update_cached_secrets-Keeps,
        give_secrets-Keeps,
        secure-Moves env _ _ confirm2_last,
      )
      depth 40

repeat_confirm1-Keeps :
    (env : Environment) (slot : Slot) (fits : ℕ → Bool) (c : Checked)
    → Keeps (repeat_confirm1 env slot fits c)
unfolding repeat_confirm1
repeat_confirm1-Keeps env slot fits c = search moving depth 40

responder_sending_confirm1-Moves :
    (env : Environment) (c : Checked) (t : MessageType)
    → Moves t confirmation_responder_sending_confirm1 (responder_sending_confirm1 env c t)
unfolding responder_sending_confirm1
responder_sending_confirm1-Moves env c MessageType.commit =
    search (Keeps-Moves, repeat_confirm1-Keeps) depth 40
responder_sending_confirm1-Moves env c MessageType.dhpart2 =
    search (Keeps-Moves, repeat_confirm1-Keeps) depth 40
responder_sending_confirm1-Moves env c MessageType.confirm2 =
    search (moving, take_confirm2-Moves) depth 40
responder_sending_confirm1-Moves env c _ = search (moving, Keeps-Moves) depth 40

initiator_sending_confirm2-Moves :
    (env : Environment) (c : Checked) (t : MessageType)
    → Moves t confirmation_initiator_sending_confirm2 (initiator_sending_confirm2 env c t)
unfolding initiator_sending_confirm2
initiator_sending_confirm2-Moves env c MessageType.confirm1 = search (moving, Keeps-Moves) depth 40
initiator_sending_confirm2-Moves env c MessageType.conf2_ack =
    search
      (moving, update_cached_secrets-Keeps, give_secrets-Keeps, secure-Moves env _ _ conf2_ack_last)
      depth 40
initiator_sending_confirm2-Moves env c _ = search (moving, Keeps-Moves) depth 40

secure_on-Moves :
    (env : Environment) (c : Checked) (t : MessageType) → Moves t secure (secure_on env c t)
unfolding secure_on
secure_on-Moves env c MessageType.confirm2 = search (moving, Keeps-Moves) depth 40
secure_on-Moves env c MessageType.go_clear =
    search (moving, take_go_clear-Moves, Keeps-Moves) depth 40
secure_on-Moves env c _ = search (moving, Keeps-Moves) depth 40

pub on_message-Moves :
    (env : Environment) (x : State) (c : Checked) (t : MessageType)
    → Moves t x (on_message env x c t)
unfolding on_message
on_message-Moves env not_started c t = search (moving, Keeps-Moves) depth 40
on_message-Moves env discovery_init c t = init_discovery-Moves env c t
on_message-Moves env discovery_waiting_for_hello c t = waiting_for_hello-Moves env c t
on_message-Moves env discovery_waiting_for_hello_ack c t = waiting_for_hello_ack-Moves env c t
on_message-Moves env key_agreement_sending_commit c t = sending_commit-Moves env c t
on_message-Moves env key_agreement_responder_sending_dhpart1 c t =
    responder_sending_dhpart1-Moves env c t
on_message-Moves env key_agreement_initiator_sending_dhpart2 c t =
    initiator_sending_dhpart2-Moves env c t
on_message-Moves env confirmation_responder_sending_confirm1 c t =
    responder_sending_confirm1-Moves env c t
on_message-Moves env confirmation_initiator_sending_confirm2 c t =
    initiator_sending_confirm2-Moves env c t
on_message-Moves env secure c t = secure_on-Moves env c t
on_message-Moves env sending_go_clear c t = sending_go_clear_on-Moves env c t
on_message-Moves env clear c t = clear_on-Moves env c t
