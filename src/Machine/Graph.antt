-- ===== src/Machine/Graph.antt =====
-- Every message event follows the graph of the states (src/stateMachine.c, include/stateMachine.h).
use bzrtp.Common.{refl}
use bzrtp.Channel.{Role, initiator, responder}
use bzrtp.Packet.Types.{MessageType, Packet, CommitMessage}
use bzrtp.Packet.Check.{Checked}
use bzrtp.Session.{
  Environment, State, discovery_init, discovery_waiting_for_hello, discovery_waiting_for_hello_ack,
  key_agreement_sending_commit, key_agreement_responder_sending_dhpart1,
  confirmation_responder_sending_confirm1,
}
use bzrtp.Machine.Responding.{start_responding, turn_into_responder}
use bzrtp.Machine.Discovery.{init_discovery, waiting_for_hello, waiting_for_hello_ack}
use bzrtp.Machine.Commitment.{
  follow, take_dhpart1, take_confirm1, take_commit_contention, proceed, receive_answer,
  sending_commit,
}
use bzrtp.Machine.Staying.{packets_keep}
use bzrtp.Machine.Entered.{
  give_secrets-Keeps, dhm-Keeps, srtp-Keeps, enter_sending_confirm2-Keeps,
  enter_sending_confirm1-Keeps, enter_sending_dhpart1-Keeps, enter_sending_dhpart2-Keeps,
  enter_sending_commit-Keeps, receive-Keeps,
}
use bzrtp.Machine.Answered.{
  match_dhpart1-Keeps, match_dhpart2-Keeps, update_cached_secrets-Keeps,
  response_to_hello_message-Keeps, rebuild_dhpart-Keeps, take_commit-Keeps, contend-Keeps,
  multistream_keys-Keeps, compute_shared_secret-Keeps,
}
use bzrtp.Machine.Edges.{
  Edge, flag, Move, Moves, Keeps-Moves, >>=-Moves, >>-Moves, if-Moves, go_to-Moves,
  go_to_last-Moves, secure-Moves, hello_first, hello_acked, hello_last, ack_last, commit_dhm,
  commit_non_dhm, contention_dhm, contention_non_dhm, dhpart1_dhm, confirm1_non_dhm, dhpart2_dhm,
  confirm1_dhm, confirm2_last, conf2_ack_last,
}

pub ruleset entering = (
  packets_keep, enter_sending_confirm2-Keeps, enter_sending_confirm1-Keeps,
  enter_sending_dhpart1-Keeps, enter_sending_dhpart2-Keeps, enter_sending_commit-Keeps,
  receive-Keeps, response_to_hello_message-Keeps,
)

pub ruleset moving = (entering, >>=-Moves, >>-Moves, if-Moves)

-- A Commit leads from x to the two states of a responder.
start_responding-Moves :
    (env : Environment) (x : State)
    → Edge x MessageType.commit key_agreement_responder_sending_dhpart1
    → Edge x MessageType.commit confirmation_responder_sending_confirm1
    → Moves MessageType.commit x (start_responding env)
unfolding start_responding flag
start_responding-Moves env x dhm non_dhm =
    search
      (
        moving,
        go_to-Moves MessageType.commit x _ _ dhm (λ b. refl) (enter_sending_dhpart1-Keeps env),
        go_to-Moves MessageType.commit x _ _ non_dhm (λ b. refl) (enter_sending_confirm1-Keeps env),
      )
      depth 40

pub turn_into_responder-Moves :
    (env : Environment) (p : Packet) (m : CommitMessage) (x : State)
    → Edge x MessageType.commit key_agreement_responder_sending_dhpart1
    → Edge x MessageType.commit confirmation_responder_sending_confirm1
    → Moves MessageType.commit x (turn_into_responder env p m)
unfolding turn_into_responder
turn_into_responder-Moves env p m x dhm non_dhm =
    search
      (moving, take_commit-Keeps, rebuild_dhpart-Keeps, start_responding-Moves env x dhm non_dhm)
      depth 40

pub init_discovery-Moves :
    (env : Environment) (c : Checked) (t : MessageType)
    → Moves t discovery_init (init_discovery env c t)
unfolding init_discovery flag
init_discovery-Moves env c MessageType.hello =
    search (moving, go_to_last-Moves _ _ _ hello_first (λ b. refl)) depth 40
init_discovery-Moves env c MessageType.hello_ack =
    search (moving, go_to_last-Moves _ _ _ hello_acked (λ b. refl)) depth 40
init_discovery-Moves env c _ = search (moving, Keeps-Moves) depth 40

pub waiting_for_hello-Moves :
    (env : Environment) (c : Checked) (t : MessageType)
    → Moves t discovery_waiting_for_hello (waiting_for_hello env c t)
unfolding waiting_for_hello flag
waiting_for_hello-Moves env c MessageType.hello =
    search (moving, go_to-Moves _ _ _ _ hello_last (λ b. refl) (enter_sending_commit-Keeps env))
      depth 40
waiting_for_hello-Moves env c _ = search (moving, Keeps-Moves) depth 40

pub waiting_for_hello_ack-Moves :
    (env : Environment) (c : Checked) (t : MessageType)
    → Moves t discovery_waiting_for_hello_ack (waiting_for_hello_ack env c t)
unfolding waiting_for_hello_ack flag
waiting_for_hello_ack-Moves env c MessageType.hello = search (moving, Keeps-Moves) depth 40
waiting_for_hello_ack-Moves env c MessageType.hello_ack =
    search (moving, go_to-Moves _ _ _ _ ack_last (λ b. refl) (enter_sending_commit-Keeps env)) depth
      40
waiting_for_hello_ack-Moves env c MessageType.commit =
    search (moving, turn_into_responder-Moves, commit_dhm, commit_non_dhm) depth 40
waiting_for_hello_ack-Moves env c _ = search (moving, Keeps-Moves) depth 40

take_dhpart1-Moves :
    (env : Environment) (p : Packet)
    → Moves MessageType.dhpart1 key_agreement_sending_commit (take_dhpart1 env p)
unfolding take_dhpart1 flag
take_dhpart1-Moves env p =
    search
      (
        moving,
        match_dhpart1-Keeps,
        compute_shared_secret-Keeps,
        dhm-Keeps,
        go_to-Moves _ _ _ _ dhpart1_dhm (λ b. refl) (enter_sending_dhpart2-Keeps env),
      )
      depth 40

take_confirm1-Moves :
    (env : Environment) (p : Packet)
    → Moves MessageType.confirm1 key_agreement_sending_commit (take_confirm1 env p)
unfolding take_confirm1 flag
take_confirm1-Moves env p =
    search
      (moving, go_to-Moves _ _ _ _ confirm1_non_dhm (λ b. refl) (enter_sending_confirm2-Keeps env))
      depth 40

follow-Moves :
    (env : Environment) (p : Packet) (m : CommitMessage) (r : Role)
    → Moves MessageType.commit key_agreement_sending_commit (follow env p m r)
unfolding follow
follow-Moves env p m initiator = search (moving, Keeps-Moves) depth 40
follow-Moves env p m responder =
    search (moving, turn_into_responder-Moves, contention_dhm, contention_non_dhm) depth 40

take_commit_contention-Moves :
    (env : Environment) (p : Packet)
    → Moves MessageType.commit key_agreement_sending_commit (take_commit_contention env p)
unfolding take_commit_contention
take_commit_contention-Moves env p = search (moving, contend-Keeps, follow-Moves) depth 40

proceed-Moves :
    (env : Environment) (t : MessageType) (p : Packet)
    → Moves t key_agreement_sending_commit (proceed env t p)
unfolding proceed
proceed-Moves env MessageType.dhpart1 p = take_dhpart1-Moves env p
proceed-Moves env MessageType.confirm1 p = take_confirm1-Moves env p
proceed-Moves env MessageType.commit p = take_commit_contention-Moves env p
proceed-Moves env _ p = search (moving, Keeps-Moves) depth 40

receive_answer-Moves :
    (env : Environment) (c : Checked) (t : MessageType)
    → Moves t key_agreement_sending_commit (receive_answer env c t)
unfolding receive_answer
receive_answer-Moves env c t = search (moving, multistream_keys-Keeps, proceed-Moves) depth 40

pub sending_commit-Moves :
    (env : Environment) (c : Checked) (t : MessageType)
    → Moves t key_agreement_sending_commit (sending_commit env c t)
unfolding sending_commit
sending_commit-Moves env c MessageType.commit = receive_answer-Moves env c _
sending_commit-Moves env c MessageType.dhpart1 = receive_answer-Moves env c _
sending_commit-Moves env c MessageType.confirm1 = receive_answer-Moves env c _
sending_commit-Moves env c _ = search (moving, Keeps-Moves) depth 40
