-- ===== src/Machine/Ticks.antt =====
-- A tick of bzrtp_iterate on a channel whose state repeats a packet (src/bzrtp.c, src/stateMachine.c).
use bzrtp.Common.{ℕ, Bool-cases, ok, if◌then◌else◌, ◌≡◌, refl, inl, inr}
use bzrtp.Session.{
  Environment, Session, State, discovery_init, discovery_waiting_for_hello_ack,
  key_agreement_sending_commit, key_agreement_initiator_sending_dhpart2,
  confirmation_initiator_sending_confirm2, sending_go_clear,
}
use bzrtp.Session.Action.{ask, return, modify, ◌>>=◌, ◌>>◌, and_then}
use bzrtp.Timer.{Repeats, hello, non_hello, is_due, iterate}
use bzrtp.Machine.Sending.{
  Slot, hello_slot, commit_slot, dhpart_slot, confirm_slot, go_clear_slot, send_self,
}
use bzrtp.Machine.Discovery.{retransmit}
use bzrtp.Machine.Driving.{on_timer, iterate_channel}

-- The states that send on their own, with what they repeat.
pub data IsRepeater : State → Repeats → Slot → Type 0 where
  first_hello : IsRepeater discovery_init hello hello_slot
  further_hello : IsRepeater discovery_waiting_for_hello_ack hello hello_slot
  commit : IsRepeater key_agreement_sending_commit non_hello commit_slot
  dhpart2 : IsRepeater key_agreement_initiator_sending_dhpart2 non_hello dhpart_slot
  sent_go_clear : IsRepeater sending_go_clear non_hello go_clear_slot
  confirm2 : IsRepeater confirmation_initiator_sending_confirm2 non_hello confirm_slot

on_timer-retransmit :
    (env : Environment) (x : State) (k : Repeats) (slot : Slot)
    → IsRepeater x k slot
    → on_timer env x ≡ retransmit env k slot
unfolding on_timer
on_timer-retransmit env x k slot first_hello = refl
on_timer-retransmit env x k slot further_hello = refl
on_timer-retransmit env x k slot commit = refl
on_timer-retransmit env x k slot dhpart2 = refl
on_timer-retransmit env x k slot confirm2 = refl
on_timer-retransmit env x k slot sent_go_clear = refl

-- The session after the tick, before anything is sent.
abbrev pub ticked : Repeats → ℕ → Session → Session
ticked k time s = record s { time_reference = time; timer = (iterate k time s.timer).0 }

-- In a state that repeats a packet a tick changes the timer as a tick of the timer alone does, whatever
-- becomes of the sending; where the timer is due the stored packet of the state is sent, with the result
-- of the sending as its own, else nothing is done.
pub iterate_channel-iterate :
    (env : Environment) (time : ℕ) (s : Session) (k : Repeats) (slot : Slot)
    → IsRepeater s.state_machine k slot
    → iterate_channel env time s ≡ (
        if (iterate k time s.timer).1
        then send_self env slot (ticked k time s)
        else (ticked k time s, ok tt))
unfolding iterate_channel iterate retransmit ask return modify ◌>>=◌ ◌>>◌ and_then
iterate_channel-iterate env time s k slot r = elim (Bool-cases (is_due time s.timer)) [
  | inl due ↦ rw (due, on_timer-retransmit env s.state_machine k slot r) refl
  | inr early ↦ rw early refl
]
