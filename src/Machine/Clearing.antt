-- ===== src/Machine/Clearing.antt =====
-- GoClear in the graph of the states (src/stateMachine.c, include/stateMachine.h).
use bzrtp.Common.{Option, none, some, ok, ◌≡◌, sym, ap, >>=-ok, ok-injective}
use bzrtp.Packet.Types.{MessageType, Packet}
use bzrtp.Packet.Check.{Checked}
use bzrtp.Timer.{Timer}
use bzrtp.Session.{Environment, Session, secure, sending_go_clear, clear}
use bzrtp.Machine.Destruction.{go_clear, destroy_key_material, new_zrtp_sess}
use bzrtp.Machine.Clear.{
  check_clear_mac, take_go_clear, enter_sending_go_clear, check_crossing, answer_go_clear,
  sending_go_clear_on, clear_on,
}
use bzrtp.Machine.Keeping.{Keeps, view}
use bzrtp.Machine.Staying.{packets_keep}
use bzrtp.Machine.Edges.{
  Moves, flag, Keeps-Moves, change-Moves, go_clear_taken, go_clear_acked, clear_dhm, clear_non_dhm,
}
use bzrtp.Machine.Graph.{moving, turn_into_responder-Moves}

go_clear-view :
    (env : Environment) (timer : Session → Timer) (s r : Session)
    → go_clear env timer s ≡ ok r
    → view r ≡ (clear, flag clear s.is_secure)
unfolding go_clear destroy_key_material flag
go_clear-view env timer s r h =
    >>=-ok (new_zrtp_sess env (destroy_key_material s)) _ h
      λ sess _ h. ap view (sym (ok-injective h))

pub check_clear_mac-Keeps : (env : Environment) (c : Checked) → Keeps (check_clear_mac env c)
unfolding check_clear_mac
check_clear_mac-Keeps env c = search packets_keep depth 40

pub take_go_clear-Moves :
    (env : Environment) (c : Checked) → Moves MessageType.go_clear secure (take_go_clear env c)
unfolding take_go_clear
take_go_clear-Moves env c =
    search
      (
        moving,
        check_clear_mac-Keeps,
        change-Moves MessageType.go_clear secure clear _ go_clear_taken (go_clear-view env _),
      )
      depth 40

check_crossing-Keeps :
    (env : Environment) (c : Checked) (p : Option Packet) → Keeps (check_crossing env c p)
unfolding check_crossing
check_crossing-Keeps env c none = search (packets_keep, check_clear_mac-Keeps) depth 40
check_crossing-Keeps env c (some p) = search packets_keep depth 40

answer_go_clear-Keeps : (env : Environment) (c : Checked) → Keeps (answer_go_clear env c)
unfolding answer_go_clear
answer_go_clear-Keeps env c = search (packets_keep, check_crossing-Keeps) depth 40

pub sending_go_clear_on-Moves :
    (env : Environment) (c : Checked) (t : MessageType)
    → Moves t sending_go_clear (sending_go_clear_on env c t)
unfolding sending_go_clear_on
sending_go_clear_on-Moves env c MessageType.clear_ack =
    change-Moves MessageType.clear_ack sending_go_clear clear _ go_clear_acked (go_clear-view env _)
sending_go_clear_on-Moves env c MessageType.go_clear =
    Keeps-Moves _ _ _ (answer_go_clear-Keeps env c)
sending_go_clear_on-Moves env c _ = search (moving, Keeps-Moves) depth 40

pub clear_on-Moves :
    (env : Environment) (c : Checked) (t : MessageType) → Moves t clear (clear_on env c t)
unfolding clear_on
clear_on-Moves env c MessageType.commit =
    search (moving, turn_into_responder-Moves, clear_dhm, clear_non_dhm) depth 40
clear_on-Moves env c _ = search (moving, Keeps-Moves) depth 40

pub enter_sending_go_clear-Keeps : (env : Environment) → Keeps (enter_sending_go_clear env)
unfolding enter_sending_go_clear
enter_sending_go_clear-Keeps env = search packets_keep depth 40
