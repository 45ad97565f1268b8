-- ===== src/Calls/Running.antt =====
-- The calls of a user on a channel that is found, one after the other (src/bzrtp.c). The accessors, as
-- bzrtp_getSelfHelloHash, change nothing and are left out.
use bzrtp.Common.{ℕ, Bytes, List, [], ◌∷◌}
use bzrtp.Timer.{reset_retransmission_timer}
use bzrtp.Session.{Environment, Session}
use bzrtp.Session.Action.{Action, modify}
use bzrtp.Machine.Clear.{accept_go_clear_event, back_to_secure_event}
use bzrtp.Machine.Driving.{
  start_channel_engine, iterate_channel, process_message, send_go_clear, counted_event,
}
use bzrtp.Calls.{
  Hexadecimal, set_peer_hello_hash, set_auxiliary_shared_secret, sas_verified, reset_sas_verified,
}

-- The call of bzrtp_setPeerHelloHash has the string of the hash.
pub data Call : Type 0 where
  start : Call
  tick : ℕ → Call
  receive : Bytes → Call
  peer_hello_hash : Bytes → Call
  auxiliary_shared_secret : Bytes → Call
  timer_reset : Call
  verified : Call
  not_verified : Call
  ask_go_clear : Call
  confirm_go_clear : Call
  back_to_secure_mode : Call

unfoldable pub perform : Environment → Hexadecimal → Call → Action (Unit {0})
perform env hex start = start_channel_engine env
perform env hex (tick time_reference) = iterate_channel env time_reference
perform env hex (receive input) = process_message env input
perform env hex (peer_hello_hash string) = set_peer_hello_hash env hex string
perform env hex (auxiliary_shared_secret secret) = set_auxiliary_shared_secret secret
perform env hex timer_reset =
    modify λ s. record s { timer = reset_retransmission_timer s.is_secure s.channel.role s.timer }
perform env hex verified = sas_verified env
perform env hex not_verified = reset_sas_verified
perform env hex ask_go_clear = send_go_clear env
perform env hex confirm_go_clear = counted_event env accept_go_clear_event
perform env hex back_to_secure_mode = counted_event env back_to_secure_event

-- The session after some calls, whatever they return.
unfoldable pub run : Environment → Hexadecimal → List Call → Session → Session
unfolding perform
run env hex [] s = s
run env hex (call ∷ calls) s = run env hex calls (perform env hex call s).0
