-- ===== src/Machine/Sending.antt =====
-- Building, storing and sending packets in the state machine (src/stateMachine.c): a stored packet is
-- numbered in place when it is sent.
use bzrtp.Common.{
  ℕ, Bytes, map, ◌++◌, Option, none, some, Result, ok, err, fault, Error, if◌then◌else◌, ◌==◌,
}
use bzrtp.Channel.{Channel, PacketStore}
use bzrtp.Packet.Types.{MessageType, Packet}
use bzrtp.Packet.Builder.{packet_build}
use bzrtp.Packet.Parser.{packet_parser}
use bzrtp.Packet.Send.{Sent, send_packet}
use bzrtp.Machine.Repeated.{same_message}
use bzrtp.Creation.{create_zrtp_packet}
use bzrtp.Session.{Environment, Session, sent}
use bzrtp.Session.Action.{Action, ask, ◌>>=◌, ◌>>◌, require, on_channel}

-- The store identifiers that the state machine sends from.
pub data Slot : Type 0 where
  hello_slot commit_slot dhpart_slot confirm_slot go_clear_slot : Slot

abbrev pub stored : Slot → PacketStore → Option Packet
stored hello_slot s = s.hello
stored commit_slot s = s.commit
stored dhpart_slot s = s.dhpart
stored confirm_slot s = s.confirm
stored go_clear_slot s = s.go_clear

abbrev pub put : Slot → Option Packet → PacketStore → PacketStore
put hello_slot p s = record s { hello = p }
put commit_slot p s = record s { commit = p }
put dhpart_slot p s = record s { dhpart = p }
put confirm_slot p s = record s { confirm = p }
put go_clear_slot p s = record s { go_clear = p }

abbrev pub store_self : Slot → Option Packet → Action (Unit {0})
store_self slot p = on_channel λ ch. record ch { self_packets = put slot p ch.self_packets }

abbrev pub store_peer : Slot → Option Packet → Action (Unit {0})
store_peer slot p = on_channel λ ch. record ch { peer_packets = put slot p ch.peer_packets }

-- The outcome of bzrtp_sendPacket; a value of the callback other than 0 is returned.
abbrev after_sending : (Packet → Channel → Channel) → Session → Sent → Session × Result (Unit {0})
after_sending keep s r = (
  record s { channel = keep r.packet r.channel; outputs = s.outputs ++ map sent r.datagrams },
  if r.retval == 0 then ok tt else err (Error.send_data_returned r.retval),
)

abbrev pub send_result :
    (Packet → Channel → Channel) → Session → Result Sent → Session × Result (Unit {0})
send_result keep s (ok r) = after_sending keep s r
send_result keep s (err e) = (s, err e)
send_result keep s fault = (s, fault)

-- A packet that is not stored.
unfoldable pub send_new : Environment → Packet → Action (Unit {0})
send_new env p s = send_result (λ p ch. ch) s (send_packet env.send_data s.channel p)

-- NULL is read only where there is a callback.
unfoldable pub send_nothing : Option (Bytes → ℕ) → Session → Session × Result (Unit {0})
send_nothing none s = (s, err Error.error_invalid_context)
send_nothing (some f) s = (s, fault)

unfoldable pub send_stored : Environment → Slot → Option Packet → Action (Unit {0})
unfolding send_nothing
send_stored env slot none s = send_nothing env.send_data s
send_stored env slot (some p) s =
    send_result (λ p ch. record ch { self_packets = put slot (some p) ch.self_packets }) s
      (send_packet env.send_data s.channel p)

unfoldable pub send_self : Environment → Slot → Action (Unit {0})
unfolding send_stored
send_self env slot s = send_stored env slot (stored slot s.channel.self_packets) s

unfoldable pub build_result : Session → Result (Channel × Packet) → Session × Result Packet
build_result s (ok (ch, p)) = (record s { channel = ch }, ok p)
build_result s (err e) = (s, err e)
build_result s fault = (s, fault)

-- bzrtp_packetBuild.
unfoldable pub build : Environment → Packet → Action Packet
unfolding build_result
build env p s =
    build_result s (packet_build env.junk env.pk env.ct env.crypto s.context s.channel (some p))

-- A packet of a type that holds nothing, or what the contexts give: created, built, and sent.
unfoldable pub create_and_build : Environment → MessageType → Action Packet
create_and_build env t = do p ← create_zrtp_packet env t; build env p

unfoldable pub send_created : Environment → MessageType → Action (Unit {0})
unfolding create_and_build
send_created env t = do p ← create_and_build env t; send_new env p

-- `return retval;` after a failed bzrtp_packetBuild: `retval` is the 0 of the creation before.
abbrev pub zero_on_error : Session × Result Packet → Session × Result (Option Packet)
zero_on_error (s, ok p) = (s, ok (some p))
zero_on_error (s, err e) = (s, ok none)
zero_on_error (s, fault) = (s, fault)

unfoldable pub build_or_return_zero : Environment → Packet → Action (Option Packet)
build_or_return_zero env p s = zero_on_error (build env p s)

-- bzrtp_packetParser on the packet of the event.
unfoldable pub parse : Environment → Packet → Bytes → ℕ → Action Packet
parse env p input n = ask λ s. packet_parser env.pk env.ct env.crypto s.channel input n p

-- A parse whose error is ignored: the packet stays as it was checked.
unfoldable pub parsed_or_same : Packet → Session × Result Packet → Session × Result Packet
parsed_or_same p (s, ok q) = (s, ok q)
parsed_or_same p (s, err e) = (s, ok p)
parsed_or_same p (s, fault) = (s, fault)

unfoldable pub parse_anyway : Environment → Packet → Bytes → ℕ → Action Packet
unfolding parsed_or_same
parse_anyway env p input n s = parsed_or_same p (parse env p input n s)

-- "packet is valid, set the sequence Number in channel context".
abbrev pub accept : Packet → Action (Unit {0})
accept p = on_channel λ ch. record ch { peer_sequence_number = p.sequence_number }

-- A repeated message is taken where it is the one stored.
unfoldable pub accept_repetition : Slot → Packet → Bytes → Action (Unit {0})
accept_repetition slot p input = do
  same ← ask λ s. same_message p input (stored slot s.channel.peer_packets)
  require same Error.error_unmatching_packet_repetition
  accept p
