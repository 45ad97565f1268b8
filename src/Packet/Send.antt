-- ===== src/Packet/Send.antt =====
-- bzrtp_sendPacket (src/stateMachine.c): the datagrams that a built packet is sent as, numbered in
-- their order. The callback bzrtp_sendData is a function from a datagram to its return value.
use bzrtp.Common.{
  ℕ, suc, ◌+◌, ◌%◌, Bytes, take, List, [], ◌∷◌, Option, none, some, Result, ok, err, fault, ◌>>=◌,
  Error, if◌then◌else◌, ◌==◌,
}
use bzrtp.Packet.Types.{Packet, Fragment}
use bzrtp.Packet.Header.{number_and_checksum, packet_set_sequence_number}
use bzrtp.Channel.{Channel}

-- The outcome: the context and the packet, which is numbered in place, what was handed to the callback,
-- and the value returned.
pub record Sent : Type 0 where
  pub channel : Channel
  pub packet : Packet
  pub datagrams : List Bytes
  pub retval : ℕ

abbrev pub next_sequence_number : Channel → Channel
next_sequence_number ch = record ch { self_sequence_number = suc ch.self_sequence_number % 65536 }

-- `bzrtp_packetSetSequenceNumber` on a fragment.
unfoldable pub fragment_set_sequence_number : Fragment → ℕ → Result Fragment
fragment_set_sequence_number f sequence_number = do
  packet_string ← number_and_checksum sequence_number (f.message_length + 20) f.packet_string
  ok (record f { sequence_number = sequence_number; packet_string = packet_string })

-- The first n bytes of a packet string.
unfoldable pub datagram : ℕ → Option Bytes → Result Bytes
datagram n none = fault
datagram n (some packet_string) = ok (take n packet_string)

unfoldable pub send_entire : (Bytes → ℕ) → Channel → Packet → Result Sent
unfolding datagram
send_entire send_data ch p = do
  p ← packet_set_sequence_number p ch.self_sequence_number
  sent ← datagram (p.message_length + 16) p.packet_string
  ok (record {
    channel = next_sequence_number ch;
    packet = p;
    datagrams = sent ∷ [];
    retval = send_data sent;
  })

-- The loop over the fragments: those that are left, after a `return retval` untouched.
pub record SentFragments : Type 0 where
  pub channel : Channel
  pub fragments : List Fragment
  pub datagrams : List Bytes
  pub retval : ℕ

send_first : Channel → Fragment → Result (Fragment × Bytes)
unfolding fragment_set_sequence_number
send_first ch f = do
  f ← fragment_set_sequence_number f ch.self_sequence_number
  ok (f, take (f.message_length + 24) f.packet_string)

unfoldable pub send_fragments : (Bytes → ℕ) → Channel → List Fragment → Result SentFragments
unfolding send_first
send_fragments send_data ch [] =
    ok (record { channel = ch; fragments = []; datagrams = []; retval = 0 })
send_fragments send_data ch (f ∷ fs) =
    let others = send_fragments send_data (next_sequence_number ch) fs in
    do
      (f, sent) ← send_first ch f
      if send_data sent == 0
          then (do
            s ← others
            ok (record s { fragments = f ∷ s.fragments; datagrams = sent ∷ s.datagrams }))
          else ok (record {
            channel = ch;
            fragments = f ∷ fs;
            datagrams = sent ∷ [];
            retval = send_data sent;
          })

send_fragmented : (Bytes → ℕ) → Channel → Packet → Result Sent
unfolding send_fragments
send_fragmented send_data ch p = do
  s ← send_fragments send_data ch p.fragments
  ok (record {
    channel = s.channel;
    packet = record p { fragments = s.fragments };
    datagrams = s.datagrams;
    retval = s.retval;
  })

unfoldable pub send_packet : Option (Bytes → ℕ) → Channel → Packet → Result Sent
unfolding send_entire send_fragmented
send_packet none ch p = err Error.error_invalid_context
send_packet (some send_data) ch p = elim p.fragments [
  | [] ↦ send_entire send_data ch p
  | _ ↦ send_fragmented send_data ch p
]
