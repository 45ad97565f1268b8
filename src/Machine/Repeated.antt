-- ===== src/Machine/Repeated.antt =====
-- The test that a packet repeats a stored one, by length and content (src/stateMachine.c).
use bzrtp.Common.{
  Bytes, Option, none, some, Result, ok, fault, ◌>>=◌, Bool, false, if◌then◌else◌, ◌==◌, bytes_eq,
}
use bzrtp.Packet.Types.{Packet}
use bzrtp.Packet.Parser.DhPart.{built_message}
use bzrtp.Packet.Parser.Reading.{message_bytes}

-- Is the packet of the event the same as the stored one?
unfoldable pub same_message : Packet → Bytes → Option Packet → Result Bool
same_message p input none = fault
same_message p input (some q) =
    if q.message_length == p.message_length
    then (do
      received ← message_bytes q.message_length input
      first ← built_message (some q)
      ok (bytes_eq received first))
    else ok false
