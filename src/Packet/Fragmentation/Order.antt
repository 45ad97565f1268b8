-- ===== src/Packet/Fragmentation/Order.antt =====
-- The datagrams of a message in the order of their offsets, and what a channel that receives them one
-- after the other gives (bzrtp_packetCheck, src/packetParser.c).
use bzrtp.Common.{ℕ, ◌%◌, ◌≤◌, ◌<◌, Bytes, length, List, [], ◌∷◌, ◌++◌, ok, err, Error, ◌≡◌}
use bzrtp.Channel.{Channel}
use bzrtp.Packet.Check.{packet_check, Checked}
use bzrtp.Packet.Fragmentation.Arrival.{fragment_string}

-- Datagrams go into bzrtp_packetCheck one after the other: each asks for more, until the last gives a
-- packet.
pub data GivesPacket (junk : ℕ) : Channel → List Bytes → Channel → Checked → Type 0 where
  last_one :
      (input : Bytes) (ch ch' : Channel) (x : Checked)
      → packet_check junk input ch ≡ (ch', ok x)
      → GivesPacket junk ch (input ∷ []) ch' x
  asks_more :
      (input : Bytes) (inputs : List Bytes) (ch ch' ch'' : Channel) (x : Checked)
      → packet_check junk input ch ≡ (ch', err Error.parser_info_packet_fragment)
      → GivesPacket junk ch' inputs ch'' x
      → GivesPacket junk ch (input ∷ inputs) ch'' x

-- The datagrams of the chunks that follow a front: chunks of whole words, numbered in any way; the last
-- one ends the message.
pub data IsInOrder (ssrc message_id total : ℕ) : Bytes → Bytes → List Bytes → ℕ → Type 0 where
  one_left :
      (seq : ℕ) (front chunk : Bytes)
      → seq < 65536
      → length chunk % 4 ≡ 0
      → 4 ≤ length chunk
      → length chunk ≤ 3048
      → IsInOrder ssrc message_id total front chunk
          (fragment_string ssrc message_id total seq (length front) chunk ∷ [])
          seq
  more_left :
      (seq last : ℕ) (front chunk rest : Bytes) (inputs : List Bytes)
      → seq < 65536
      → length chunk % 4 ≡ 0
      → 4 ≤ length chunk
      → length chunk ≤ 3048
      → 0 < length rest
      → IsInOrder ssrc message_id total (front ++ chunk) rest inputs last
      → IsInOrder ssrc message_id total front
          (chunk ++ rest)
          (fragment_string ssrc message_id total seq (length front) chunk ∷ inputs)
          last
