-- ===== src/Tests/Fragments.antt =====
-- A message in fragments.
use bzrtp.Common.{Bytes, codes, [], ◌∷◌, replicate, refl, arith}
use bzrtp.Tests.Data.{channel}
use bzrtp.Channel.{responder}
use bzrtp.Packet.Types.{MessageType}
use bzrtp.Packet.Names.{message_type_int_to_string}
use bzrtp.Packet.Fragmentation.Tiling.{FragmentsTile, fragments_of-IsTiling}
use bzrtp.Packet.Fragmentation.Arrival.{fragment_string}
use bzrtp.Packet.Fragmentation.Whole.{MessageArrives, fragmented-MessageArrives}
use bzrtp.Packet.Fragmentation.Order.{one_left, more_left}

tiling_example : FragmentsTile 0 600 4 1 1000 (replicate 1000 3)
tiling_example =
    fragments_of-IsTiling 0 600 4 1 1000 (replicate 1000 3) (omega arith) (omega arith) refl
      (omega arith)

-- A Ping of 24 bytes in two fragments, of 16 and of 8 bytes.
abbrev ping : Bytes
ping = codes "1.10abcdefgh"

abbrev first_chunk : Bytes
first_chunk = 0x50 ∷ 0x5a ∷ 0 ∷ 6 ∷ codes "Ping    1.10"

arrival_example :
    MessageArrives 0 4 1 MessageType.ping
      (codes "Ping    ")
      ping
      (channel responder)
      (fragment_string 4 1 24 7 0 first_chunk ∷ fragment_string 4 1 24 8 16 (codes "abcdefgh") ∷ [])
      8
unfolding message_type_int_to_string
arrival_example =
    fragmented-MessageArrives 0 4 1 MessageType.ping (codes "Ping    ") ping
      (fragment_string 4 1 24 7 0 first_chunk ∷ fragment_string 4 1 24 8 16 (codes "abcdefgh") ∷ [])
      8 (channel responder)
      (more_left 7 8 [] first_chunk (codes "abcdefgh")
        (fragment_string 4 1 24 8 16 (codes "abcdefgh") ∷ []) (omega arith) refl (omega arith)
        (omega arith) (omega arith)
        (one_left 8 first_chunk (codes "abcdefgh") (omega arith) refl (omega arith) (omega arith)))
      (omega arith) refl refl (omega arith) refl (omega arith)
