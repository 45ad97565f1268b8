-- ===== src/Packet/Fragmentation/Whole.antt =====
-- All the fragments of a message, in order, give the packet of the message (bzrtp_packetCheck,
-- src/packetParser.c).
use bzrtp.Common.{
  ℕ, ◌+◌, ◌%◌, ◌≤◌, ◌<◌, Bytes, length, length-append, replicate, List, [], ◌++◌, append_assoc,
  some, ok, err, Error, ◌≡◌, refl, arith, ap, ◌∙◌,
}
use bzrtp.Channel.{Channel, FragmentReassembly}
use bzrtp.Packet.Types.{MessageType}
use bzrtp.Packet.Names.{message_type_int_to_string}
use bzrtp.Packet.Header.{message_set_header}
use bzrtp.Packet.Check.{packet_check, check_reassembled, check_entire, Checked}
use bzrtp.Packet.Delivery.{received_packet, source_of, check_message_header-message_set_header}
use bzrtp.Packet.Reassembly.{incomplete, complete}
use bzrtp.Packet.Fragmentation.Collected.{Collected}
use bzrtp.Packet.Fragmentation.Arrival.{fragment_string, check_packet_header-fragment_string}
use bzrtp.Packet.Fragmentation.InOrder.{
  Continues, ongoing, first, after, finished, packet_check-fragment, reassemble-fragment_string,
  finish-incomplete, finish-complete,
}
use bzrtp.Packet.Fragmentation.Order.{
  GivesPacket, last_one, asks_more, IsInOrder, one_left, more_left,
}

module _ (junk ssrc message_id : ℕ) (t : MessageType) (name content : Bytes) where
  abbrev pub total : ℕ
  total = length content + 12

  abbrev pub message : Bytes
  message = message_set_header total name ++ content

  -- The packet; its source is that of the packet header that was never written.
  abbrev pub reassembled_packet : ℕ → Checked
  reassembled_packet seq = record {
    packet = received_packet seq (source_of (replicate 12 junk)) t total;
    input = replicate 12 junk ++ (message ++ replicate 4 junk);
    input_length = 16 + total;
  }

  check_reassembled-message :
      (seq : ℕ) (front chunk : Bytes)
      → message_type_int_to_string t ≡ some name
      → length name ≡ 8
      → total % 4 ≡ 0
      → total < 65520
      → front ++ chunk ≡ message
      → check_reassembled seq (
          complete
            (some (replicate 12 junk ++ ((front ++ chunk) ++ replicate 4 junk)))
            (16 + total))
        ≡ ok (reassembled_packet seq)
  unfolding check_reassembled check_entire
  check_reassembled-message seq front chunk e h d lt whole = rw (
    whole,
    append_assoc name content (replicate 4 junk),
    check_message_header-message_set_header seq total (replicate 12 junk) t name
        (content ++ replicate 4 junk) refl e h (omega arith) d,
  )

  -- The end of a reassembly: no message, no fragments.
  pub record IsIdle (r : FragmentReassembly) : Type 0 where
    pub no_message : r.message_id ≡ 0
    pub no_fragments : r.fragments ≡ []

  whole_length : length name ≡ 8 → length message ≡ total
  whole_length h = omega (arith, h, length-append name content)

  last_fragment :
      (seq : ℕ) (front chunk : Bytes) (ch : Channel)
      → Continues junk ssrc message_id total front ch.incoming_fragmented_packet
      → message_type_int_to_string t ≡ some name
      → length name ≡ 8
      → message_id < 65536
      → total % 4 ≡ 0
      → total < 65520
      → seq < 65536
      → length front % 4 ≡ 0
      → length chunk % 4 ≡ 0
      → 4 ≤ length chunk
      → length chunk ≤ 3048
      → front ++ chunk ≡ message
      → let r = after junk ssrc message_id total seq front chunk ch.incoming_fragmented_packet in
        packet_check junk (fragment_string ssrc message_id total seq (length front) chunk) ch ≡ (
          record ch { incoming_fragmented_packet = finished junk ssrc message_id total r },
          ok (reassembled_packet seq),
        )
  last_fragment seq front chunk ch k e h mi d lt sq df dc lo hi whole =
      let r = after junk ssrc message_id total seq front chunk ch.incoming_fragmented_packet in
      let input = fragment_string ssrc message_id total seq (length front) chunk in
      let whole_length' = whole_length h in
      let grown = length-append front chunk in
      let ends : length (front ++ chunk) ≡ total = ap length whole ∙ whole_length' in
      let (made, c) =
        reassemble-fragment_string junk ssrc message_id total seq front chunk
          ch.incoming_fragmented_packet k mi (omega arith) d df dc (omega arith)
          (omega (arith, grown, ends)) in
      let complete_path =
        finish-complete junk ssrc message_id total (length front) (length chunk) (front ++ chunk)
          (after junk ssrc message_id total seq front chunk ch.incoming_fragmented_packet) c d lt
          ends in
      packet_check-fragment junk seq input ch _ _
        (check_packet_header-fragment_string ssrc message_id total ch.peer_sequence_number seq
          (length front) chunk sq lo hi)
        (made ∙ ap ok complete_path)
      ∙ ap
          (λ x.
            (record ch { incoming_fragmented_packet = finished junk ssrc message_id total r }, x))
          (check_reassembled-message seq front chunk e h d lt whole)

  next_fragment :
      (seq : ℕ) (front chunk rest : Bytes) (ch : Channel)
      → Continues junk ssrc message_id total front ch.incoming_fragmented_packet
      → length name ≡ 8
      → message_id < 65536
      → total % 4 ≡ 0
      → total < 65520
      → seq < 65536
      → length front % 4 ≡ 0
      → length chunk % 4 ≡ 0
      → 4 ≤ length chunk
      → length chunk ≤ 3048
      → 0 < length rest
      → front ++ (chunk ++ rest) ≡ message
      → let r = after junk ssrc message_id total seq front chunk ch.incoming_fragmented_packet in
        (packet_check junk (fragment_string ssrc message_id total seq (length front) chunk) ch
          ≡ (record ch { incoming_fragmented_packet = r }, err Error.parser_info_packet_fragment))
        × Collected junk message_id total (front ++ chunk) r
  unfolding check_reassembled
  next_fragment seq front chunk rest ch k h mi d lt sq df dc lo hi more whole =
      let input = fragment_string ssrc message_id total seq (length front) chunk in
      let r = after junk ssrc message_id total seq front chunk ch.incoming_fragmented_packet in
      let size : length front + (length chunk + length rest) ≡ total = omega (
        arith,
        length-append front (chunk ++ rest),
        length-append chunk rest,
        ap length whole,
        whole_length h,
      ) in
      let (made, c) =
        reassemble-fragment_string junk ssrc message_id total seq front chunk
          ch.incoming_fragmented_packet k mi (omega arith) d df dc (omega arith)
          (omega (arith, size)) in
      let waits =
        finish-incomplete junk ssrc message_id total (length front) (length chunk) (front ++ chunk)
          r c d (omega (arith, length-append front chunk))
          (omega (arith, length-append front chunk, size)) in
      (
        packet_check-fragment junk seq input ch r incomplete
            (check_packet_header-fragment_string ssrc message_id total ch.peer_sequence_number seq
              (length front) chunk sq lo hi)
            (made ∙ ap ok waits),
        c,
      )

  in_order-GivesPacket :
      (front rest : Bytes) (inputs : List Bytes) (last : ℕ) (ch : Channel)
      → IsInOrder ssrc message_id total front rest inputs last
      → Continues junk ssrc message_id total front ch.incoming_fragmented_packet
      → message_type_int_to_string t ≡ some name
      → length name ≡ 8
      → message_id < 65536
      → total % 4 ≡ 0
      → total < 65520
      → length front % 4 ≡ 0
      → front ++ rest ≡ message
      → (r : FragmentReassembly) × IsIdle r
        × GivesPacket junk ch inputs
            (record ch { incoming_fragmented_packet = r })
            (reassembled_packet last)
  in_order-GivesPacket _ _ _ _ ch (one_left seq front chunk sq dc lo hi) k e h mi d lt df whole =
      let r = after junk ssrc message_id total seq front chunk ch.incoming_fragmented_packet in
      (
        finished junk ssrc message_id total r,
        record { no_message = refl; no_fragments = refl },
        last_one _ ch _ _ (last_fragment seq front chunk ch k e h mi d lt sq df dc lo hi whole),
      )
  in_order-GivesPacket _ _ _ _ ch
        (more_left seq last front chunk rest inputs sq dc lo hi more others) k e h mi d lt df
        whole =
      let r = after junk ssrc message_id total seq front chunk ch.incoming_fragmented_packet in
      let (asks, c) = next_fragment seq front chunk rest ch k h mi d lt sq df dc lo hi more whole in
      let (r', idle, gives) =
        in_order-GivesPacket (front ++ chunk) rest inputs last
          (record ch { incoming_fragmented_packet = r }) others (ongoing c) e h mi d lt
          (omega (arith, length-append front chunk)) (append_assoc front chunk rest ∙ whole) in
      (r', idle, asks_more _ inputs ch _ _ _ asks gives)

  -- The datagrams give the packet of the message, and leave the channel idle but otherwise unchanged.
  unfoldable pub MessageArrives : Channel → List Bytes → ℕ → Type 0
  MessageArrives ch inputs last =
      (r : FragmentReassembly) × IsIdle r
      × GivesPacket junk ch inputs (record ch { incoming_fragmented_packet = r })
          (reassembled_packet last)

  -- The fragments of a message, in whole words and in the order of their offsets, under a message id
  -- larger than any before: every datagram but the last asks for more, the last one gives the packet of
  -- the message. Its sequence number is that of the last fragment; its source is read from a packet
  -- header that no fragment wrote.
  pub fragmented-MessageArrives :
      (inputs : List Bytes) (last : ℕ) (ch : Channel)
      → IsInOrder ssrc message_id total [] message inputs last
      → ch.incoming_fragmented_packet.message_id < message_id
      → message_type_int_to_string t ≡ some name
      → length name ≡ 8
      → message_id < 65536
      → total % 4 ≡ 0
      → total < 65520
      → MessageArrives ch inputs last
  unfolding MessageArrives
  fragmented-MessageArrives inputs last ch order newer e h mi d lt =
      in_order-GivesPacket [] message inputs last ch order (first newer refl) e h mi d lt refl refl
