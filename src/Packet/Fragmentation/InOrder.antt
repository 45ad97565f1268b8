-- ===== src/Packet/Fragmentation/InOrder.antt =====
-- A fragmented message that arrives in order is put together (bzrtp_packetCheck, src/packetParser.c).
use bzrtp.Common.{
  ℕ, suc, ◌+◌, ◌-◌, ◌*◌, ◌/◌, ◌%◌, ◌≤◌, ◌<◌, Bytes, length, replicate, [], ◌++◌, some, ok, ltb,
  ltb-false, ltb-true, ==_false, ==_true, true, false, ◌≡◌, refl, arith, ap, subst,
}
use bzrtp.Channel.{Channel, FragmentReassembly}
use bzrtp.Packet.Check.{packet_check, check_packet_header, check_reassembled}
use bzrtp.Packet.Reassembly.{
  FragmentHeader, parse_fragment_header, start_message, add_fragment, finish, reassemble,
  Reassembled, incomplete, complete, received_length,
}
use bzrtp.Packet.Fragmentation.Collected.{AllBefore, Collected, continued, add_fragment-Collected}
use bzrtp.Packet.Fragmentation.Arrival.{
  fragment_string, header_of, parse_fragment_header-fragment_string, carried_chunk,
}

pub packet_check-fragment :
    (junk seq : ℕ) (input : Bytes) (ch : Channel) (r : FragmentReassembly) (o : Reassembled)
    → check_packet_header ch.peer_sequence_number input ≡ ok (true, seq)
    → reassemble junk input ch.incoming_fragmented_packet ≡ ok (r, o)
    → packet_check junk input ch
      ≡ (record ch { incoming_fragmented_packet = r }, check_reassembled seq o)
unfolding packet_check
packet_check-fragment junk seq input ch r o h k = rw (packet_check, h, k)

reassemble_parsed :
    (junk : ℕ) (input : Bytes) (r s : FragmentReassembly)
    → let h = parse_fragment_header input in
      ltb h.message_id r.message_id ≡ false
      → add_fragment h input (start_message junk h r) ≡ ok s
      → reassemble junk input r ≡ ok (finish h s)
unfolding reassemble
reassemble_parsed junk input r s newer added = rw (reassemble, newer, added)

-- A fragment that is not older than the message is added to it.
reassemble-add_fragment :
    (junk : ℕ) (input : Bytes) (r s : FragmentReassembly) (h : FragmentHeader)
    → parse_fragment_header input ≡ h
    → ltb h.message_id r.message_id ≡ false
    → add_fragment h input (start_message junk h r) ≡ ok s
    → reassemble junk input r ≡ ok (finish h s)
reassemble-add_fragment junk input r s h e =
    subst
      (λ (h : FragmentHeader).
        ltb h.message_id r.message_id ≡ false
        → add_fragment h input (start_message junk h r) ≡ ok s
        → reassemble junk input r ≡ ok (finish h s))
      e (reassemble_parsed junk input r s)

module _ (junk ssrc message_id total : ℕ) where
  -- The state to which a fragment of this message is added: that of the message, or a fresh one.
  pub data Continues (front : Bytes) (r : FragmentReassembly) : Type 0 where
    ongoing : Collected junk message_id total front r → Continues front r
    first : r.message_id < message_id → front ≡ [] → Continues front r

  fresh : FragmentReassembly
  fresh = record {
    message_id = message_id;
    message_length = total / 4;
    packet_string = some (replicate (16 + total / 4 * 4) junk);
    fragments = [];
  }

  fresh-Collected : total % 4 ≡ 0 → Collected junk message_id total [] fresh
  unfolding fresh AllBefore received_length
  fresh-Collected d =
      let left = total - 0 + 4 in
      let size : 16 + total / 4 * 4
          ≡ suc (suc (suc (suc (suc (suc (suc (suc (suc (suc (suc (suc left))))))))))) =
        omega (arith, d) in
      record {
        same_message = refl;
        buffer = ap (λ k. some (replicate k junk)) size;
        before = tt;
        received = refl;
      }

  start_message-Continues :
      (offset size : ℕ) (front : Bytes) (r : FragmentReassembly)
      → total % 4 ≡ 0
      → Continues front r
      → (ltb message_id r.message_id ≡ false)
        × Collected junk message_id total front
            (start_message junk (header_of ssrc message_id total offset size) r)
  unfolding start_message fresh
  start_message-Continues offset size front r d (ongoing c) = (
    ltb-false message_id r.message_id (omega (arith, c.same_message)),
    rw (ltb-false r.message_id message_id (omega (arith, c.same_message))) c,
  )
  start_message-Continues offset size front r d (first lt e) = (
    ltb-false message_id r.message_id (omega arith),
    rw (ltb-true r.message_id message_id lt, e) (fresh-Collected d),
  )

  -- The state after the chunk that follows the front.
  unfoldable pub after : ℕ → Bytes → Bytes → FragmentReassembly → FragmentReassembly
  after seq front chunk r =
      continued junk message_id total
        (header_of ssrc message_id total (length front) (length chunk)) (front ++ chunk)
        (start_message junk (header_of ssrc message_id total (length front) (length chunk)) r)

  pub reassemble-fragment_string :
      (seq : ℕ) (front chunk : Bytes) (r : FragmentReassembly)
      → Continues front r
      → message_id < 65536
      → total < 65536
      → total % 4 ≡ 0
      → length front % 4 ≡ 0
      → length chunk % 4 ≡ 0
      → 0 < length chunk
      → length front + length chunk ≤ total
      → let h = header_of ssrc message_id total (length front) (length chunk) in
        (reassemble junk (fragment_string ssrc message_id total seq (length front) chunk) r
          ≡ ok (finish h (after seq front chunk r)))
        × Collected junk message_id total (front ++ chunk) (after seq front chunk r)
  unfolding after
  reassemble-fragment_string seq front chunk r k mi ts d df dc pos le =
      let input = fragment_string ssrc message_id total seq (length front) chunk in
      let h = header_of ssrc message_id total (length front) (length chunk) in
      let (newer, c) = start_message-Continues (length front) (length chunk) front r d k in
      let (added, grown) =
        add_fragment-Collected junk message_id total h input front chunk (start_message junk h r) c
          (omega arith) (omega arith) pos le ts
          (carried_chunk ssrc message_id total seq (length front) chunk) in
      let parsed =
        parse_fragment_header-fragment_string ssrc message_id total seq (length front) chunk mi ts
          (omega arith) (omega arith) in
      (reassemble-add_fragment junk input r (after seq front chunk r) h parsed newer added, grown)

  pub finish-incomplete :
      (offset size : ℕ) (front : Bytes) (r : FragmentReassembly)
      → Collected junk message_id total front r
      → total % 4 ≡ 0
      → length front % 4 ≡ 0
      → length front < total
      → finish (header_of ssrc message_id total offset size) r ≡ (r, incomplete)
  unfolding finish
  finish-incomplete offset size front r c d df lt =
      rw (
        ==_false (received_length r.fragments) (total / 4)
          (λ e. absurd (omega (arith, c.received))))

  -- What the reassembly is left with: no message, no entries.
  abbrev pub finished : FragmentReassembly → FragmentReassembly
  finished r = record r { message_id = 0; fragments = [] }

  pub finish-complete :
      (offset size : ℕ) (front : Bytes) (r : FragmentReassembly)
      → Collected junk message_id total front r
      → total % 4 ≡ 0
      → total < 65520
      → length front ≡ total
      → finish (header_of ssrc message_id total offset size) r ≡ (
        finished r,
        complete (some (replicate 12 junk ++ (front ++ replicate 4 junk))) (16 + total),
      )
  unfolding finish
  finish-complete offset size front r c d lt e =
      let left : total - length front + 4 ≡ 4 = omega (arith, e) in
      let size : (16 + total / 4 * 4) % 65536 ≡ 16 + total = omega (arith, d, lt) in
      rw (
        ==_true (received_length r.fragments) (total / 4) (omega (arith, c.received, e)),
        size,
        c.buffer,
        left,
      )
