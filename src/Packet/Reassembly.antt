-- ===== src/Packet/Reassembly.antt =====
-- The reassembly of fragments (the fragmented branch of bzrtp_packetCheck, src/packetParser.c). The
-- message id, the offsets and the lengths are those of the fragment's header; offsets and lengths are
-- in 32 bit words.
use bzrtp.Common.{
  ℕ, ◌+◌, ◌-◌, ◌*◌, ◌%◌, Bytes, be16, get_or, take, drop, length, replicate, write_at, List, [],
  ◌∷◌, Option, none, some, Result, ok, err, fault, ◌>>=◌, Error, if◌then◌else◌, ◌==◌, ltb,
}
use bzrtp.Channel.{FragmentInfo, FragmentReassembly}

-- The fragment header behind the twelve bytes of the packet header.
pub record FragmentHeader : Type 0 where
  pub message_id : ℕ
  pub message_total_length : ℕ
  pub offset : ℕ
  pub fragment_length : ℕ

unfoldable pub parse_fragment_header : Bytes → FragmentHeader
parse_fragment_header input = record {
  message_id = be16 (get_or input 12 0) (get_or input 13 0);
  message_total_length = be16 (get_or input 14 0) (get_or input 15 0);
  offset = be16 (get_or input 16 0) (get_or input 17 0);
  fragment_length = be16 (get_or input 18 0) (get_or input 19 0);
}

-- The walk over the list: the new entry goes before the first entry of larger offset. `none` where the
-- list has an entry of the same offset, then nothing is inserted.
unfoldable pub insert_fragment : FragmentInfo → List FragmentInfo → Option (List FragmentInfo)
insert_fragment f [] = some (f ∷ [])
insert_fragment f (g ∷ gs) =
    let rest = insert_fragment f gs in
    if ltb f.offset g.offset
    then some (f ∷ g ∷ gs)
    else if f.offset == g.offset
    then none
    else elim rest [ none ↦ none | some gs' ↦ some (g ∷ gs') ]

-- `receivedLength`, a uint16_t.
unfoldable pub received_length : List FragmentInfo → ℕ
received_length [] = 0
received_length (f ∷ fs) = (f.length + received_length fs) % 65536

-- A fragment of a newer message: what was collected is dropped.
unfoldable pub start_message : ℕ → FragmentHeader → FragmentReassembly → FragmentReassembly
start_message junk h r =
    if ltb r.message_id h.message_id
    then record {
      message_id = h.message_id;
      message_length = h.message_total_length;
      packet_string = some (replicate (16 + h.message_total_length * 4) junk);
      fragments = [];
    }
    else r

-- `memcpy(packetString + 12 + 4 * offset, input + 20, inputLength - 24)`.
unfoldable pub copy_fragment :
    FragmentHeader → Bytes → FragmentReassembly → Result FragmentReassembly
copy_fragment h input r = elim r.packet_string [
  | none ↦ fault
  | some buffer ↦ do
    buffer ← write_at (12 + 4 * h.offset) (take (length input - 24) (drop 20 input)) buffer
    ok (record r { packet_string = some buffer })
]

unfoldable pub add_fragment :
    FragmentHeader → Bytes → FragmentReassembly → Result FragmentReassembly
unfolding insert_fragment copy_fragment
add_fragment h input r =
    elim (insert_fragment (record { offset = h.offset; length = h.fragment_length }) r.fragments) [
      | none ↦ ok r
      | some fs ↦ copy_fragment h input (record r { fragments = fs })
    ]

-- The buffer of a message whose fragments are all there, and its length as a uint16_t.
pub data Reassembled : Type 0 where
  incomplete : Reassembled
  complete : Option Bytes → ℕ → Reassembled

unfoldable pub finish : FragmentHeader → FragmentReassembly → FragmentReassembly × Reassembled
unfolding received_length
finish h r =
    if received_length r.fragments == h.message_total_length
    then (
      record r { message_id = 0; fragments = [] },
      complete r.packet_string ((16 + h.message_total_length * 4) % 65536),
    )
    else (r, incomplete)

unfoldable pub reassemble :
    ℕ → Bytes → FragmentReassembly → Result (FragmentReassembly × Reassembled)
unfolding parse_fragment_header start_message add_fragment finish
reassemble junk input r =
    let h = parse_fragment_header input in
    if ltb h.message_id r.message_id
    then err Error.parser_error_out_of_order
    else do r ← add_fragment h input (start_message junk h r); ok (finish h r)
