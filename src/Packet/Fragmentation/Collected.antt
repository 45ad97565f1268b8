-- ===== src/Packet/Fragmentation/Collected.antt =====
-- What has been collected of a message whose fragments arrive in order (the fragmented branch of
-- bzrtp_packetCheck, src/packetParser.c).
use bzrtp.Common.{
  ℕ, zero, suc, ◌+◌, ◌-◌, ◌*◌, ◌/◌, ◌%◌, ◌≤◌, ◌<◌, Bytes, length, length-append, length-replicate,
  take, take-append, drop, drop-append, drop-drop, replicate, write_at, List, [], ◌∷◌, ◌++◌,
  append_assoc, some, ok, ltb-false, leb-true, ==_false, ◌≡◌, refl, arith, ap, sym, subst, ◌∙◌,
}
use bzrtp.Channel.{FragmentInfo, FragmentReassembly}
use bzrtp.Packet.Reassembly.{
  FragmentHeader, insert_fragment, received_length, copy_fragment, add_fragment,
}

drop-replicate : (k n a : ℕ) → drop k (replicate n a) ≡ replicate (n - k) a
drop-replicate zero n a = let e : n - 0 ≡ n = omega arith in rw (e)
drop-replicate (suc k) zero a = let e : 0 - suc k ≡ 0 = omega arith in rw (e)
drop-replicate (suc k) (suc n) a =
    let e : suc n - suc k ≡ n - k = omega arith in rw (e) (drop-replicate k n a)

-- A chunk behind what is there overwrites as much of the junk.
write_at-replicate :
    (n k junk : ℕ) (front chunk : Bytes)
    → length front ≡ n
    → length chunk ≤ k
    → write_at n chunk (front ++ replicate k junk)
      ≡ ok (front ++ (chunk ++ replicate (k - length chunk) junk))
unfolding write_at
write_at-replicate n k junk front chunk e le = rw (
  leb-true (n + length chunk) (length (front ++ replicate k junk))
      (omega (arith, length-append front (replicate k junk), length-replicate k junk)),
  take-append n front (replicate k junk) e,
  sym (drop-drop (length chunk) n (front ++ replicate k junk)),
  drop-append n front (replicate k junk) e,
  drop-replicate (length chunk) k junk,
)

-- Every entry starts before the offset.
unfoldable pub AllBefore : ℕ → List FragmentInfo → Type 0
AllBefore n [] = Unit {0}
AllBefore n (f ∷ fs) = (f.offset < n) × AllBefore n fs

insert_fragment-AllBefore :
    (f : FragmentInfo) (fs : List FragmentInfo)
    → AllBefore f.offset fs
    → insert_fragment f fs ≡ some (fs ++ f ∷ [])
unfolding insert_fragment AllBefore
insert_fragment-AllBefore f [] h = refl
insert_fragment-AllBefore f (g ∷ gs) (lt, h) = rw (
  ltb-false f.offset g.offset (omega arith),
  ==_false f.offset g.offset (λ e. absurd (omega arith)),
  insert_fragment-AllBefore f gs h,
)

AllBefore-append :
    (n k : ℕ) (fs : List FragmentInfo) (f : FragmentInfo)
    → AllBefore n fs
    → n ≤ k
    → f.offset < k
    → AllBefore k (fs ++ f ∷ [])
unfolding AllBefore
AllBefore-append n k [] f h le lt = (lt, tt)
AllBefore-append n k (g ∷ gs) f (lt', h) le lt = (omega arith, AllBefore-append n k gs f h le lt)

received_length-append :
    (fs : List FragmentInfo) (f : FragmentInfo)
    → received_length (fs ++ f ∷ []) ≡ (received_length fs + f.length) % 65536
unfolding received_length
received_length-append [] f = omega arith
received_length-append (g ∷ gs) f = omega (arith, received_length-append gs f)

module _ (junk message_id total : ℕ) where
  -- The first bytes of the message are in the buffer, behind the packet header; no entry starts where
  -- they end or later, and the lengths of the entries add up to theirs.
  pub record Collected (front : Bytes) (r : FragmentReassembly) : Type 0 where
    pub same_message : r.message_id ≡ message_id
    pub buffer :
        r.packet_string
        ≡ some (replicate 12 junk ++ (front ++ replicate (total - length front + 4) junk))
    pub before : AllBefore (length front / 4) r.fragments
    pub received : received_length r.fragments ≡ length front / 4

  abbrev pub entry_of : FragmentHeader → FragmentInfo
  entry_of h = record { offset = h.offset; length = h.fragment_length }

  -- The reassembly after a fragment that continues it.
  unfoldable pub continued : FragmentHeader → Bytes → FragmentReassembly → FragmentReassembly
  continued h front r = record r {
    packet_string =
        some (replicate 12 junk ++ (front ++ replicate (total - length front + 4) junk));
    fragments = r.fragments ++ entry_of h ∷ [];
  }

  write_chunk :
      (front chunk : Bytes)
      → length front + length chunk ≤ total
      → write_at
          (12 + length front)
          chunk
          (replicate 12 junk ++ (front ++ replicate (total - length front + 4) junk))
        ≡ ok (
            replicate 12 junk
            ++ ((front ++ chunk) ++ replicate (total - length (front ++ chunk) + 4) junk))
  write_chunk front chunk le =
      let at : length (replicate 12 junk ++ front) ≡ 12 + length front =
        length-append (replicate 12 junk) front
        ∙ ap (λ k. k + length front) (length-replicate 12 junk) in
      let left : total - length front + 4 - length chunk ≡ total - length (front ++ chunk) + 4 =
        omega (arith, length-append front chunk) in
      let room : length chunk ≤ total - length front + 4 = omega arith in
      write_at-replicate (12 + length front) (total - length front + 4) junk
        (replicate 12 junk ++ front) chunk at room
      ∙ ap (λ x. ok (replicate 12 junk ++ x))
          (ap (λ k. front ++ (chunk ++ replicate k junk)) left
            ∙ sym (append_assoc front chunk (replicate (total - length (front ++ chunk) + 4) junk)))

  -- A fragment that carries the next chunk, in whole words, is added behind what is there.
  pub add_fragment-Collected :
      (h : FragmentHeader) (input front chunk : Bytes) (r : FragmentReassembly)
      → Collected front r
      → 4 * h.offset ≡ length front
      → 4 * h.fragment_length ≡ length chunk
      → 0 < length chunk
      → length front + length chunk ≤ total
      → total < 65536
      → take (length input - 24) (drop 20 input) ≡ chunk
      → (add_fragment h input r ≡ ok (continued h (front ++ chunk) r))
        × Collected (front ++ chunk) (continued h (front ++ chunk) r)
  unfolding add_fragment copy_fragment continued
  add_fragment-Collected h input front chunk r c eo el pos le lt carries =
      let at : h.offset ≡ length front / 4 = omega arith in
      let grown : length (front ++ chunk) ≡ length front + length chunk =
        length-append front chunk in
      let fits =
        insert_fragment-AllBefore (entry_of h) r.fragments
          (subst (λ k. AllBefore k r.fragments) (sym at) c.before) in
      (
        rw (add_fragment, fits, copy_fragment, c.buffer, carries, eo, write_chunk front chunk le),
        record {
          same_message = c.same_message;
          buffer = refl;
          before =
              AllBefore-append (length front / 4) (length (front ++ chunk) / 4) r.fragments
                (entry_of h) c.before (omega (arith, grown))
                (omega (arith, grown, at, el, eo, pos));
          received =
              received_length-append r.fragments (entry_of h)
              ∙ omega (arith, grown, c.received, el, eo, lt, le);
        },
      )
