-- ===== src/Packet/Seal.antt =====
-- Packet strings that bzrtp_packetSetSequenceNumber has finished, and the header checks of
-- bzrtp_packetCheck on them (src/packetParser.c).
use bzrtp.Common.{
  ℕ, suc, ◌+◌, ◌-◌, ◌/◌, ◌%◌, ◌^◌, ◌<◌, ◌≤◌, Bytes, be16, be32, bytes16, bytes32, length,
  length-append, take-append, drop-append, write_at, [], ◌∷◌, ◌++◌, append-nil, ok, ◌==◌, ==_refl,
  leb-true, ltb-false, drop_past, ◌≡◌, refl, sym, arith, ◌⊎◌, inl, inr,
}
use bzrtp.Packet.Header.{magic_cookie, number_and_checksum}
use bzrtp.Packet.Check.{check_packet_header, check_size, check_magic, check_sequence, check_crc}
use bzrtp.Crc.{crc32, crc32_lt}

-- A packet string with its checksum behind it.
unfoldable pub sealed : Bytes → Bytes
sealed x = x ++ bytes32 (crc32 x)

write_at-end :
    (n : ℕ) (xs ys zs : Bytes)
    → length xs ≡ n
    → length ys ≡ length zs
    → write_at n ys (xs ++ zs) ≡ ok (xs ++ ys)
unfolding write_at
write_at-end n xs ys zs h e = rw (
  leb-true (n + length ys) (length (xs ++ zs)) (omega (arith, length-append xs zs)),
  take-append n xs zs h,
  drop_past (n + length ys) (xs ++ zs) (omega (arith, length-append xs zs)),
  append-nil,
)

write_at_two :
    (a b j k c d : ℕ) (xs : Bytes)
    → write_at 2 (c ∷ d ∷ []) (a ∷ b ∷ j ∷ k ∷ xs) ≡ ok (a ∷ b ∷ c ∷ d ∷ xs)
unfolding write_at
write_at_two a b j k c d xs = rw (leb-true 4 (suc (suc (suc (suc (length xs))))) (omega arith))

pub number_and_checksum-sealed :
    (seq n a b j k : ℕ) (xs z : Bytes)
    → 4 + length xs ≡ n
    → n < 65536
    → length z ≡ 4
    → number_and_checksum seq n (a ∷ b ∷ j ∷ k ∷ (xs ++ z))
      ≡ ok (sealed (a ∷ b ∷ (bytes16 seq ++ xs)))
unfolding number_and_checksum sealed
number_and_checksum-sealed seq n a b j k xs z hn lt hz =
    let x = a ∷ b ∷ (bytes16 seq ++ xs) in
    let h : length x ≡ n = omega (arith, hn) in
    let small : n % 65536 ≡ n = omega arith in
    rw (
      write_at_two a b j k (seq / 256 % 256) (seq % 256) (xs ++ z),
      small,
      take-append n x z h,
      write_at-end n x (bytes32 (crc32 x)) z h (sym hz),
    )

-- The twelve bytes of a packet header.
abbrev pub header_string : ℕ → ℕ → ℕ → Bytes
header_string kind seq ssrc = kind ∷ 0 ∷ (bytes16 seq ++ (bytes32 magic_cookie ++ bytes32 ssrc))

pub be32-bytes32 :
    (n : ℕ) → n < 2 ^ 32 → be32 (n / 16777216 % 256) (n / 65536 % 256) (n / 256 % 256) (n % 256) ≡ n
be32-bytes32 n h = omega arith

check_crc-sealed : (x : Bytes) → check_crc (sealed x) ≡ ok tt
unfolding check_crc sealed
check_crc-sealed x =
    let n : length (x ++ bytes32 (crc32 x)) - 4 ≡ length x =
      omega (arith, length-append x (bytes32 (crc32 x))) in
    rw (
      n,
      take-append (length x) x (bytes32 (crc32 x)) refl,
      drop-append (length x) x (bytes32 (crc32 x)) refl,
      be32-bytes32 (crc32 x) (crc32_lt x),
      ==_refl (crc32 x),
    )

check_magic-header :
    (kind seq ssrc : ℕ) (rest : Bytes)
    → (kind ≡ 0x11) ⊎ (kind ≡ 0x10)
    → check_magic (header_string kind seq ssrc ++ rest) ≡ ok tt
unfolding check_magic
check_magic-header kind seq ssrc rest k = ground (arith)

check_size-ok : (n : ℕ) → 28 ≤ n → n ≤ 3072 → check_size n ≡ ok tt
unfolding check_size
check_size-ok n lo hi = rw (ltb-false n 28 lo, ltb-false 3072 n hi)

check_sequence-ok :
    (peer kind seq : ℕ)
    → (kind ≡ 0x11) ⊎ ((kind ≡ 0x10) × (peer < seq))
    → check_sequence peer (kind == 0x11) seq ≡ ok tt
unfolding check_sequence
check_sequence-ok peer kind seq k = ground arith

either_kind :
    (peer kind seq : ℕ)
    → (kind ≡ 0x11) ⊎ ((kind ≡ 0x10) × (peer < seq))
    → (kind ≡ 0x11) ⊎ (kind ≡ 0x10)
either_kind peer kind seq (inl e) = inl e
either_kind peer kind seq (inr (e, lt)) = inr e

-- A sealed packet string of the right size passes the header checks, unless its sequence number is
-- old; that of a fragment is not looked at.
pub check_packet_header-sealed :
    (peer kind seq ssrc : ℕ) (rest : Bytes)
    → (kind ≡ 0x11) ⊎ ((kind ≡ 0x10) × (peer < seq))
    → seq < 65536
    → 12 ≤ length rest
    → length rest ≤ 3056
    → check_packet_header peer (sealed (header_string kind seq ssrc ++ rest))
      ≡ ok (kind == 0x11, seq)
unfolding check_packet_header sealed
check_packet_header-sealed peer kind seq ssrc rest k s lo hi =
    let x = header_string kind seq ssrc ++ rest in
    let e : length (sealed x) ≡ length x + 4 = length-append x (bytes32 (crc32 x)) in
    let word : be16 (seq / 256 % 256) (seq % 256) ≡ seq = omega arith in
    rw (
      check_size-ok (length (sealed x)) (omega (arith, e)) (omega (arith, e)),
      check_crc-sealed x,
      check_magic-header kind seq ssrc (rest ++ bytes32 (crc32 x)) (either_kind peer kind seq k),
      word,
      check_sequence-ok peer kind seq k,
    )
