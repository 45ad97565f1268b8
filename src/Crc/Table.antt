-- ===== src/Crc/Table.antt =====
-- The table of src/cryptoUtils.cc against the bitwise code in the comment of `bzrtp_CRC32`.
use Prim.Native.Nat.{bit_xor}
use bzrtp.Common.{
  ℕ, zero, suc, ◌*◌, ◌/◌, ◌%◌, ◌<◌, Bool, true, ◌&&◌, ◌==◌, get_or, List, [], ◌∷◌, length, ◌+◌, ◌∙◌,
  ap, ◌≡◌, refl, arith,
}
use bzrtp.Crc.{crc32_lookup_table}

-- `for (j = 0; j < 8; j++) crcT = (crcT >> 1) ^ ((crcT & 1) * 0x82F63B78);`
unfoldable pub crc32_bits : ℕ → ℕ → ℕ
crc32_bits zero crc = crc
crc32_bits (suc j) crc = crc32_bits j (bit_xor (crc / 2) (crc % 2 * 0x82F63B78))

-- The entries of a table from an index on, each against the bitwise code.
entries_agree : ℕ → List ℕ → Bool
entries_agree i [] = true
entries_agree i (entry ∷ table) = entry == crc32_bits 8 i && entries_agree (i + 1) table

entries_agree_lem :
    (i : ℕ) (table : List ℕ) (k : ℕ)
    → entries_agree i table ≡ true
    → k < length table
    → get_or table k 0 ≡ crc32_bits 8 (k + i)
unfolding entries_agree
entries_agree_lem i [] k h short = absurd (omega arith)
entries_agree_lem i (entry ∷ table) zero h short = ground arith
entries_agree_lem i (entry ∷ table) (suc k) h short =
    ground (arith, entries_agree_lem (i + 1) table k)

table_check : entries_agree 0 crc32_lookup_table ≡ true
unfolding entries_agree crc32_bits
table_check = refl

-- Every entry of the lookup table is what eight rounds of the bitwise code make of its index.
pub crc32_lookup_table-bits : (i : ℕ) → i < 256 → get_or crc32_lookup_table i 0 ≡ crc32_bits 8 i
crc32_lookup_table-bits i h =
    entries_agree_lem 0 crc32_lookup_table i table_check h ∙ ap (crc32_bits 8) (omega arith)
