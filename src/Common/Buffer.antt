-- ===== src/Common/Buffer.antt =====
-- Buffers as lists of bytes: words in network byte order, reads that stay inside a buffer, and
-- writes at an offset.
use Prim.Native.Nat.{ℕ, ◌+◌, ◌*◌, ◌/◌, ◌%◌, ◌≤◌}
use mathlib.Core.Path.{◌≡◌, sym, ap, ◌∙◌}
use mathlib.Core.List.{List, [], ◌∷◌, ◌++◌}
use native.Mathlib.Omega.{arith}
use Prim.Native.Char.{code}
use Prim.Native.String.{String}
use bzrtp.Common.Tests.{leb, leb_le, if◌then◌else◌}
use bzrtp.Common.Lists.{length, take, drop, length-append, length-take, take-append, drop-append}
use bzrtp.Common.Fallible.{Result, ok, fault, if-eq-ok}

abbrev pub Bytes : Type 0
Bytes = List ℕ

-- `(uint16_t)b0 << 8 | b1` and the same for four bytes: the fields are disjoint, so `|` is `+`.
abbrev pub be16 : ℕ → ℕ → ℕ
be16 b0 b1 = b0 * 256 + b1

abbrev pub be32 : ℕ → ℕ → ℕ → ℕ → ℕ
be32 b0 b1 b2 b3 = b0 * 16777216 + b1 * 65536 + b2 * 256 + b3

-- `(uint8_t)((n >> 8) & 0xFF)`, `(uint8_t)(n & 0xFF)`, and the four bytes of a 32 bit word.
abbrev pub bytes16 : ℕ → Bytes
bytes16 n = (n / 256 % 256) ∷ (n % 256) ∷ []

abbrev pub bytes32 : ℕ → Bytes
bytes32 n = (n / 16777216 % 256) ∷ (n / 65536 % 256) ∷ (n / 256 % 256) ∷ (n % 256) ∷ []

-- `memcpy(field, cursor, n); cursor += n;` on the bytes that are left of the buffer.
unfoldable pub read : ℕ → Bytes → Result (Bytes × Bytes)
read n c = if leb n (length c) then ok (take n c, drop n c) else fault

pub read-append : (n : ℕ) (xs rest : Bytes) → length xs ≡ n → read n (xs ++ rest) ≡ ok (xs, rest)
unfolding read
read-append n xs rest h =
    ground (arith, length-append xs rest, take-append n xs rest h, drop-append n xs rest h)

-- A read that succeeds splits the buffer.
pub read-eq-ok :
    (n : ℕ) (c : Bytes) {r : Bytes × Bytes}
    → read n c ≡ ok r
    → (n ≤ length c) × (take n c ≡ r.0) × (drop n c ≡ r.1)
unfolding read
read-eq-ok n c h =
    let (inside, same) = if-eq-ok (leb n (length c)) h in
    (leb_le n (length c) inside, ap (λ r. r.0) same, ap (λ r. r.1) same)

pub read-length : (n : ℕ) (c : Bytes) {r : Bytes × Bytes} → read n c ≡ ok r → length r.0 ≡ n
read-length n c h =
    let (inside, front, _) = read-eq-ok n c h in
    ap length (sym front) ∙ (length-take n c ∙ omega arith)

-- `*cursor; cursor += 1;`
unfoldable pub read_byte : Bytes → Result (ℕ × Bytes)
read_byte [] = fault
read_byte (b ∷ c) = ok (b, c)

-- `memcpy(buf + offset, src, length src)`: what lies outside the buffer is a fault.
unfoldable pub write_at : ℕ → Bytes → Bytes → Result Bytes
write_at offset src buf =
    if leb (offset + length src) (length buf)
    then ok (take offset buf ++ (src ++ drop (offset + length src) buf))
    else fault

-- The bytes of an ASCII text.
abbrev pub codes : String → Bytes
codes String.[] = []
codes (String.◌∷◌ c s) = code c ∷ codes s
