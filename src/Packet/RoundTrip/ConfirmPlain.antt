-- ===== src/Packet/RoundTrip/ConfirmPlain.antt =====
-- The plain text of a Confirm, as it is built and as it is parsed back (src/packetParser.c).
use bzrtp.Common.{
  ℕ, ◌+◌, ◌-◌, ◌*◌, ◌/◌, ◌%◌, ◌^◌, ◌<◌, Bytes, bytes32, length, length-append, read, read-append,
  read_byte, replicate, [], ◌++◌, ok, ltb-true, ◌≡◌, refl, arith, sym,
}
use bzrtp.Packet.Types.{ConfirmMessage}
use bzrtp.Packet.Seal.{be32-bytes32}
use bzrtp.Packet.Parser.Confirm.{parse_confirm_plain, read_signature, read_block}
use bzrtp.Packet.Builder.Confirm.{confirm_plain, signature_string, block_string}
use bzrtp.Packet.RoundTrip.Frame.{read_all}

-- A signature block is absent, or has the words that are counted.
pub data SignatureIsValid (m : ConfirmMessage) : Type 0 where
  unsigned :
      m.sig_len ≡ 0
      → m.signature_block_type ≡ replicate 4 0
      → m.signature_block ≡ []
      → SignatureIsValid m
  signed :
      0 < m.sig_len
      → length m.signature_block_type ≡ 4
      → length m.signature_block ≡ 4 * (m.sig_len - 1)
      → SignatureIsValid m

-- A Confirm whose arrays have their C lengths and whose numbers fit in their fields.
pub record ConfirmIsValid (m : ConfirmMessage) : Type 0 where
  pub h0_length : length m.h0 ≡ 32
  pub iv_length : length m.cfb_iv ≡ 16
  pub sig_len_bits : m.sig_len < 512
  pub e_bit : m.e < 2
  pub v_bit : m.v < 2
  pub a_bit : m.a < 2
  pub d_bit : m.d < 2
  pub expiration_bits : m.cache_expiration_interval < 2 ^ 32
  pub signature : SignatureIsValid m

confirm_bits :
    (e v a d : ℕ)
    → e < 2
    → v < 2
    → a < 2
    → d < 2
    → let flags = e % 2 * 8 + v % 2 * 4 + a % 2 * 2 + d % 2 in
      (flags / 8 % 2 ≡ e) × (flags / 4 % 2 ≡ v) × (flags / 2 % 2 ≡ a) × (flags % 2 ≡ d)
confirm_bits e v a d he hv ha hd = (omega arith, omega arith, omega arith, omega arith)

-- The signature is written as some bytes of its length, and read back.
unfoldable pub WritesSignature : ConfirmMessage → Type 0
WritesSignature m =
    (signature : Bytes) × (signature_string m ≡ ok signature)
    × (length signature ≡ 4 * m.sig_len)
    × (read_signature m.sig_len signature ≡ ok (m.signature_block_type, m.signature_block))

pub SignatureIsValid-WritesSignature : (m : ConfirmMessage) → SignatureIsValid m → WritesSignature m
unfolding WritesSignature signature_string block_string read_signature read_block
SignatureIsValid-WritesSignature m (unsigned z t b) = ([], rw (z), rw (z), rw (z, t, b))
SignatureIsValid-WritesSignature m (signed pos t b) = (
  m.signature_block_type ++ m.signature_block,
  rw (ltb-true 0 m.sig_len pos, sym b, read_all m.signature_block),
  omega (arith, t, b, length-append m.signature_block_type m.signature_block),
  rw (
    ltb-true 0 m.sig_len pos,
    read-append 4 m.signature_block_type m.signature_block t,
    sym b,
    read_all m.signature_block,
  ),
)

pub parse_confirm_plain-confirm_plain :
    (m : ConfirmMessage) (mac signature : Bytes)
    → ConfirmIsValid m
    → read_signature m.sig_len signature ≡ ok (m.signature_block_type, m.signature_block)
    → (rest : Bytes) × (read 32 (confirm_plain m signature) ≡ ok (m.h0, rest))
      × (parse_confirm_plain mac m.cfb_iv m.h0 rest ≡ ok (record m { confirm_mac = mac }))
unfolding parse_confirm_plain confirm_plain read_byte
parse_confirm_plain-confirm_plain m mac signature v reads =
    let (e, vv, a, d) = confirm_bits m.e m.v m.a m.d v.e_bit v.v_bit v.a_bit v.d_bit in
    let words : m.sig_len / 256 % 2 % 2 * 256 + m.sig_len % 256 ≡ m.sig_len =
      omega (arith, v.sig_len_bits) in
    (
      _,
      read-append 32 m.h0 _ v.h0_length,
      rw (
        words,
        read-append 4 (bytes32 m.cache_expiration_interval) signature refl,
        reads,
        e,
        vv,
        a,
        d,
        be32-bytes32 m.cache_expiration_interval v.expiration_bits,
      ),
    )
