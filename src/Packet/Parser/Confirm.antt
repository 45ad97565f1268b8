-- ===== src/Packet/Parser/Confirm.antt =====
-- The MSGTYPE_CONFIRM1 and MSGTYPE_CONFIRM2 cases of bzrtp_packetParser (src/packetParser.c).
use bzrtp.Common.{
  ℕ, ◌+◌, ◌-◌, ◌*◌, ◌/◌, ◌%◌, Bytes, be32, get_or, drop, read, read_byte, replicate, [], Option,
  none, some, Result, ok, err, fault, ◌>>=◌, ◌>>◌, guard, Error, if◌then◌else◌, ◌==◌, ltb, ◌||◌,
  bytes_eq, Bool, true, false,
}
use bzrtp.Packet.Types.{Packet, ConfirmMessage, confirm_data}
use bzrtp.Packet.Parser.Reading.{check_hello, check_commit, check_dhpart}
use bzrtp.Channel.{Crypto, CipherFunction, sha256, Role, initiator, responder, Channel}
use bzrtp.Algo.{keyagreement_prsh, keyagreement_mult}

-- The keys of the peer: zrtpkey and mackey of the initiator for the responder, and the other way round.
abbrev pub peer_zrtpkey : Role → Channel → Option Bytes
peer_zrtpkey responder ch = ch.zrtpkeyi
peer_zrtpkey initiator ch = ch.zrtpkeyr

abbrev pub peer_mackey : Role → Channel → Option Bytes
peer_mackey responder ch = ch.mackeyi
peer_mackey initiator ch = ch.mackeyr

unfoldable pub key_of : Option Bytes → Error → Result Bytes
key_of none e = err e
key_of (some k) e = ok k

-- The first `hashLength` bytes of the key are those that the HMAC takes.
unfoldable pub call_hmac : Crypto → Channel → Bytes → Bytes → Result Bytes
call_hmac c ch key input = elim ch.hmac_function [
  | none ↦ fault
  | some f ↦ do (key, rest) ← read ch.hash_length key; ok (c.hmac f key input 8)
]

unfoldable pub call_decrypt : Crypto → Option CipherFunction → Bytes → Bytes → Bytes → Result Bytes
call_decrypt c none key iv input = fault
call_decrypt c (some f) key iv input = ok (c.decrypt f key iv input)

-- Prsh and Mult: there was no DHPart.
abbrev pub without_dhpart : Channel → Bool
without_dhpart ch =
    ch.key_agreement_algo == keyagreement_prsh || ch.key_agreement_algo == keyagreement_mult

-- The hash chain from H0: up to the peer's Commit or Hello where no DHPart was sent, else the DHPart.
unfoldable pub check_h0 : Crypto → Channel → Bool → Role → Bytes → Result (Unit {0})
unfolding check_hello check_commit check_dhpart
check_h0 c ch true responder h0 = check_commit c ch.peer_packets.commit (c.hash sha256 h0 32)
check_h0 c ch true initiator h0 =
    check_hello c ch.peer_packets.hello (c.hash sha256 (c.hash sha256 h0 32) 32)
check_h0 c ch false role h0 = check_dhpart c ch.peer_packets.dhpart h0

-- The signature block, in words that include its type.
unfoldable pub read_block : ℕ → Bytes → Result (Bytes × Bytes)
read_block sig_len plain = do
  (block_type, plain) ← read 4 plain
  (block, plain) ← read (4 * (sig_len - 1)) plain
  ok (block_type, block)

unfoldable pub read_signature : ℕ → Bytes → Result (Bytes × Bytes)
unfolding read_block
read_signature sig_len plain =
    if ltb 0 sig_len then read_block sig_len plain else ok (replicate 4 0, [])

-- The plain text behind H0.
unfoldable pub parse_confirm_plain : Bytes → Bytes → Bytes → Bytes → Result ConfirmMessage
unfolding read_signature
parse_confirm_plain confirm_mac cfb_iv h0 plain = do
  (unused, plain) ← read_byte plain
  (high, plain) ← read_byte plain
  (low, plain) ← read_byte plain
  (flags, plain) ← read_byte plain
  (expiration, plain) ← read 4 plain
  (block_type, block) ← read_signature (high % 2 * 256 + low) plain
  ok (record {
    confirm_mac = confirm_mac;
    cfb_iv = cfb_iv;
    h0 = h0;
    sig_len = high % 2 * 256 + low;
    e = flags / 8 % 2;
    v = flags / 4 % 2;
    a = flags / 2 % 2;
    d = flags % 2;
    cache_expiration_interval =
        be32 (get_or expiration 0 0) (get_or expiration 1 0) (get_or expiration 2 0)
          (get_or expiration 3 0);
    signature_block_type = block_type;
    signature_block = block;
  })

-- `cipherTextLength`, a uint16_t.
abbrev pub cipher_text_length : ℕ → ℕ
cipher_text_length message_length = (message_length + 65536 - 36) % 65536

unfoldable pub parse_confirm : Crypto → Channel → Bytes → ℕ → Packet → Result Packet
unfolding key_of call_hmac call_decrypt check_h0 parse_confirm_plain
parse_confirm c ch input input_length p = do
  key ← key_of (peer_zrtpkey ch.role ch) Error.parser_error_invalid_context
  mackey ← key_of (peer_mackey ch.role ch) Error.parser_error_invalid_context
  (confirm_mac, content) ← read 8 (drop 24 input)
  (cfb_iv, content) ← read 16 content
  (cipher_text, content) ← read (cipher_text_length p.message_length) content
  computed ← call_hmac c ch mackey cipher_text
  guard (bytes_eq computed confirm_mac) Error.parser_error_unmatching_confirm_mac
  plain ← call_decrypt c ch.cipher_function key cfb_iv cipher_text
  (h0, plain) ← read 32 plain
  check_h0 c ch (without_dhpart ch) ch.role h0
  message ← parse_confirm_plain confirm_mac cfb_iv h0 plain
  (stored, rest) ← read input_length input
  ok (record p { message_data = some (confirm_data message); packet_string = some stored })
