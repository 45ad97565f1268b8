-- ===== src/Packet/Builder/Confirm.antt =====
-- The MSGTYPE_CONFIRM1 and MSGTYPE_CONFIRM2 cases of bzrtp_packetBuild (src/packetParser.c).
use bzrtp.Common.{
  ◌+◌, ◌-◌, ◌*◌, ◌/◌, ◌%◌, Bytes, bytes32, read, [], ◌∷◌, ◌++◌, Option, none, some, Result, ok, err,
  fault, ◌>>=◌, Error, if◌then◌else◌, ltb,
}
use bzrtp.Packet.Types.{ConfirmMessage}
use bzrtp.Packet.Parser.Confirm.{key_of, call_hmac}
use bzrtp.Packet.Builder.Bodies.{Body}
use bzrtp.Channel.{Crypto, CipherFunction, Role, initiator, responder, Channel}

-- The keys of the own role.
abbrev pub self_zrtpkey : Role → Channel → Option Bytes
self_zrtpkey initiator ch = ch.zrtpkeyi
self_zrtpkey responder ch = ch.zrtpkeyr

abbrev pub self_mackey : Role → Channel → Option Bytes
self_mackey initiator ch = ch.mackeyi
self_mackey responder ch = ch.mackeyr

unfoldable pub call_encrypt : Crypto → Option CipherFunction → Bytes → Bytes → Bytes → Result Bytes
call_encrypt c none key iv input = fault
call_encrypt c (some f) key iv input = ok (c.encrypt f key iv input)

unfoldable pub block_string : ConfirmMessage → Result Bytes
block_string m = do
  (block, rest) ← read (4 * (m.sig_len - 1)) m.signature_block
  ok (m.signature_block_type ++ block)

unfoldable pub signature_string : ConfirmMessage → Result Bytes
unfolding block_string
signature_string m = if ltb 0 m.sig_len then block_string m else ok []

-- The plain text, from H0 to the signature.
abbrev pub confirm_tail : ConfirmMessage → Bytes → Bytes
confirm_tail m signature =
    0x00
    ∷ (m.sig_len / 256 % 2)
    ∷ (m.sig_len % 256)
    ∷ (m.e % 2 * 8 + m.v % 2 * 4 + m.a % 2 * 2 + m.d % 2)
    ∷ (bytes32 m.cache_expiration_interval ++ signature)

unfoldable pub confirm_plain : ConfirmMessage → Bytes → Bytes
confirm_plain m signature = m.h0 ++ confirm_tail m signature

-- A message that 16 bits cannot count is written past its buffer.
unfoldable pub confirm_body : Crypto → Channel → ConfirmMessage → Result Body
unfolding key_of call_hmac call_encrypt signature_string confirm_plain
confirm_body c ch m = do
  key ← key_of (self_zrtpkey ch.role ch) Error.builder_error_invalid_context
  mackey ← key_of (self_mackey ch.role ch) Error.builder_error_invalid_context
  signature ← if ltb (76 + m.sig_len * 4) 65536 then signature_string m else fault
  cipher_text ← call_encrypt c ch.cipher_function key m.cfb_iv (confirm_plain m signature)
  confirm_mac ← call_hmac c ch mackey cipher_text
  ok (record {
    message_length = 76 + m.sig_len * 4;
    content = confirm_mac ++ (m.cfb_iv ++ cipher_text);
    mac_key = none;
  })

-- The keys are looked at before the message.
unfoldable pub confirm_without_data : Channel → Result Body
unfolding key_of
confirm_without_data ch = do
  key ← key_of (self_zrtpkey ch.role ch) Error.builder_error_invalid_context
  mackey ← key_of (self_mackey ch.role ch) Error.builder_error_invalid_context
  err Error.builder_error_invalid_message
