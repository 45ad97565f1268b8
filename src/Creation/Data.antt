-- ===== src/Creation/Data.antt =====
-- What bzrtp_createZrtpPacket (src/packetParser.c) writes without a choice: the Hello, the common part
-- of a packet, and buffers.
use bzrtp.Common.{
  ℕ, Bytes, codes, read, write_at, replicate, [], ◌++◌, Option, none, some, Result, ok, fault,
  ◌>>=◌,
}
use bzrtp.Channel.{Crypto, Channel, Role, initiator, responder}
use bzrtp.Context.{Context}
use bzrtp.Packet.Types.{MessageType, Packet, MessageData, HelloMessage, go_clear_data, commit_data}

-- Fields that memset clears.
abbrev pub zero_bytes : ℕ → Bytes
zero_bytes n = replicate n 0

-- `strncpy` pads the identifier with zeros.
unfoldable pub hello_of : Context → Channel → HelloMessage
hello_of ctx ch = record {
  version = codes "1.10";
  client_identifier = codes "BZRTPv1.1" ++ zero_bytes 7;
  h3 = ch.self_h3;
  zid = ctx.self_zid;
  s = 0;
  m = 0;
  p = 0;
  supported_hash = ctx.supported_hash;
  supported_cipher = ctx.supported_cipher;
  supported_auth_tag = ctx.supported_auth_tag;
  supported_key_agreement = ctx.supported_key_agreement;
  supported_sas = ctx.supported_sas;
  mac = zero_bytes 8;
}

unfoldable pub created : ℕ → MessageType → Option MessageData → Packet
created ssrc t d = record {
  sequence_number = 0;
  source_identifier = ssrc;
  message_type = t;
  message_length = 0;
  message_data = d;
  packet_string = none;
  fragments = [];
}

-- A value written to the front of a buffer of zeros.
unfoldable pub padded_value : ℕ → Bytes → Result Bytes
padded_value n value = write_at 0 value (zero_bytes n)

-- The public value of the stored Commit of the peer.
unfoldable pub peer_commit_pv : Option Packet → Result Bytes
peer_commit_pv none = fault
peer_commit_pv (some p) = elim p.message_data [ some (commit_data m) ↦ ok m.pv | _ ↦ fault ]

abbrev self_mackey_of : Role → Channel → Option Bytes
self_mackey_of initiator ch = ch.mackeyi
self_mackey_of responder ch = ch.mackeyr

-- `hmacFunction(mackey, hashLength, text, …, 8, clear_mac)`.
unfoldable pub hmac_of : Crypto → Channel → Bytes → Result MessageData
hmac_of c ch text = elim ch.hmac_function [
  | none ↦ fault
  | some f ↦ elim (self_mackey_of ch.role ch) [
    | none ↦ fault
    | some key ↦ do
      (key, rest) ← read ch.hash_length key
      ok (go_clear_data (record { clear_mac = c.hmac f key text 8 }))
  ]
]
