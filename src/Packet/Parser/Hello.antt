-- ===== src/Packet/Parser/Hello.antt =====
-- The MSGTYPE_HELLO case of bzrtp_packetParser (src/packetParser.c).
use bzrtp.Common.{
  ℕ, ◌+◌, ◌-◌, ◌*◌, ◌/◌, ◌%◌, min, Bytes, drop, read, read_byte, Option, none, some, Result, ok,
  fault, ◌>>=◌, ◌>>◌, guard, Error, if◌then◌else◌, ◌==◌, ltb, bytes_eq,
}
use bzrtp.Packet.Types.{Packet, HelloMessage, hello_data}
use bzrtp.Packet.Parser.Reading.{message_bytes, read_algos}
use bzrtp.Channel.{Crypto, sha256}
use bzrtp.Algo.{Family}
use bzrtp.Algo.Mandatory.{add_mandatory_crypto_types_if_needed}

-- The hash of the peer's Hello that the signalling channel gave, where it gave one.
unfoldable pub check_peer_hello_hash : Crypto → Option Bytes → Bytes → ℕ → Result (Unit {0})
unfolding message_bytes
check_peer_hello_hash c none input input_length = ok tt
check_peer_hello_hash c (some expected) input input_length =
    if ltb input_length 16 then fault else do
      message ← message_bytes (input_length - 16) input
      guard (bytes_eq (c.hash sha256 message 32) expected) Error.error_hello_hash_mismatch

-- The counts `hc`, `cc`, `ac`, `kc` and `sc`.
pub record Counts : Type 0 where
  pub hash : ℕ
  pub cipher : ℕ
  pub auth_tag : ℕ
  pub key_agreement : ℕ
  pub sas : ℕ

unfoldable pub hello_length : Counts → ℕ
hello_length n = 88 + 4 * (n.hash + n.cipher + n.auth_tag + n.key_agreement + n.sas)

-- The flags S, M and P of their byte, and the counts of the three bytes that follow, seven at most.
unfoldable pub read_flags : Bytes → Result ((ℕ × ℕ × ℕ) × Counts × Bytes)
read_flags content = do
  (flags, content) ← read_byte content
  (h, content) ← read_byte content
  (ca, content) ← read_byte content
  (ks, content) ← read_byte content
  ok (
    (flags / 64 % 2, flags / 32 % 2, flags / 16 % 2),
    record {
      hash = min (h % 16) 7;
      cipher = min (ca / 16 % 16) 7;
      auth_tag = min (ca % 16) 7;
      key_agreement = min (ks / 16 % 16) 7;
      sas = min (ks % 16) 7;
    },
    content,
  )

-- The message behind its header; `message_length` is the length that the header states.
unfoldable pub parse_hello_message : ℕ → Bytes → Result HelloMessage
unfolding hello_length read_flags read_algos
parse_hello_message message_length content = do
  (version, content) ← read 4 content
  (client_identifier, content) ← read 16 content
  (h3, content) ← read 32 content
  (zid, content) ← read 12 content
  ((s, m, p), counts, content) ← read_flags content
  guard (message_length == hello_length counts) Error.parser_error_invalid_message
  (hashes, content) ← read_algos Family.hash_type counts.hash content
  (ciphers, content) ← read_algos Family.cipherblock_type counts.cipher content
  (auth_tags, content) ← read_algos Family.authtag_type counts.auth_tag content
  (key_agreements, content) ← read_algos Family.keyagreement_type counts.key_agreement content
  (sas, content) ← read_algos Family.sas_type counts.sas content
  (mac, content) ← read 8 content
  ok (record {
    version = version;
    client_identifier = client_identifier;
    h3 = h3;
    zid = zid;
    s = s;
    m = m;
    p = p;
    supported_hash = add_mandatory_crypto_types_if_needed Family.hash_type hashes;
    supported_cipher = add_mandatory_crypto_types_if_needed Family.cipherblock_type ciphers;
    supported_auth_tag = add_mandatory_crypto_types_if_needed Family.authtag_type auth_tags;
    supported_key_agreement =
        add_mandatory_crypto_types_if_needed Family.keyagreement_type key_agreements;
    supported_sas = add_mandatory_crypto_types_if_needed Family.sas_type sas;
    mac = mac;
  })

unfoldable pub parse_hello : Crypto → Option Bytes → Bytes → ℕ → Packet → Result Packet
unfolding check_peer_hello_hash parse_hello_message
parse_hello c peer_hello_hash input input_length p = do
  check_peer_hello_hash c peer_hello_hash input input_length
  message ← parse_hello_message p.message_length (drop 24 input)
  (stored, rest) ← read input_length input
  ok (record p { message_data = some (hello_data message); packet_string = some stored })
