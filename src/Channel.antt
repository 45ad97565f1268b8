-- ===== src/Channel.antt =====
-- The context of a channel (include/typedef.h), as far as the packets and the handshake use it, and the
-- cryptographic functions that it points to.
use bzrtp.Common.{ℕ, Bytes, List, Option, ◌≡◌, ◌≤◌, length}
use bzrtp.Packet.Types.{Packet}

pub data Role : Type 0 where
  initiator responder : Role

-- The functions of bctoolbox that `hashFunction`, `hmacFunction` and the cipher pointers take.
pub data HashFunction : Type 0 where
  sha256 sha384 sha512 : HashFunction

pub data CipherFunction : Type 0 where
  aes128 aes256 : CipherFunction

-- bzrtp_base32 and bzrtp_base256.
pub data SasFunction : Type 0 where
  base32 base256 : SasFunction

-- bctoolbox: a hash or an HMAC (key, input) of the given length, and the ciphers (key, IV, input).
pub record Crypto : Type 0 where
  pub hash : HashFunction → Bytes → ℕ → Bytes
  pub hmac : HashFunction → Bytes → Bytes → ℕ → Bytes
  pub encrypt : CipherFunction → Bytes → Bytes → Bytes → Bytes
  pub decrypt : CipherFunction → Bytes → Bytes → Bytes → Bytes

-- What the code relies on: outputs have the length that was asked for (32 bytes are within every
-- hash), and in CFB mode decryption undoes encryption and the length stays.
pub record CryptoLaws (c : Crypto) : Type 0 where
  pub length-hash : (f : HashFunction) (x : Bytes) (n : ℕ) → n ≤ 32 → length (c.hash f x n) ≡ n
  pub length-hmac : (f : HashFunction) (k x : Bytes) (n : ℕ) → n ≤ 32 → length (c.hmac f k x n) ≡ n
  pub length-encrypt :
      (f : CipherFunction) (k iv x : Bytes) → length (c.encrypt f k iv x) ≡ length x
  pub decrypt-encrypt :
      (f : CipherFunction) (k iv x : Bytes) → c.decrypt f k iv (c.encrypt f k iv x) ≡ x

-- selfPackets and peerPackets, under the names of the store identifiers.
pub record PacketStore : Type 0 where
  pub hello : Option Packet
  pub commit : Option Packet
  pub dhpart : Option Packet
  pub confirm : Option Packet
  pub go_clear : Option Packet

-- fragmentInfo_t, in 32 bit words.
pub record FragmentInfo : Type 0 where
  pub offset : ℕ
  pub length : ℕ

-- fragmentReassembly_t.
pub record FragmentReassembly : Type 0 where
  pub message_id : ℕ
  pub message_length : ℕ
  pub packet_string : Option Bytes
  pub fragments : List FragmentInfo

-- bzrtpChannelContext_t.
pub record Channel : Type 0 where
  pub role : Role
  pub self_ssrc : ℕ
  pub self_h0 : Bytes
  pub self_h1 : Bytes
  pub self_h2 : Bytes
  pub self_h3 : Bytes
  pub self_packets : PacketStore
  pub peer_packets : PacketStore
  pub peer_hello_hash : Option Bytes
  pub self_sequence_number : ℕ
  pub self_message_sequence_number : ℕ
  pub peer_sequence_number : ℕ
  pub hash_algo : ℕ
  pub hash_length : ℕ
  pub cipher_algo : ℕ
  pub cipher_key_length : ℕ
  pub auth_tag_algo : ℕ
  pub key_agreement_algo : ℕ
  pub sas_algo : ℕ
  pub sas_length : ℕ
  pub hash_function : Option HashFunction
  pub hmac_function : Option HashFunction
  pub cipher_function : Option CipherFunction
  pub sas_function : Option SasFunction
  pub mackeyi : Option Bytes
  pub mackeyr : Option Bytes
  pub zrtpkeyi : Option Bytes
  pub zrtpkeyr : Option Bytes
  pub incoming_fragmented_packet : FragmentReassembly
  pub ping_packet : Option Packet
