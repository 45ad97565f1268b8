-- ===== src/Tests/Data.antt =====
-- Sample data for the tests: a toy cryptography that keeps the laws, messages, packets and channels.
use bzrtp.Common.{ℕ, ◌+◌, ◌%◌, Bytes, codes, [], ◌∷◌, length-replicate, replicate, none, some, refl}
use bzrtp.Channel.{
  Crypto, CryptoLaws, Channel, PacketStore, FragmentReassembly, Role, sha256, aes128,
}
use bzrtp.Packet.Types.{HelloMessage, CommitMessage, DhPartMessage, ConfirmMessage}

abbrev sum : Bytes → ℕ
sum [] = 0
sum (b ∷ bs) = b + sum bs

-- A hash that repeats the sum of its input, and a cipher that changes nothing.
abbrev pub toy : Crypto
toy = record {
  hash = λ f x n. replicate n ((sum x + 1) % 256);
  hmac = λ f k x n. replicate n ((sum k + sum x) % 256);
  encrypt = λ f k iv x. x;
  decrypt = λ f k iv x. x;
}

pub toy-CryptoLaws : CryptoLaws toy
toy-CryptoLaws = record {
  length-hash = λ f x n le. length-replicate n _;
  length-hmac = λ f k x n le. length-replicate n _;
  length-encrypt = λ f k iv x. refl;
  decrypt-encrypt = λ f k iv x. refl;
}

abbrev pub h0 : Bytes
h0 = replicate 32 7

abbrev pub h1 : Bytes
h1 = toy.hash sha256 h0 32

abbrev pub h2 : Bytes
h2 = toy.hash sha256 h1 32

abbrev pub h3 : Bytes
h3 = toy.hash sha256 h2 32

abbrev pub hello : HelloMessage
hello = record {
  version = codes "1.10";
  client_identifier = codes "BZRTP-CLIENT-1.1";
  h3 = h3;
  zid = replicate 12 9;
  s = 0;
  m = 1;
  p = 0;
  supported_hash = 0x13 ∷ 0x11 ∷ [];
  supported_cipher = 0x23 ∷ 0x21 ∷ [];
  supported_auth_tag = 0x32 ∷ [];
  supported_key_agreement = 0x42 ∷ 0x47 ∷ [];
  supported_sas = 0xa1 ∷ [];
  mac = [];
}

abbrev pub commit : CommitMessage
commit = record {
  h2 = h2;
  zid = replicate 12 9;
  hash_algo = 0x13;
  cipher_algo = 0x23;
  auth_tag_algo = 0x32;
  key_agreement_algo = 0x42;
  sas_algo = 0xa1;
  hvi = replicate 32 5;
  nonce = replicate 16 0;
  key_id = replicate 8 0;
  pv = [];
  mac = [];
}

abbrev pub dhpart : DhPartMessage
dhpart = record {
  h1 = h1;
  rs1_id = replicate 8 1;
  rs2_id = replicate 8 2;
  auxsecret_id = replicate 8 3;
  pbxsecret_id = replicate 8 4;
  pv = replicate 32 6;
  mac = [];
}

abbrev pub confirm : ConfirmMessage
confirm = record {
  confirm_mac = [];
  cfb_iv = replicate 16 8;
  h0 = h0;
  sig_len = 0;
  e = 0;
  v = 1;
  a = 1;
  d = 0;
  cache_expiration_interval = 0xFFFFFFFF;
  signature_block_type = replicate 4 0;
  signature_block = [];
}

abbrev pub no_packets : PacketStore
no_packets = record { hello = none; commit = none; dhpart = none; confirm = none; go_clear = none }

abbrev pub idle : FragmentReassembly
idle = record { message_id = 0; message_length = 0; packet_string = none; fragments = [] }

-- A channel after the agreement, with its keys.
abbrev pub channel : Role → Channel
channel role = record {
  role = role;
  self_ssrc = 0x01020304;
  self_h0 = h0;
  self_h1 = h1;
  self_h2 = h2;
  self_h3 = h3;
  self_packets = no_packets;
  peer_packets = no_packets;
  peer_hello_hash = none;
  self_sequence_number = 1;
  self_message_sequence_number = 1;
  peer_sequence_number = 0;
  hash_algo = 0x13;
  hash_length = 32;
  cipher_algo = 0x23;
  cipher_key_length = 16;
  auth_tag_algo = 0x32;
  key_agreement_algo = 0x42;
  sas_algo = 0xa1;
  sas_length = 5;
  hash_function = some sha256;
  hmac_function = some sha256;
  cipher_function = some aes128;
  sas_function = none;
  mackeyi = some (replicate 32 11);
  mackeyr = some (replicate 32 12);
  zrtpkeyi = some (replicate 16 13);
  zrtpkeyr = some (replicate 16 14);
  incoming_fragmented_packet = idle;
  ping_packet = none;
}
