-- ===== src/Packet/RoundTrip/Hello.antt =====
-- A Hello that is built is parsed back, with the mandatory algorithms added to its lists
-- (src/packetParser.c).
use bzrtp.Common.{
  ℕ, ◌+◌, ◌*◌, ◌/◌, ◌%◌, ◌<◌, ◌≤◌, min, Bytes, length, read-append, read_byte, ◌++◌, ok, ==_refl,
  bytes_eq_iff, ltb-false, codes, drop, Option, none, some, ◌≡◌, refl, arith,
}
use bzrtp.Packet.Types.{HelloMessage, MessageType, hello_data}
use bzrtp.Channel.{Crypto, CryptoLaws, sha256}
use bzrtp.Packet.Header.{message_set_header}
use bzrtp.Packet.Delivery.{entire_string, length-entire_string, received_packet}
use bzrtp.Packet.Builder.{build_message, mac_of}
use bzrtp.Packet.RoundTrip.Frame.{trailer, drop-build_message, message_bytes-whole, read_all}
use bzrtp.Algo.{Family}
use bzrtp.Algo.Widths.{AllNamed}
use bzrtp.Algo.Mandatory.{add_mandatory_crypto_types_if_needed}
use bzrtp.Packet.Parser.Hello.{
  parse_hello_message, read_flags, hello_length, Counts, parse_hello, check_peer_hello_hash,
}
use bzrtp.Packet.Builder.Bodies.{hello_content, flags_string, hello_body}
use bzrtp.Packet.RoundTrip.Reading.{read-field, read_algos-append, read_algos-field}

-- A Hello whose arrays have their C lengths, whose flags are bits, and whose lists have seven named
-- algorithms of their family at most.
pub record HelloIsValid (m : HelloMessage) : Type 0 where
  pub version_length : length m.version ≡ 4
  pub client_identifier_length : length m.client_identifier ≡ 16
  pub h3_length : length m.h3 ≡ 32
  pub zid_length : length m.zid ≡ 12
  pub s_bit : m.s < 2
  pub m_bit : m.m < 2
  pub p_bit : m.p < 2
  pub hash_count : length m.supported_hash ≤ 7
  pub cipher_count : length m.supported_cipher ≤ 7
  pub auth_tag_count : length m.supported_auth_tag ≤ 7
  pub key_agreement_count : length m.supported_key_agreement ≤ 7
  pub sas_count : length m.supported_sas ≤ 7
  pub hash_named : AllNamed Family.hash_type m.supported_hash
  pub cipher_named : AllNamed Family.cipherblock_type m.supported_cipher
  pub auth_tag_named : AllNamed Family.authtag_type m.supported_auth_tag
  pub key_agreement_named : AllNamed Family.keyagreement_type m.supported_key_agreement
  pub sas_named : AllNamed Family.sas_type m.supported_sas

abbrev pub counts_of : HelloMessage → Counts
counts_of m = record {
  hash = length m.supported_hash;
  cipher = length m.supported_cipher;
  auth_tag = length m.supported_auth_tag;
  key_agreement = length m.supported_key_agreement;
  sas = length m.supported_sas;
}

-- The Hello that the peer stores.
unfoldable pub received_hello : HelloMessage → Bytes → HelloMessage
received_hello m mac = record m {
  supported_hash = add_mandatory_crypto_types_if_needed Family.hash_type m.supported_hash;
  supported_cipher =
      add_mandatory_crypto_types_if_needed Family.cipherblock_type m.supported_cipher;
  supported_auth_tag =
      add_mandatory_crypto_types_if_needed Family.authtag_type m.supported_auth_tag;
  supported_key_agreement =
      add_mandatory_crypto_types_if_needed Family.keyagreement_type m.supported_key_agreement;
  supported_sas = add_mandatory_crypto_types_if_needed Family.sas_type m.supported_sas;
  mac = mac;
}

-- A bit in its place, and a count in its half of a byte.
flag_bits :
    (s m p : ℕ)
    → s < 2
    → m < 2
    → p < 2
    → ((s % 2 * 64 + m % 2 * 32 + p % 2 * 16) / 64 % 2 ≡ s)
      × ((s % 2 * 64 + m % 2 * 32 + p % 2 * 16) / 32 % 2 ≡ m)
      × ((s % 2 * 64 + m % 2 * 32 + p % 2 * 16) / 16 % 2 ≡ p)
flag_bits s m p hs hm hp = (omega arith, omega arith, omega arith)

count_low : (n : ℕ) → n ≤ 7 → min (n % 16 % 16) 7 ≡ n
count_low n h = omega arith

count_halves :
    (a b : ℕ)
    → a ≤ 7
    → b ≤ 7
    → (min ((a % 16 * 16 + b % 16) / 16 % 16) 7 ≡ a) × (min ((a % 16 * 16 + b % 16) % 16) 7 ≡ b)
count_halves a b ha hb = (omega arith, omega arith)

read_flags-flags_string :
    (m : HelloMessage) (ys tail : Bytes)
    → HelloIsValid m
    → read_flags ((flags_string m ++ ys) ++ tail) ≡ ok ((m.s, m.m, m.p), counts_of m, ys ++ tail)
unfolding read_flags flags_string read_byte
read_flags-flags_string m ys tail v =
    let (fs, fm, fp) = flag_bits m.s m.m m.p v.s_bit v.m_bit v.p_bit in
    let (cc, ac) =
      count_halves (length m.supported_cipher) (length m.supported_auth_tag) v.cipher_count
        v.auth_tag_count in
    let (kc, sc) =
      count_halves (length m.supported_key_agreement) (length m.supported_sas) v.key_agreement_count
        v.sas_count in
    rw (fs, fm, fp, count_low (length m.supported_hash) v.hash_count, cc, ac, kc, sc)

parse_hello_message-hello_content :
    (m : HelloMessage) (mac rest : Bytes)
    → HelloIsValid m
    → length mac ≡ 8
    → parse_hello_message (hello_length (counts_of m)) (hello_content m ++ (mac ++ rest))
      ≡ ok (received_hello m mac)
unfolding parse_hello_message hello_content received_hello
parse_hello_message-hello_content m mac rest v h = rw (
  read-field 4 m.version _ (mac ++ rest) v.version_length,
  read-field 16 m.client_identifier _ (mac ++ rest) v.client_identifier_length,
  read-field 32 m.h3 _ (mac ++ rest) v.h3_length,
  read-field 12 m.zid _ (mac ++ rest) v.zid_length,
  read_flags-flags_string m _ (mac ++ rest) v,
  ==_refl (hello_length (counts_of m)),
  read_algos-field Family.hash_type m.supported_hash _ (mac ++ rest) v.hash_named,
  read_algos-field Family.cipherblock_type m.supported_cipher _ (mac ++ rest) v.cipher_named,
  read_algos-field Family.authtag_type m.supported_auth_tag _ (mac ++ rest) v.auth_tag_named,
  read_algos-field Family.keyagreement_type m.supported_key_agreement _ (mac ++ rest)
      v.key_agreement_named,
  read_algos-append Family.sas_type m.supported_sas (mac ++ rest) v.sas_named,
  read-append 8 mac rest h,
)

-- The hash that the signalling channel gave, if it gave one, is that of the message.
abbrev pub IsHelloHash : Crypto → Bytes → Option Bytes → Type 0
IsHelloHash c message none = Unit {0}
IsHelloHash c message (some expected) = c.hash sha256 message 32 ≡ expected

check_peer_hello_hash-entire_string :
    (c : Crypto) (seq ssrc : ℕ) (message : Bytes) (expected : Option Bytes)
    → IsHelloHash c message expected
    → let input = entire_string seq ssrc message in
      check_peer_hello_hash c expected input (length input) ≡ ok tt
unfolding check_peer_hello_hash
check_peer_hello_hash-entire_string c seq ssrc message none h = refl
check_peer_hello_hash-entire_string c seq ssrc message (some expected) h = rw (
  ltb-false (length (entire_string seq ssrc message)) 16
      (omega (arith, length-entire_string seq ssrc message)),
  message_bytes-whole seq ssrc message,
  (bytes_eq_iff _ expected).1 h,
)

-- The MAC of a built Hello.
abbrev pub hello_mac : Crypto → Bytes → HelloMessage → Bytes
hello_mac c h2 m =
    c.hmac sha256 h2
      (message_set_header (hello_length (counts_of m)) (codes "Hello   ") ++ hello_content m) 8

-- A valid Hello that is built and sent is parsed as the same message, with the mandatory algorithms
-- added to each list and with its MAC, where the hash that the peer may expect is that of the message.
pub parse_hello-build_message :
    (c : Crypto) (laws : CryptoLaws c) (h2 : Bytes) (m : HelloMessage) (seq ssrc : ℕ)
    (expected : Option Bytes)
    → HelloIsValid m
    → IsHelloHash c (build_message c (codes "Hello   ") (hello_body h2 m)) expected
    → let message = build_message c (codes "Hello   ") (hello_body h2 m) in
      let input = entire_string seq ssrc message in
      let p = received_packet seq ssrc MessageType.hello (hello_length (counts_of m)) in
      parse_hello c expected input (length input) p
      ≡ ok (record p {
        message_data = some (hello_data (received_hello m (hello_mac c h2 m)));
        packet_string = some input;
      })
unfolding parse_hello hello_body mac_of
parse_hello-build_message c laws h2 m seq ssrc expected v h =
    let name = codes "Hello   " in
    let n = hello_length (counts_of m) in
    let message = build_message c name (hello_body h2 m) in
    let mac = hello_mac c h2 m in
    let tail = trailer seq ssrc message in
    let leb8 : 8 ≤ 32 = omega arith in
    let content : drop 24 (entire_string seq ssrc message) ≡ hello_content m ++ (mac ++ tail) =
      drop-build_message c seq ssrc name (hello_body h2 m) refl in
    rw (
      check_peer_hello_hash-entire_string c seq ssrc message expected h,
      content,
      parse_hello_message-hello_content m mac tail v
          (laws.length-hmac sha256 h2 (message_set_header n name ++ hello_content m) 8 leb8),
      read_all (entire_string seq ssrc message),
    )
