-- ===== src/Packet/RoundTrip/Frame.antt =====
-- A message in the datagram that carries it: what bzrtp_packetParser finds behind the headers of what
-- bzrtp_packetBuild and bzrtp_packetSetSequenceNumber wrote (src/packetParser.c).
use bzrtp.Common.{
  ℕ, ◌-◌, ◌≤◌, Bytes, bytes32, length, drop, drop-append, read, read-append, [], ◌++◌, append_assoc,
  append-nil, some, ok, ◌≡◌, refl, arith, ap, sym, subst, ◌∙◌,
}
use bzrtp.Packet.Header.{message_set_header}
use bzrtp.Packet.Seal.{sealed, header_string}
use bzrtp.Packet.Delivery.{entire_string, length-entire_string}
use bzrtp.Packet.Parser.Reading.{message_bytes}
use bzrtp.Packet.Builder.{build_message, mac_of}
use bzrtp.Packet.Builder.Bodies.{Body}
use bzrtp.Channel.{Crypto, CryptoLaws, sha256}
use bzrtp.Crc.{crc32}

-- The checksum behind a message.
abbrev pub trailer : ℕ → ℕ → Bytes → Bytes
trailer seq ssrc message = bytes32 (crc32 (header_string 0x10 seq ssrc ++ message))

pub entire_string-trailer :
    (seq ssrc : ℕ) (message : Bytes)
    → entire_string seq ssrc message
      ≡ header_string 0x10 seq ssrc ++ (message ++ trailer seq ssrc message)
unfolding entire_string sealed
entire_string-trailer seq ssrc message = refl

-- The message content behind both headers.
pub drop-entire_string :
    (seq ssrc n : ℕ) (name content : Bytes)
    → length name ≡ 8
    → drop 24 (entire_string seq ssrc (message_set_header n name ++ content))
      ≡ content ++ trailer seq ssrc (message_set_header n name ++ content)
unfolding entire_string sealed
drop-entire_string seq ssrc n name content h =
    rw (append_assoc name content (trailer seq ssrc (message_set_header n name ++ content)))
      (drop-append 8 name _ h)

pub read_all : (buffer : Bytes) → read (length buffer) buffer ≡ ok (buffer, [])
read_all buffer =
    ap (λ b. read (length buffer) b) (sym (append-nil buffer))
    ∙ read-append (length buffer) buffer [] refl

-- The message that the MACs and the hash of the Hello are computed on.
pub message_bytes-entire_string :
    (seq ssrc k : ℕ) (front back : Bytes)
    → length front ≡ k
    → message_bytes k (entire_string seq ssrc (front ++ back)) ≡ ok front
unfolding message_bytes entire_string sealed
message_bytes-entire_string seq ssrc k front back h = rw (
  append_assoc front back (trailer seq ssrc (front ++ back)),
  read-append k front (back ++ trailer seq ssrc (front ++ back)) h,
)

-- The content of a built message, its MAC included.
unfoldable pub content_of : Crypto → Bytes → Body → Bytes
content_of c name body =
    body.content
    ++ mac_of c body.mac_key (message_set_header body.message_length name ++ body.content)

pub build_message-content_of :
    (c : Crypto) (name : Bytes) (body : Body)
    → build_message c name body
      ≡ message_set_header body.message_length name ++ content_of c name body
unfolding build_message content_of
build_message-content_of c name body = rw (append_assoc name body.content _)

pub message_bytes-whole :
    (seq ssrc : ℕ) (message : Bytes)
    → message_bytes (length (entire_string seq ssrc message) - 16) (entire_string seq ssrc message)
      ≡ ok message
message_bytes-whole seq ssrc message =
    let size : length (entire_string seq ssrc message) - 16 ≡ length message =
      omega (arith, length-entire_string seq ssrc message) in
    rw (size) (
      ap (λ x. message_bytes (length message) (entire_string seq ssrc x)) (sym (append-nil message))
      ∙ message_bytes-entire_string seq ssrc (length message) message [] refl)

-- The MAC of a built message, over its header and its content.
abbrev pub built_mac : Crypto → Bytes → Body → Bytes
built_mac c name body =
    mac_of c body.mac_key (message_set_header body.message_length name ++ body.content)

pub drop-build_message :
    (c : Crypto) (seq ssrc : ℕ) (name : Bytes) (body : Body)
    → length name ≡ 8
    → let message = build_message c name body in
      drop 24 (entire_string seq ssrc message)
      ≡ body.content ++ (built_mac c name body ++ trailer seq ssrc message)
unfolding content_of
drop-build_message c seq ssrc name body h =
    let message = build_message c name body in
    subst (λ x. drop 24 (entire_string seq ssrc x) ≡ content_of c name body ++ trailer seq ssrc x)
      (sym (build_message-content_of c name body))
      (drop-entire_string seq ssrc body.message_length name (content_of c name body) h)
    ∙ append_assoc body.content (built_mac c name body) (trailer seq ssrc message)

pub length-built_mac :
    (c : Crypto) (name : Bytes) (body : Body) (key : Bytes)
    → CryptoLaws c
    → body.mac_key ≡ some key
    → length (built_mac c name body) ≡ 8
unfolding mac_of
length-built_mac c name body key laws e =
    let small : 8 ≤ 32 = omega arith in
    rw (e) (
      laws.length-hmac sha256 key (message_set_header body.message_length name ++ body.content) 8
        small)
