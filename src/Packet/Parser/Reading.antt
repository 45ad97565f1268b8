-- ===== src/Packet/Parser/Reading.antt =====
-- What the cases of bzrtp_packetParser (src/packetParser.c) share: the message in a packet's buffer, the
-- stored packets of the peer, and the implicit hash and MAC, SHA256 and HMAC-SHA256.
use bzrtp.Common.{
  ℕ, zero, suc, ◌-◌, Bytes, drop, read, List, [], ◌∷◌, Option, none, some, Result, ok, err, fault,
  ◌>>=◌, ◌>>◌, guard, Error, if◌then◌else◌, ltb, bytes_eq,
}
use bzrtp.Packet.Types.{
  Packet, HelloMessage, CommitMessage, DhPartMessage, hello_data, commit_data, dhpart_data,
}
use bzrtp.Channel.{Crypto, sha256}
use bzrtp.Algo.{Family}
use bzrtp.Algo.Names.{crypto_algo_type_string_to_int}

-- The first n bytes behind the packet header of a buffer.
unfoldable pub message_bytes : ℕ → Bytes → Result Bytes
message_bytes n buffer = do (message, rest) ← read n (drop 12 buffer); ok message

-- `packetString + 12` of length `messageLength - 8`: the message without its MAC.
unfoldable pub authenticated_bytes : Packet → Result Bytes
unfolding message_bytes
authenticated_bytes p = elim p.packet_string [
  | none ↦ fault
  | some buffer ↦
      if ltb p.message_length 8 then fault else message_bytes (p.message_length - 8) buffer
]

-- The MAC of a stored message, under a key that a later message reveals.
unfoldable pub check_mac : Crypto → Bytes → Packet → Bytes → Result (Unit {0})
unfolding authenticated_bytes
check_mac c key p mac = do
  input ← authenticated_bytes p
  guard (bytes_eq (c.hmac sha256 key input 8) mac) Error.parser_error_unmatching_mac

-- One link of the hash chain, `memcmp(SHA256(image), expected, 32)`.
unfoldable pub check_hash : Crypto → Bytes → Bytes → Result (Unit {0})
check_hash c image expected =
    guard (bytes_eq (c.hash sha256 image 32) expected) Error.parser_error_unmatching_hash_chain

-- `peerPackets[…]` with its message; the store holds a packet of its own type or NULL.
unfoldable pub stored_hello : Option Packet → Result (Packet × HelloMessage)
stored_hello none = err Error.parser_error_unexpected_message
stored_hello (some p) = elim p.message_data [ some (hello_data m) ↦ ok (p, m) | _ ↦ fault ]

unfoldable pub stored_commit : Option Packet → Result (Packet × CommitMessage)
stored_commit none = err Error.parser_error_unexpected_message
stored_commit (some p) = elim p.message_data [ some (commit_data m) ↦ ok (p, m) | _ ↦ fault ]

unfoldable pub stored_dhpart : Option Packet → Result (Packet × DhPartMessage)
stored_dhpart none = err Error.parser_error_unexpected_message
stored_dhpart (some p) = elim p.message_data [ some (dhpart_data m) ↦ ok (p, m) | _ ↦ fault ]

-- The checks of the peer's Hello against an H2 that is revealed or computed: H3 = SHA256(H2), and the
-- MAC of the Hello keyed by H2.
unfoldable pub check_hello : Crypto → Option Packet → Bytes → Result (Unit {0})
unfolding stored_hello check_hash check_mac
check_hello c store h2 = do
  (p, hello) ← stored_hello store
  check_hash c h2 hello.h3
  check_mac c h2 p hello.mac

-- The same for the peer's Commit and an H1.
unfoldable pub check_commit : Crypto → Option Packet → Bytes → Result (Unit {0})
unfolding stored_commit check_hash check_mac
check_commit c store h1 = do
  (p, commit) ← stored_commit store
  check_hash c h1 commit.h2
  check_mac c h1 p commit.mac

-- The same for the peer's DHPart and an H0.
unfoldable pub check_dhpart : Crypto → Option Packet → Bytes → Result (Unit {0})
unfolding stored_dhpart check_hash check_mac
check_dhpart c store h0 = do
  (p, dhpart) ← stored_dhpart store
  check_hash c h0 dhpart.h1
  check_mac c h0 p dhpart.mac

-- `bzrtp_cryptoAlgoTypeStringToInt(messageContent, …); messageContent += 4;`
unfoldable pub read_algo : Family → Bytes → Result (ℕ × Bytes)
read_algo family c = do (name, c) ← read 4 c; ok (crypto_algo_type_string_to_int name family, c)

unfoldable pub read_algos : Family → ℕ → Bytes → Result (List ℕ × Bytes)
unfolding read_algo
read_algos family zero c = ok ([], c)
read_algos family (suc n) c = do
  (algo, c) ← read_algo family c
  (algos, c) ← read_algos family n c
  ok (algo ∷ algos, c)
