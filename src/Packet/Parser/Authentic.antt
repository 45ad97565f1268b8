-- ===== src/Packet/Parser/Authentic.antt =====
-- What a parsed Commit, DHPart or Confirm proves of its sender (bzrtp_packetParser of
-- src/packetParser.c): it reveals the next image of the hash chain, which opens the MAC of a message
-- that came before.
use bzrtp.Common.{Bytes, Option, ok, >>=-parts, guard-true, bytes_eq_iff, ◌≡◌}
use bzrtp.Packet.Types.{Packet, HelloMessage, CommitMessage, DhPartMessage}
use bzrtp.Packet.Parser.Reading.{
  authenticated_bytes, check_mac, check_hash, stored_hello, stored_commit, stored_dhpart,
  check_hello, check_commit, check_dhpart,
}
use bzrtp.Channel.{Crypto, sha256}

-- The key opens the MAC of the message of a stored packet.
IsMacOf : Crypto → Bytes → Packet → Bytes → Type 0
IsMacOf c key p mac =
    (input : Bytes) × (authenticated_bytes p ≡ ok input) × (c.hmac sha256 key input 8 ≡ mac)

-- The image is revealed by the holder of the Hello in the store: it hashes to H3 and opens the MAC.
unfoldable pub OpensHello : Crypto → Option Packet → Bytes → Type 0
unfolding IsMacOf
OpensHello c store h2 =
    (p : Packet) × (hello : HelloMessage) × (stored_hello store ≡ ok (p, hello))
    × (c.hash sha256 h2 32 ≡ hello.h3)
    × IsMacOf c h2 p hello.mac

unfoldable pub OpensCommit : Crypto → Option Packet → Bytes → Type 0
unfolding IsMacOf
OpensCommit c store h1 =
    (p : Packet) × (commit : CommitMessage) × (stored_commit store ≡ ok (p, commit))
    × (c.hash sha256 h1 32 ≡ commit.h2)
    × IsMacOf c h1 p commit.mac

unfoldable pub OpensDhPart : Crypto → Option Packet → Bytes → Type 0
unfolding IsMacOf
OpensDhPart c store h0 =
    (p : Packet) × (dhpart : DhPartMessage) × (stored_dhpart store ≡ ok (p, dhpart))
    × (c.hash sha256 h0 32 ≡ dhpart.h1)
    × IsMacOf c h0 p dhpart.mac

check_mac-eq-ok :
    (c : Crypto) (key : Bytes) (p : Packet) (mac : Bytes) {u : Unit {0}}
    → check_mac c key p mac ≡ ok u
    → IsMacOf c key p mac
unfolding IsMacOf check_mac
check_mac-eq-ok c key p mac h =
    let (input, e, g) = >>=-parts (authenticated_bytes p) _ h in
    (input, e, (bytes_eq_iff _ mac).0 (guard-true _ _ g))

check_hash-eq-ok :
    (c : Crypto) (image expected : Bytes) {u : Unit {0}}
    → check_hash c image expected ≡ ok u
    → c.hash sha256 image 32 ≡ expected
unfolding check_hash
check_hash-eq-ok c image expected h = (bytes_eq_iff _ expected).0 (guard-true _ _ h)

pub check_hello-eq-ok :
    (c : Crypto) (store : Option Packet) (h2 : Bytes) {u : Unit {0}}
    → check_hello c store h2 ≡ ok u
    → OpensHello c store h2
unfolding OpensHello check_hello
check_hello-eq-ok c store h2 h =
    let ((p, hello), e, k) = >>=-parts (stored_hello store) _ h in
    let (_, g, m) = >>=-parts (check_hash c h2 hello.h3) _ k in
    (p, hello, e, check_hash-eq-ok c h2 hello.h3 g, check_mac-eq-ok c h2 p hello.mac m)

pub check_commit-eq-ok :
    (c : Crypto) (store : Option Packet) (h1 : Bytes) {u : Unit {0}}
    → check_commit c store h1 ≡ ok u
    → OpensCommit c store h1
unfolding OpensCommit check_commit
check_commit-eq-ok c store h1 h =
    let ((p, commit), e, k) = >>=-parts (stored_commit store) _ h in
    let (_, g, m) = >>=-parts (check_hash c h1 commit.h2) _ k in
    (p, commit, e, check_hash-eq-ok c h1 commit.h2 g, check_mac-eq-ok c h1 p commit.mac m)

pub check_dhpart-eq-ok :
    (c : Crypto) (store : Option Packet) (h0 : Bytes) {u : Unit {0}}
    → check_dhpart c store h0 ≡ ok u
    → OpensDhPart c store h0
unfolding OpensDhPart check_dhpart
check_dhpart-eq-ok c store h0 h =
    let ((p, dhpart), e, k) = >>=-parts (stored_dhpart store) _ h in
    let (_, g, m) = >>=-parts (check_hash c h0 dhpart.h1) _ k in
    (p, dhpart, e, check_hash-eq-ok c h0 dhpart.h1 g, check_mac-eq-ok c h0 p dhpart.mac m)
