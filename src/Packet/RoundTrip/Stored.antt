-- ===== src/Packet/RoundTrip/Stored.antt =====
-- A message that was built with a MAC, received and stored, opens under the key of its MAC
-- (src/packetParser.c).
use bzrtp.Common.{
  ℕ, ◌+◌, ◌-◌, Bytes, length, length-append, ◌++◌, some, ok, bytes_eq_refl, ltb-false, ◌≡◌, arith,
  bytes_eq_iff,
}
use bzrtp.Packet.Types.{
  Packet, HelloMessage, CommitMessage, DhPartMessage, hello_data, commit_data, dhpart_data,
}
use bzrtp.Packet.Header.{message_set_header}
use bzrtp.Packet.Delivery.{entire_string}
use bzrtp.Packet.Parser.Reading.{
  authenticated_bytes, check_mac, check_hash, stored_hello, stored_commit, stored_dhpart,
  check_hello, check_commit, check_dhpart,
}
use bzrtp.Packet.Builder.{build_message, mac_of}
use bzrtp.Packet.Builder.Bodies.{Body}
use bzrtp.Packet.RoundTrip.Frame.{message_bytes-entire_string, built_mac}
use bzrtp.Channel.{Crypto, sha256}

-- The packet holds the datagram of a message that was built from the body, with a MAC under the key.
pub record IsStored (c : Crypto) (name : Bytes) (body : Body) (key : Bytes) (p : Packet)
    : Type 0 where
  pub seq : ℕ
  pub ssrc : ℕ
  pub keyed : body.mac_key ≡ some key
  pub name_length : length name ≡ 8
  pub sized : body.message_length ≡ length body.content + 20
  pub message_length : p.message_length ≡ body.message_length
  pub packet_string : p.packet_string ≡ some (entire_string seq ssrc (build_message c name body))

module _ (c : Crypto) (name : Bytes) (body : Body) (key : Bytes) (p : Packet) where
  authenticated_bytes-IsStored :
      IsStored c name body key p
      → authenticated_bytes p ≡ ok (message_set_header body.message_length name ++ body.content)
  unfolding authenticated_bytes build_message
  authenticated_bytes-IsStored s =
      let front = message_set_header body.message_length name ++ body.content in
      let size : length front ≡ p.message_length - 8 =
        omega (arith, s.sized, s.message_length, s.name_length, length-append name body.content) in
      rw (
        s.packet_string,
        ltb-false p.message_length 8 (omega (arith, s.sized, s.message_length)),
        message_bytes-entire_string s.seq s.ssrc (p.message_length - 8) front
            (built_mac c name body) size,
      )

  pub check_mac-IsStored :
      IsStored c name body key p → check_mac c key p (built_mac c name body) ≡ ok tt
  unfolding check_mac mac_of
  check_mac-IsStored s = rw (
    s.keyed,
    authenticated_bytes-IsStored s,
    bytes_eq_refl
        (c.hmac sha256 key (message_set_header body.message_length name ++ body.content) 8),
  )

  pub check_hello-IsStored :
      (m : HelloMessage)
      → IsStored c name body key p
      → p.message_data ≡ some (hello_data m)
      → m.mac ≡ built_mac c name body
      → c.hash sha256 key 32 ≡ m.h3
      → check_hello c (some p) key ≡ ok tt
  unfolding check_hello stored_hello check_hash
  check_hello-IsStored m s e mac h = rw (e, (bytes_eq_iff _ m.h3).1 h, mac, check_mac-IsStored s)

  pub check_commit-IsStored :
      (m : CommitMessage)
      → IsStored c name body key p
      → p.message_data ≡ some (commit_data m)
      → m.mac ≡ built_mac c name body
      → c.hash sha256 key 32 ≡ m.h2
      → check_commit c (some p) key ≡ ok tt
  unfolding check_commit stored_commit check_hash
  check_commit-IsStored m s e mac h = rw (e, (bytes_eq_iff _ m.h2).1 h, mac, check_mac-IsStored s)

  pub check_dhpart-IsStored :
      (m : DhPartMessage)
      → IsStored c name body key p
      → p.message_data ≡ some (dhpart_data m)
      → m.mac ≡ built_mac c name body
      → c.hash sha256 key 32 ≡ m.h1
      → check_dhpart c (some p) key ≡ ok tt
  unfolding check_dhpart stored_dhpart check_hash
  check_dhpart-IsStored m s e mac h = rw (e, (bytes_eq_iff _ m.h1).1 h, mac, check_mac-IsStored s)
