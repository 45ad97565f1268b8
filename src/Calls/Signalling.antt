-- ===== src/Calls/Signalling.antt =====
-- The hash of a Hello that goes over the signalling channel, from bzrtp_getSelfHelloHash to the check of
-- the Hello when it arrives (src/bzrtp.c, src/packetParser.c).
use bzrtp.Common.{
  ℕ, Bytes, codes, ◌∷◌, ◌++◌, none, some, ok, false, ◌≡◌, refl, ◌≤◌, ap, ◌∙◌, arith, ltb,
  bytes_eq_iff, ◌-◌,
}
use bzrtp.Channel.{sha256}
use bzrtp.Packet.Types.{Packet}
use bzrtp.Packet.Parser.Hello.{check_peer_hello_hash}
use bzrtp.Packet.Parser.Reading.{message_bytes}
use bzrtp.Packet.Parser.DhPart.{built_message}
use bzrtp.Session.{Environment, Session}
use bzrtp.Session.Action.{return, raise, ask, ◌>>=◌, ◌>>◌, and_then, modify, require}
use bzrtp.Calls.{
  Hexadecimal, get_self_hello_hash, set_peer_hello_hash, check_stored_hello, hash_string,
}

-- What the code relies on: the hexadecimal form is read back.
pub record HexadecimalLaws (hex : Hexadecimal) : Type 0 where
  pub str_to_uint8-int8_to_str : (b : Bytes) → hex.str_to_uint8 (hex.int8_to_str b) ≡ b

module _ (env : Environment) (hex : Hexadecimal) where
  get_self_hello_hash-ok :
      (a : Session) (p : Packet) (output_length : ℕ) (message : Bytes)
      → a.channel.self_packets.hello ≡ some p
      → 70 ≤ output_length
      → built_message (some p) ≡ ok message
      → (get_self_hello_hash env hex output_length a).1
        ≡ ok (codes "1.10" ++ b' ' ∷ hex.int8_to_str (env.crypto.hash sha256 message 32))
  unfolding get_self_hello_hash and_then ◌>>=◌ ◌>>◌ ask return raise require
  get_self_hello_hash-ok a p output_length message ha le built =
      let enough : ltb output_length 70 ≡ false = ground arith in rw (ha, enough, built) refl

  hash_string_lem : (h : Bytes) → hash_string (codes "1.10" ++ b' ' ∷ h) ≡ h
  unfolding hash_string
  hash_string_lem h = refl

  -- A peer without a Hello keeps the hash.
  set_peer_hello_hash_lem :
      (b : Session) (string : Bytes)
      → b.channel.peer_packets.hello ≡ none
      → ((set_peer_hello_hash env hex string b).1 ≡ ok tt)
        × ((set_peer_hello_hash env hex string b).0.channel.peer_hello_hash
            ≡ some (hex.str_to_uint8 (hash_string string)))
  unfolding set_peer_hello_hash check_stored_hello and_then ◌>>=◌ ◌>>◌ ask return modify
  set_peer_hello_hash_lem b string hb = (rw hb refl, rw hb refl)

  check_peer_hello_hash-ok :
      (message input : Bytes) (n : ℕ)
      → 16 ≤ n
      → message_bytes (n - 16) input ≡ ok message
      → check_peer_hello_hash env.crypto (some (env.crypto.hash sha256 message 32)) input n ≡ ok tt
  unfolding check_peer_hello_hash
  check_peer_hello_hash-ok message input n short arrived =
      let long : ltb n 16 ≡ false = ground arith in
      let same = (bytes_eq_iff (env.crypto.hash sha256 message 32) _).1 refl in
      rw (long, arrived, same) refl

-- The string that an endpoint with a built Hello gives, set by a peer that has no Hello yet: the Hello
-- passes the check of its hash when it arrives there as the message of a packet.
pub set_peer_hello_hash-get_self_hello_hash :
    (env : Environment) (hex : Hexadecimal)
    → HexadecimalLaws hex
    → (a b : Session) (p : Packet) (output_length : ℕ) (message input : Bytes) (n : ℕ)
    → a.channel.self_packets.hello ≡ some p
    → 70 ≤ output_length
    → built_message (some p) ≡ ok message
    → b.channel.peer_packets.hello ≡ none
    → 16 ≤ n
    → message_bytes (n - 16) input ≡ ok message
    → (string : Bytes) × ((get_self_hello_hash env hex output_length a).1 ≡ ok string)
      × ((set_peer_hello_hash env hex string b).1 ≡ ok tt)
      × (check_peer_hello_hash env.crypto
            (set_peer_hello_hash env hex string b).0.channel.peer_hello_hash
            input
            n
          ≡ ok tt)
set_peer_hello_hash-get_self_hello_hash env hex law a b p output_length message input n ha le built
      hb short arrived =
    let string = codes "1.10" ++ b' ' ∷ hex.int8_to_str (env.crypto.hash sha256 message 32) in
    let (accepted, kept) = set_peer_hello_hash_lem env hex b string hb in
    let expected =
      kept
      ∙ ap (λ h. some (hex.str_to_uint8 h)) (hash_string_lem env hex _)
      ∙ ap some (law.str_to_uint8-int8_to_str _) in
    (
      string,
      get_self_hello_hash-ok env hex a p output_length message ha le built,
      accepted,
      rw expected (check_peer_hello_hash-ok env hex message input n short arrived),
    )
