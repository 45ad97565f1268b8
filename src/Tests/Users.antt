-- ===== src/Tests/Users.antt =====
-- The calls of a user.
use bzrtp.Common.{
  Bytes, codes, [], ◌∷◌, ◌++◌, read, replicate, ok, err, Error, ◌≡◌, ◌⊎◌, refl, arith,
}
use bzrtp.Channel.{sha256, initiator}
use bzrtp.Packet.Types.{MessageType}
use bzrtp.Packet.Parser.Hello.{check_peer_hello_hash}
use bzrtp.Packet.Parser.DhPart.{built_message}
use bzrtp.Packet.Parser.Reading.{message_bytes}
use bzrtp.Session.{Session, not_started, discovery_init}
use bzrtp.Machine.Keeping.{view}
use bzrtp.Calls.{Hexadecimal, get_self_hello_hash, set_peer_hello_hash, hash_string}
use bzrtp.Calls.Signalling.{HexadecimalLaws, set_peer_hello_hash-get_self_hello_hash}
use bzrtp.Calls.Restarted.{set_peer_hello_hash-mismatch}
use bzrtp.Tests.Data.{toy, channel}
use bzrtp.Tests.Sessions.{env, session, context, packet, bob, alice}

-- Every byte is its own form.
abbrev plain : Hexadecimal
plain = record { int8_to_str = λ b. b; str_to_uint8 = λ b. b }

plain-HexadecimalLaws : HexadecimalLaws plain
plain-HexadecimalLaws = record { str_to_uint8-int8_to_str = λ b. refl }

abbrev signalled : Bytes
signalled = codes "1.10" ++ b' ' ∷ toy.hash sha256 (replicate 8 1) 32

abbrev waiting : Session
waiting = session not_started (context 1) 2 (channel initiator)

signalling_example :
    (string : Bytes) × ((get_self_hello_hash env plain 70 bob).1 ≡ ok string)
    × ((set_peer_hello_hash env plain string waiting).1 ≡ ok tt)
    × (check_peer_hello_hash env.crypto
          (set_peer_hello_hash env plain string waiting).0.channel.peer_hello_hash
          (replicate 24 1)
          24
        ≡ ok tt)
unfolding built_message message_bytes read
signalling_example =
    set_peer_hello_hash-get_self_hello_hash env plain plain-HexadecimalLaws bob waiting
      (packet MessageType.hello 1) 70 (replicate 8 1) (replicate 24 1) 24 refl (omega arith) refl
      refl (omega arith) refl

-- A hash that is not that of the stored Hello.
mismatch_example :
    ((set_peer_hello_hash env plain (replicate 32 0) alice).1 ≡ err Error.error_hello_hash_mismatch)
    × ((view (set_peer_hello_hash env plain (replicate 32 0) alice).0
          ≡ (not_started, alice.is_secure))
        ⊎ (view (set_peer_hello_hash env plain (replicate 32 0) alice).0
            ≡ (discovery_init, alice.is_secure)))
unfolding built_message message_bytes read hash_string
mismatch_example =
    set_peer_hello_hash-mismatch env plain alice (replicate 32 0) (replicate 8 1)
      (packet MessageType.hello 1) (replicate 32 0) [] refl refl refl (λ h. cc)
