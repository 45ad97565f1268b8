-- ===== src/Calls/Restarted.antt =====
-- A channel whose Hello does not match the hash of the signalling channel (src/bzrtp.c).
use bzrtp.Common.{
  Bytes, some, ok, err, Error, false, ◌≡◌, ◌≢◌, refl, bytes_eq, bytes_eq_iff, read, Bool-cases, inl,
  inr, ◌⊎◌,
}
use bzrtp.Channel.{sha256}
use bzrtp.Packet.Types.{Packet}
use bzrtp.Packet.Parser.DhPart.{built_message}
use bzrtp.Session.{Environment, Session, not_started, discovery_init}
use bzrtp.Session.Action.{return, ask, ◌>>=◌, ◌>>◌, and_then, modify}
use bzrtp.Machine.Keeping.{view}
use bzrtp.Machine.Driven.{started-view}
use bzrtp.Calls.{
  Hexadecimal, set_peer_hello_hash, check_stored_hello, compare_hello_hash, hash_string, restart,
  reset_session,
}

-- State and flag after the restart.
pub restart-view :
    (env : Environment) (s : Session)
    → (view (restart env s).0 ≡ (not_started, s.is_secure))
      ⊎ (view (restart env s).0 ≡ (discovery_init, s.is_secure))
unfolding restart reset_session
restart-view env s = elim (started-view env (reset_session s)) [
  | inl same ↦ inl same
  | inr (first, there) ↦ inr there
]

-- A stored Hello whose hash is not the one of 32 bytes that is set: the call reports the mismatch, and
-- the channel is back in its first state or not started; its flag `isSecure` stays as it was.
pub set_peer_hello_hash-mismatch :
    (env : Environment) (hex : Hexadecimal) (s : Session) (string message : Bytes) (p : Packet)
    (first rest : Bytes)
    → s.channel.peer_packets.hello ≡ some p
    → built_message (some p) ≡ ok message
    → read 32 (hex.str_to_uint8 (hash_string string)) ≡ ok (first, rest)
    → env.crypto.hash sha256 message 32 ≢ first
    → ((set_peer_hello_hash env hex string s).1 ≡ err Error.error_hello_hash_mismatch)
      × ((view (set_peer_hello_hash env hex string s).0 ≡ (not_started, s.is_secure))
          ⊎ (view (set_peer_hello_hash env hex string s).0 ≡ (discovery_init, s.is_secure)))
unfolding set_peer_hello_hash check_stored_hello compare_hello_hash and_then ◌>>=◌ ◌>>◌ ask return
    modify restart
set_peer_hello_hash-mismatch env hex s string message p first rest stored built cut differ =
    let other : bytes_eq (env.crypto.hash sha256 message 32) first ≡ false =
      elim (Bool-cases (bytes_eq (env.crypto.hash sha256 message 32) first)) [
        | inl same ↦ absurd (differ ((bytes_eq_iff _ _).0 same))
        | inr unequal ↦ unequal
      ] in
    rw (stored, built, cut, other) (refl, restart-view env _)
