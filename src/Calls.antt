-- ===== src/Calls.antt =====
-- Calls of a user on a channel that is found (src/bzrtp.c): the hash of the Hello, which goes over the
-- signalling channel, the auxiliary secret and the verified SAS.
use bzrtp.Common.{
  ℕ, Bytes, codes, take, length, read, [], ◌∷◌, ◌++◌, Option, none, some, Result, ok, err, fault,
  Error, Bool, true, if◌then◌else◌, ◌==◌, ltb, bytes_eq,
}
use bzrtp.Channel.{Channel, PacketStore, sha256}
use bzrtp.Packet.Types.{Packet}
use bzrtp.Packet.Parser.DhPart.{built_message}
use bzrtp.Algo.{unset_algo}
use bzrtp.Algo.Agreement.{update_crypto_function_pointers}
use bzrtp.Timer.{stop_timer}
use bzrtp.Session.{Environment, Session, SrtpSecrets, not_started, cache_written_pvs}
use bzrtp.Session.Action.{Action, return, raise, ask, ◌>>=◌, ◌>>◌, modify, require, output}
use bzrtp.Machine.Cache.{update_cached_secrets}
use bzrtp.Machine.Entering.{is_set}
use bzrtp.Machine.Responding.{channel_of}
use bzrtp.Machine.Driving.{start_channel_engine}
pub mod Signalling
pub mod Restarted
pub mod Running
pub mod Kept

-- bctbx_int8_to_str and bctbx_str_to_uint8 of bctoolbox.
pub record Hexadecimal : Type 0 where
  pub int8_to_str : Bytes → Bytes
  pub str_to_uint8 : Bytes → Bytes

-- bzrtp_getSelfHelloHash: the string without the null that ends it.
unfoldable pub get_self_hello_hash : Environment → Hexadecimal → ℕ → Action Bytes
get_self_hello_hash env hex output_length = do
  s ← ask λ s. ok s
  require (is_set s.channel.self_packets.hello) Error.error_context_not_ready
  require (if ltb output_length 70 then Bool.false else true) Error.error_output_buffer_length
  message ← ask λ s. built_message s.channel.self_packets.hello
  return (codes "1.10" ++ b' ' ∷ hex.int8_to_str (env.crypto.hash sha256 message 32))

-- What follows the first space, or all.
after_space : Bytes → Option Bytes
after_space [] = none
after_space (b ∷ bs) = let rest = after_space bs in if b == b' ' then some bs else rest

unfoldable pub hash_string : Bytes → Bytes
unfolding after_space
hash_string string = elim (after_space string) [ none ↦ string | some rest ↦ rest ]

-- `srtpSecrets` as it is re-initialised; the flags of the mismatches stay.
unfoldable pub reset_srtp_secrets : SrtpSecrets → SrtpSecrets
reset_srtp_secrets p = record p {
  self_srtp_key = [];
  self_srtp_salt = [];
  peer_srtp_key = [];
  peer_srtp_salt = [];
  cipher_algo = unset_algo;
  cipher_key_length = 0;
  auth_tag_algo = unset_algo;
  sas = none;
  hash_algo = unset_algo;
  key_agreement_algo = unset_algo;
  sas_algo = unset_algo;
}

abbrev no_packets : PacketStore
no_packets = record { hello = none; commit = none; dhpart = none; confirm = none; go_clear = none }

-- The own Hello stays.
unfoldable pub reset_channel : Channel → Channel
unfolding update_crypto_function_pointers channel_of
reset_channel ch = channel_of (
    update_crypto_function_pointers (record ch {
      mackeyi = none;
      mackeyr = none;
      zrtpkeyi = none;
      zrtpkeyr = none;
      self_packets = record no_packets { hello = ch.self_packets.hello };
      peer_packets = no_packets;
      hash_algo = unset_algo;
      cipher_algo = unset_algo;
      auth_tag_algo = unset_algo;
      key_agreement_algo = unset_algo;
      sas_algo = unset_algo;
    }))

-- A session that started with a wrong Hello is reset; the flag `isSecure` is not.
unfoldable pub reset_session : Session → Session
unfolding reset_srtp_secrets reset_channel
reset_session s = record s {
  state_machine = not_started;
  timer = stop_timer s.timer;
  s0 = none;
  kdf_context = [];
  srtp_secrets = reset_srtp_secrets s.srtp_secrets;
  channel = reset_channel s.channel;
}

-- The return value of bzrtp_startChannelEngine is ignored, and here with it a fault in it.
unfoldable pub restart : Environment → Action (Unit {0})
restart env s =
    ((start_channel_engine env (reset_session s)).0, err Error.error_hello_hash_mismatch)

-- `memcmp(…, 32)` reads 32 bytes of the hash that was set.
unfoldable pub compare_hello_hash : Environment → Bytes → Packet → Action (Unit {0})
unfolding restart
compare_hello_hash env expected p = do
  message ← ask λ s. built_message (some p)
  (first, rest) ← ask λ s. read 32 expected
  if bytes_eq (env.crypto.hash sha256 message 32) first then return tt else restart env

unfoldable pub check_stored_hello : Environment → Bytes → Option Packet → Action (Unit {0})
unfolding compare_hello_hash
check_stored_hello env expected none = return tt
check_stored_hello env expected (some p) = compare_hello_hash env expected p

-- bzrtp_setPeerHelloHash.
unfoldable pub set_peer_hello_hash : Environment → Hexadecimal → Bytes → Action (Unit {0})
unfolding hash_string check_stored_hello
set_peer_hello_hash env hex string = do
  modify λ s. record s {
    channel = record s.channel { peer_hello_hash = some (hex.str_to_uint8 (hash_string string)) };
  }
  s ← ask λ s. ok s
  check_stored_hello env (hex.str_to_uint8 (hash_string string)) s.channel.peer_packets.hello

-- bzrtp_setAuxiliarySharedSecret, on the first channel.
unfoldable pub set_auxiliary_shared_secret : Bytes → Action (Unit {0})
set_auxiliary_shared_secret secret = do
  s ← ask λ s. ok s
  require (if is_set s.channel.peer_packets.hello then Bool.false else true)
      Error.error_context_not_ready
  modify λ s. record s { transient_aux_secret = some secret }

-- bzrtp_SASVerified, on the first channel: the update that a cache mismatch has delayed is done.
unfoldable pub delayed_update : Environment → Action (Unit {0})
delayed_update env = do
  s ← ask λ s. ok s
  if s.cache_mismatch_flag == 1
      then (do modify λ s. record s { cache_mismatch_flag = 0 }; update_cached_secrets env)
      else return tt

unfoldable pub sas_verified : Environment → Action (Unit {0})
unfolding delayed_update
sas_verified env = do delayed_update env; output (cache_written_pvs 1)

-- bzrtp_resetSASVerified.
unfoldable pub reset_sas_verified : Action (Unit {0})
reset_sas_verified = output (cache_written_pvs 0)
