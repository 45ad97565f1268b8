-- ===== src/Creation.antt =====
-- bzrtp_createZrtpPacket (src/packetParser.c): a packet that is filled from the contexts. It may draw
-- random bytes and start a key agreement.
use bzrtp.Common.{
  ℕ, Bytes, codes, take, length, read, write_at, replicate, [], ◌∷◌, ◌++◌, Option, none, some,
  Result, ok, err, fault, Error, Bool, ◌||◌, if◌then◌else◌, ◌==◌,
}
use bzrtp.Channel.{Crypto, Channel, HashFunction, Role, initiator, responder}
use bzrtp.Packet.Types.{
  MessageType, Packet, MessageData, HelloMessage, CommitMessage, DhPartMessage, ConfirmMessage,
  hello_data, commit_data, dhpart_data, confirm_data, go_clear_data, ping_data, ping_ack_data,
}
use bzrtp.Packet.Parser.Commit.{commit_pv_length}
use bzrtp.Packet.Parser.DhPart.{built_message, compute_hvi, dhpart_message}
use bzrtp.Algo.{keyagreement_dh2k, keyagreement_dh3k, keyagreement_x255, keyagreement_x448}
use bzrtp.Algo.Lengths.{compute_key_agreement_public_value_length, is_kem, in_dhpart1}
use bzrtp.Contention.{is_non_dhm}
use bzrtp.Context.{CachedSecretsHash}
use bzrtp.Session.{Environment, Session, KeyContext}
use bzrtp.Session.Action.{Action, return, raise, ask, ◌>>=◌, ◌>>◌, modify, require, draw}
use bzrtp.Creation.PublicValue.{commit_public_key, dhpart_value}
use bzrtp.Creation.Data.{hello_of, created, zero_bytes, padded_value, hmac_of, peer_commit_pv}
pub mod Data
pub mod PublicValue

-- The fields of a Commit that depend on the key agreement: nonce, hvi and public value.
unfoldable pub commit_choice : Environment → ℕ → Action (Bytes × Bytes × Bytes)
commit_choice env algo =
    if is_non_dhm algo then (do nonce ← draw env 16; return (nonce, zero_bytes 32, [])) else (do
      dhpart ← ask λ s. built_message s.channel.self_packets.dhpart
      hello ← ask λ s. built_message s.channel.peer_packets.hello
      hvi ← ask λ s. compute_hvi env.crypto s.channel.hash_function dhpart hello
      pv ← (if is_kem algo then commit_public_key env algo else return [])
      return (zero_bytes 16, hvi, pv))

unfoldable pub create_commit : Environment → Action MessageData
unfolding commit_choice
create_commit env = do
  ch ← ask λ s. ok s.channel
  zid ← ask λ s. ok s.context.self_zid
  (nonce, hvi, pv) ← commit_choice env ch.key_agreement_algo
  return (
      commit_data (record {
        h2 = ch.self_h2;
        zid = zid;
        hash_algo = ch.hash_algo;
        cipher_algo = ch.cipher_algo;
        auth_tag_algo = ch.auth_tag_algo;
        key_agreement_algo = ch.key_agreement_algo;
        sas_algo = ch.sas_algo;
        hvi = hvi;
        nonce = nonce;
        key_id = zero_bytes 8;
        pv = pv;
        mac = zero_bytes 8;
      }))

-- The identifiers of the shared secrets: those of the initiator in a DHPart2.
abbrev pub secret_hash_for : MessageType → Session → CachedSecretsHash
secret_hash_for MessageType.dhpart2 s = s.context.initiator_cached_secret_hash
secret_hash_for _ s = s.context.responder_cached_secret_hash

abbrev pub auxsecret_id_for : MessageType → Session → Bytes
auxsecret_id_for MessageType.dhpart2 s = s.initiator_auxsecret_id
auxsecret_id_for _ s = s.responder_auxsecret_id

unfoldable pub create_dhpart : Environment → MessageType → Action MessageData
create_dhpart env t = do
  start ← ask λ s. ok s
  let algo = start.channel.key_agreement_algo
  pv ←
      dhpart_value env t algo
        (compute_key_agreement_public_value_length env.pk env.ct algo (dhpart_message t))
  let ids = secret_hash_for t start
  let aux = auxsecret_id_for t start
  return (
      dhpart_data (record {
        h1 = start.channel.self_h1;
        rs1_id = ids.rs1_id;
        rs2_id = ids.rs2_id;
        auxsecret_id = aux;
        pbxsecret_id = ids.pbxsecret_id;
        pv = pv;
        mac = zero_bytes 8;
      }))

unfoldable pub create_confirm : Environment → Action MessageData
create_confirm env = do
  iv ← draw env 16
  s ← ask λ s. ok s
  return (
      confirm_data (record {
        confirm_mac = zero_bytes 8;
        cfb_iv = iv;
        h0 = s.channel.self_h0;
        sig_len = 0;
        e = 0;
        v = s.context.previously_verified_sas;
        a = s.context.self_accept_go_clear;
        d = 0;
        cache_expiration_interval = 0xFFFFFFFF;
        signature_block_type = zero_bytes 4;
        signature_block = [];
      }))

-- A GoClear carries a MAC under the key of the sender's role.
unfoldable pub create_go_clear : Environment → Action MessageData
unfolding hmac_of
create_go_clear env = ask λ s. hmac_of env.crypto s.channel (codes "GoClear ")

-- A PingACK answers the Ping that the channel context holds.
unfoldable pub create_ping_ack : Session → Result MessageData
create_ping_ack s = elim s.channel.ping_packet [
  | none ↦ err Error.create_error_invalid_context
  | some p ↦ elim p.message_data [
    | some (ping_data m) ↦ ok (
        ping_ack_data (record {
          version = codes "1.10";
          endpoint_hash = take 8 s.context.self_zid;
          endpoint_hash_received = m.endpoint_hash;
          ssrc = p.source_identifier;
        }))
    | _ ↦ fault
  ]
]

-- The `switch` over the message types: the data of the message, where the message has one.
unfoldable pub create_data : Environment → MessageType → Action (Option MessageData)
unfolding hello_of create_commit create_dhpart create_confirm create_go_clear create_ping_ack
create_data env MessageType.hello = ask λ s. ok (some (hello_data (hello_of s.context s.channel)))
create_data env MessageType.hello_ack = return none
create_data env MessageType.commit = do d ← create_commit env; return (some d)
create_data env MessageType.dhpart1 = do d ← create_dhpart env MessageType.dhpart1; return (some d)
create_data env MessageType.dhpart2 = do d ← create_dhpart env MessageType.dhpart2; return (some d)
create_data env MessageType.confirm1 = do d ← create_confirm env; return (some d)
create_data env MessageType.confirm2 = do d ← create_confirm env; return (some d)
create_data env MessageType.conf2_ack = return none
create_data env MessageType.go_clear = do d ← create_go_clear env; return (some d)
create_data env MessageType.clear_ack = return none
create_data env MessageType.ping_ack = do d ← ask create_ping_ack; return (some d)
create_data env MessageType.fragment = return none
create_data env _ = raise Error.create_error_invalid_message_type

unfoldable pub create_zrtp_packet : Environment → MessageType → Action Packet
unfolding create_data created
create_zrtp_packet env t = do d ← create_data env t; ask λ s. ok (created s.channel.self_ssrc t d)
