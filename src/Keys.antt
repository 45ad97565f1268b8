-- ===== src/Keys.antt =====
-- The keys of a call: bzrtp_keyDerivationFunction (src/cryptoUtils.cc), bzrtp_computeS0DHMMode,
-- bzrtp_computeS0MultiStreamMode, bzrtp_deriveKeysFromS0 and bzrtp_deriveSrtpKeysFromS0
-- (src/stateMachine.c). The rendered SAS is under Keys/Srtp.
use bzrtp.Common.{
  ℕ, ◌+◌, ◌*◌, ◌/◌, ◌%◌, Bytes, bytes32, codes, length, read, replicate, take, [], ◌∷◌, ◌++◌,
  Option, none, some, Result, ok, fault, ◌>>=◌, Bool, ◌||◌, if◌then◌else◌, ◌==◌, ltb,
}
use bzrtp.Channel.{Crypto, HashFunction, Channel, Role, initiator, responder}
use bzrtp.Packet.Types.{Packet}
use bzrtp.Packet.Parser.DhPart.{built_message}
use bzrtp.Algo.{
  keyagreement_dh2k, keyagreement_dh3k, keyagreement_x255, keyagreement_x448, unset_algo,
}
use bzrtp.Algo.Lengths.{is_kem}
use bzrtp.Secrets.{CachedSecrets, retained_secret}
use bzrtp.Keys.Lengths.{compute_key_agreement_shared_secret_length}
use bzrtp.Keys.Derivation.{key_derivation_function, call_hash, stored_key}
use bzrtp.Session.{Environment, Session, KeyContext}
pub mod Lengths
pub mod Derivation
pub mod Srtp
pub mod Mirror
pub mod Agreed

-- What is hashed to `totalHash`: Hello of the responder, Commit, DHPart1, DHPart2.
unfoldable pub dhm_transcript : Role → Channel → Result Bytes
dhm_transcript responder ch = do
  hello ← built_message ch.self_packets.hello
  commit ← built_message ch.peer_packets.commit
  dhpart1 ← built_message ch.self_packets.dhpart
  dhpart2 ← built_message ch.peer_packets.dhpart
  ok (hello ++ (commit ++ (dhpart1 ++ dhpart2)))
dhm_transcript initiator ch = do
  hello ← built_message ch.peer_packets.hello
  commit ← built_message ch.self_packets.commit
  dhpart1 ← built_message ch.peer_packets.dhpart
  dhpart2 ← built_message ch.self_packets.dhpart
  ok (hello ++ (commit ++ (dhpart1 ++ dhpart2)))

-- In multistream mode: Hello of the responder, Commit. Their length together is a uint16_t.
unfoldable pub two_messages : Option Packet → Option Packet → Result Bytes
two_messages p q = do
  hello ← built_message p
  commit ← built_message q
  if ltb (length hello + length commit) 65536 then ok (hello ++ commit) else fault

unfoldable pub multistream_transcript : Role → Channel → Result Bytes
unfolding two_messages
multistream_transcript responder ch = two_messages ch.self_packets.hello ch.peer_packets.commit
multistream_transcript initiator ch = two_messages ch.peer_packets.hello ch.self_packets.commit

-- `ZIDi` followed by `ZIDr`.
unfoldable pub zids : Role → Bytes → Bytes → Bytes
zids responder self_zid peer_zid = peer_zid ++ self_zid
zids initiator self_zid peer_zid = self_zid ++ peer_zid

-- `ZRTPSessContext` of 24 bytes: both calls of memcpy write its first twelve.
unfoldable pub session_context : Role → Bytes → Bytes → Bytes → Bytes
session_context initiator self_zid peer_zid old = peer_zid
session_context responder self_zid peer_zid old = self_zid

-- KDFContext: the ZIDs and the total hash.
unfoldable pub compute_kdf_context : Crypto → Session → Bytes → Result Bytes
unfolding call_hash zids
compute_kdf_context c s transcript = do
  total_hash ← call_hash c s.channel.hash_function transcript s.channel.hash_length
  ok (zids s.channel.role s.context.self_zid s.peer_zid ++ total_hash)

-- The key agreements of bctoolbox whose context holds the shared secret.
abbrev pub has_key_context : ℕ → Bool
has_key_context algo =
    algo == keyagreement_dh2k
    || (algo == keyagreement_dh3k
        || (algo == keyagreement_x255 || (algo == keyagreement_x448 || is_kem algo)))

unfoldable pub shared_secret : Option KeyContext → ℕ → Result Bytes
shared_secret none n = fault
shared_secret (some k) n = elim k.secret [
  | none ↦ fault
  | some secret ↦ do (secret, rest) ← read n secret; ok secret
]

-- DHResult. The length goes by the algorithm of the channel, the secret by that of the context.
unfoldable pub dh_result : Environment → Session → Result Bytes
unfolding shared_secret compute_key_agreement_shared_secret_length
dh_result env s =
    let n =
      compute_key_agreement_shared_secret_length env.ss s.channel.key_agreement_algo
        s.channel.hash_length in
    if has_key_context s.key_agreement_algo
    then shared_secret s.key_agreement_context n
    else ok (replicate n env.junk)

-- The length of a secret and the secret, where there is one.
unfoldable pub counted_secret : Option Bytes → Bytes
counted_secret none = bytes32 0
counted_secret (some secret) = bytes32 (length secret) ++ secret

unfoldable pub s0_input : Bytes → Bytes → CachedSecrets → Bytes
unfolding counted_secret
s0_input result kdf_context secrets =
    0
    ∷ 0
    ∷ 0
    ∷ 1
    ∷ (result
        ++ (codes "ZRTP-HMAC-KDF"
            ++ (kdf_context
                ++ (counted_secret (retained_secret secrets)
                    ++ (counted_secret secrets.auxsecret ++ counted_secret secrets.pbxsecret)))))

-- The MAC keys and the keys of the Confirm messages.
pub record ConfirmKeys : Type 0 where
  pub mackeyi : Bytes
  pub mackeyr : Bytes
  pub zrtpkeyi : Bytes
  pub zrtpkeyr : Bytes

unfoldable pub confirm_keys : Crypto → Channel → Bytes → Bytes → Result ConfirmKeys
unfolding key_derivation_function
confirm_keys c ch s0 kdf_context = do
  mackeyi ←
      key_derivation_function c ch.hmac_function s0 (codes "Initiator HMAC key") kdf_context
        ch.hash_length
  mackeyr ←
      key_derivation_function c ch.hmac_function s0 (codes "Responder HMAC key") kdf_context
        ch.hash_length
  zrtpkeyi ←
      key_derivation_function c ch.hmac_function s0 (codes "Initiator ZRTP key") kdf_context
        ch.cipher_key_length
  zrtpkeyr ←
      key_derivation_function c ch.hmac_function s0 (codes "Responder ZRTP key") kdf_context
        ch.cipher_key_length
  ok (record { mackeyi = mackeyi; mackeyr = mackeyr; zrtpkeyi = zrtpkeyi; zrtpkeyr = zrtpkeyr })

abbrev pub with_confirm_keys : ConfirmKeys → Session → Session
with_confirm_keys k s = record s {
  channel = record s.channel {
    mackeyi = some k.mackeyi;
    mackeyr = some k.mackeyr;
    zrtpkeyi = some k.zrtpkeyi;
    zrtpkeyr = some k.zrtpkeyr;
  };
}

unfoldable pub derive_keys_from_s0 : Crypto → Bytes → Session → Result Session
derive_keys_from_s0 c s0 s = do
  keys ← confirm_keys c s.channel s0 s.kdf_context
  ok (with_confirm_keys keys s)

-- KDFContext, s0 and ZRTPSess.
pub record MasterSecrets : Type 0 where
  pub kdf_context : Bytes
  pub s0 : Bytes
  pub zrtp_sess : Bytes

unfoldable pub dhm_secrets : Environment → Session → Result MasterSecrets
dhm_secrets env s = do
  let ch = s.channel
  transcript ← dhm_transcript ch.role ch
  kdf_context ← compute_kdf_context env.crypto s transcript
  result ← dh_result env s
  s0 ←
      call_hash env.crypto ch.hash_function (s0_input result kdf_context s.cached_secret)
        ch.hash_length
  zrtp_sess ←
      key_derivation_function env.crypto ch.hmac_function s0 (codes "ZRTP Session Key") kdf_context
        ch.hash_length
  ok (record { kdf_context = kdf_context; s0 = s0; zrtp_sess = zrtp_sess })

-- The key agreement context is destroyed.
abbrev pub with_master_secrets : MasterSecrets → Session → Session
with_master_secrets m s = record s {
  kdf_context = m.kdf_context;
  s0 = some m.s0;
  zrtp_sess = some m.zrtp_sess;
  zrtp_sess_context =
      session_context s.channel.role s.context.self_zid s.peer_zid s.zrtp_sess_context;
  key_agreement_context = none;
  key_agreement_algo = unset_algo;
}

unfoldable pub compute_s0_dhm_mode : Environment → Session → Result Session
compute_s0_dhm_mode env s = do
  m ← dhm_secrets env s
  derive_keys_from_s0 env.crypto m.s0 (with_master_secrets m s)

unfoldable pub multistream_secrets : Environment → Session → Result MasterSecrets
multistream_secrets env s = do
  let ch = s.channel
  transcript ← multistream_transcript ch.role ch
  kdf_context ← compute_kdf_context env.crypto s transcript
  zrtp_sess ← stored_key s.zrtp_sess
  s0 ←
      key_derivation_function env.crypto ch.hmac_function zrtp_sess (codes "ZRTP MSK") kdf_context
        ch.hash_length
  ok (record { kdf_context = kdf_context; s0 = s0; zrtp_sess = zrtp_sess })

unfoldable pub compute_s0_multistream_mode : Environment → Session → Result Session
compute_s0_multistream_mode env s = do
  m ← multistream_secrets env s
  derive_keys_from_s0 env.crypto m.s0 (record s { kdf_context = m.kdf_context; s0 = some m.s0 })
