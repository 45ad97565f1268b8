-- ===== src/Keys/Srtp.antt =====
-- bzrtp_deriveSrtpKeysFromS0 (src/stateMachine.c): the keys and salts of SRTP, and the SAS.
use bzrtp.Common.{
  ℕ, Bytes, be32, get_or, codes, Option, none, some, Result, ok, fault, ◌>>=◌, if◌then◌else◌, ◌==◌,
}
use bzrtp.Channel.{Crypto, Channel, Role, initiator, responder, SasFunction}
use bzrtp.Algo.{keyagreement_mult, authtag_gcm}
use bzrtp.Sas.{call_sas_function}
use bzrtp.Session.{Session, SrtpSecrets}
use bzrtp.Keys.Derivation.{key_derivation_function, stored_key}

-- Initiator and responder keys and salts.
pub record SrtpKeys : Type 0 where
  pub srtpkeyi : Bytes
  pub srtpsalti : Bytes
  pub srtpkeyr : Bytes
  pub srtpsaltr : Bytes

abbrev pub srtp_salt_length : Channel → ℕ
srtp_salt_length ch = if ch.auth_tag_algo == authtag_gcm then 12 else 14

unfoldable pub compute_srtp_keys : Crypto → Bytes → Bytes → Channel → Result SrtpKeys
unfolding key_derivation_function
compute_srtp_keys c s0 kdf_context ch = do
  srtpkeyi ←
      key_derivation_function c ch.hmac_function s0 (codes "Initiator SRTP master key") kdf_context
        ch.cipher_key_length
  srtpsalti ←
      key_derivation_function c ch.hmac_function s0 (codes "Initiator SRTP master salt") kdf_context
        (srtp_salt_length ch)
  srtpkeyr ←
      key_derivation_function c ch.hmac_function s0 (codes "Responder SRTP master key") kdf_context
        ch.cipher_key_length
  srtpsaltr ←
      key_derivation_function c ch.hmac_function s0 (codes "Responder SRTP master salt") kdf_context
        (srtp_salt_length ch)
  ok (record {
    srtpkeyi = srtpkeyi;
    srtpsalti = srtpsalti;
    srtpkeyr = srtpkeyr;
    srtpsaltr = srtpsaltr;
  })

-- Self encrypts with the keys of its role, and decrypts with those of the other.
unfoldable pub assign_keys : Role → SrtpKeys → SrtpSecrets → SrtpSecrets
assign_keys initiator k secrets = record secrets {
  self_srtp_key = k.srtpkeyi;
  self_srtp_salt = k.srtpsalti;
  peer_srtp_key = k.srtpkeyr;
  peer_srtp_salt = k.srtpsaltr;
}
assign_keys responder k secrets = record secrets {
  self_srtp_key = k.srtpkeyr;
  self_srtp_salt = k.srtpsaltr;
  peer_srtp_key = k.srtpkeyi;
  peer_srtp_salt = k.srtpsalti;
}

unfoldable pub describe_algos : Channel → SrtpSecrets → SrtpSecrets
describe_algos ch secrets = record secrets {
  cipher_algo = ch.cipher_algo;
  cipher_key_length = ch.cipher_key_length;
  auth_tag_algo = ch.auth_tag_algo;
  hash_algo = ch.hash_algo;
  key_agreement_algo = ch.key_agreement_algo;
  sas_algo = ch.sas_algo;
}

-- `sasFunction`, which may be NULL.
unfoldable pub pointed : Option SasFunction → Result SasFunction
pointed none = fault
pointed (some f) = ok f

abbrev sas_value : Bytes → ℕ
sas_value h = be32 (get_or h 0 0) (get_or h 1 0) (get_or h 2 0) (get_or h 3 0)

-- The rendered SAS, of the first four bytes of its hash.
unfoldable pub compute_sas : Crypto → Bytes → Bytes → Channel → Result Bytes
compute_sas c s0 kdf_context ch = do
  sas_hash ← key_derivation_function c ch.hmac_function s0 (codes "SAS") kdf_context 32
  f ← pointed ch.sas_function
  call_sas_function f (sas_value sas_hash) ch.sas_length

-- There is no SAS in multistream mode.
unfoldable pub add_sas : Crypto → Bytes → Session → SrtpSecrets → Result SrtpSecrets
add_sas c s0 s secrets =
    if s.channel.key_agreement_algo == keyagreement_mult then ok secrets else (do
      sas ← compute_sas c s0 s.kdf_context s.channel
      ok (record secrets {
        sas = some sas;
        cache_mismatch = if s.cache_mismatch_flag == 0 then secrets.cache_mismatch else 1;
      }))

unfoldable pub derive_srtp_keys_from_s0 : Crypto → Session → Result Session
derive_srtp_keys_from_s0 c s = do
  s0 ← stored_key s.s0
  keys ← compute_srtp_keys c s0 s.kdf_context s.channel
  secrets ←
      add_sas c s0 s (describe_algos s.channel (assign_keys s.channel.role keys s.srtp_secrets))
  ok (record s { srtp_secrets = secrets })
