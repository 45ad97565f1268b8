-- ===== src/Context.antt =====
-- The session context bzrtpContext_t (include/typedef.h), as far as the packets, the agreement and the
-- channels use it. A `supported…` array with its count (`kc`, `hc` …) is a list.
use bzrtp.Common.{ℕ, Bytes, List}

-- cachedSecretsHash_t: truncated hashes of the secrets of one role.
pub record CachedSecretsHash : Type 0 where
  pub rs1_id : Bytes
  pub rs2_id : Bytes
  pub pbxsecret_id : Bytes

pub record Context : Type 0 where
  pub mtu : ℕ
  pub self_zid : Bytes
  pub supported_hash : List ℕ
  pub supported_cipher : List ℕ
  pub supported_auth_tag : List ℕ
  pub supported_key_agreement : List ℕ
  pub supported_sas : List ℕ
  pub self_accept_go_clear : ℕ
  pub previously_verified_sas : ℕ
  pub initiator_cached_secret_hash : CachedSecretsHash
  pub responder_cached_secret_hash : CachedSecretsHash
