-- ===== src/Session.antt =====
-- A channel with all that its state machine reads and writes: the rest of bzrtpContext_t and of
-- bzrtpChannelContext_t (include/typedef.h), and what the library calls and is given from outside.
use bzrtp.Common.{ℕ, Bytes, List, Option, Bool}
use bzrtp.Channel.{Channel, Crypto}
use bzrtp.Context.{Context}
use bzrtp.Algo.Lengths.{KemSizes}
use bzrtp.Secrets.{CachedSecrets, AuxSecretMismatch}
use bzrtp.Timer.{Timer}
pub mod Action

-- The functions that `stateMachine` points to, and NULL for a channel that is not started.
pub data State : Type 0 where
  not_started : State
  discovery_init discovery_waiting_for_hello discovery_waiting_for_hello_ack : State
  key_agreement_sending_commit key_agreement_responder_sending_dhpart1 : State
  key_agreement_initiator_sending_dhpart2 confirmation_responder_sending_confirm1 : State
  confirmation_initiator_sending_confirm2 secure sending_go_clear clear : State

-- bctoolbox and its post quantum module. A private key, a public value and a secret of an algorithm
-- are bytes; the number is that of the random draw. `encaps` gives a cipher text and the secret.
pub record KeyExchange : Type 0 where
  pub is_available : ℕ → Bool
  pub private_key : ℕ → ℕ → Bytes
  pub public_value : ℕ → Bytes → Bytes
  pub compute_secret : ℕ → Bytes → Bytes → Bytes
  pub encaps : ℕ → ℕ → ℕ → Bytes → Bytes × Bytes
  pub decaps : ℕ → ℕ → Bytes → Bytes → Bytes

-- `keyAgreementContext`: the private key, and the shared secret once it is computed.
pub record KeyContext : Type 0 where
  pub private_key : Bytes
  pub hash_algo : ℕ
  pub secret : Option Bytes

-- bzrtpSrtpSecrets_t, without the lengths that go with the byte strings and the incorrect SAS.
pub record SrtpSecrets : Type 0 where
  pub self_srtp_key : Bytes
  pub self_srtp_salt : Bytes
  pub peer_srtp_key : Bytes
  pub peer_srtp_salt : Bytes
  pub cipher_algo : ℕ
  pub cipher_key_length : ℕ
  pub auth_tag_algo : ℕ
  pub sas : Option Bytes
  pub hash_algo : ℕ
  pub key_agreement_algo : ℕ
  pub sas_algo : ℕ
  pub cache_mismatch : ℕ
  pub aux_secret_mismatch : AuxSecretMismatch

-- What the library is given: the value of uninitialised memory, sizes, functions, the callbacks
-- (`none` or `false` for NULL), the random source (draw, length) and what the ZID cache holds on a peer.
pub record Environment : Type 0 where
  pub junk : ℕ
  pub pk : KemSizes
  pub ct : KemSizes
  pub ss : Option KemSizes
  pub crypto : Crypto
  pub key_exchange : KeyExchange
  pub send_data : Option (Bytes → ℕ)
  pub srtp_secrets_available : Bool
  pub start_srtp_session : Bool
  pub random : ℕ → ℕ → Bytes
  pub associated_secrets : Bytes → CachedSecrets
  pub associated_pvs : Bytes → ℕ

-- What the library hands to its environment, in order.
pub data Output : Type 0 where
  sent : Bytes → Output
  secrets_for_receiver : SrtpSecrets → Output
  secrets_for_sender : SrtpSecrets → Output
  session_started : SrtpSecrets → Bool → Output
  cache_written_rs : Bytes → Option Bytes → Output
  cache_written_pvs : ℕ → Output

-- `s0`, `ZRTPSess` and the keys of the cipher are `none` for NULL. `key_agreement_algo` is that of
-- bzrtpContext_t.
pub record Session : Type 0 where
  pub context : Context
  pub channel : Channel
  pub state_machine : State
  pub timer : Timer
  pub is_secure : Bool
  pub is_clear : Bool
  pub is_main_channel : Bool
  pub peer_h0 : Bytes
  pub peer_h1 : Bytes
  pub peer_h2 : Bytes
  pub peer_h3 : Bytes
  pub s0 : Option Bytes
  pub kdf_context : Bytes
  pub srtp_secrets : SrtpSecrets
  pub initiator_auxsecret_id : Bytes
  pub responder_auxsecret_id : Bytes
  pub context_is_secure : Bool
  pub time_reference : ℕ
  pub key_agreement_context : Option KeyContext
  pub key_agreement_algo : ℕ
  pub peer_zid : Bytes
  pub peer_bzrtp_version : ℕ
  pub cached_secret : CachedSecrets
  pub cache_mismatch_flag : ℕ
  pub peer_pvs : ℕ
  pub peer_accept_go_clear : ℕ
  pub transient_aux_secret : Option Bytes
  pub zrtp_sess : Option Bytes
  pub zrtp_sess_context : Bytes
  pub draws : ℕ
  pub outputs : List Output
