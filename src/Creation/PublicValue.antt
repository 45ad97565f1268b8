-- ===== src/Creation/PublicValue.antt =====
-- The public values that bzrtp_createZrtpPacket (src/packetParser.c) asks of bctoolbox and of its post
-- quantum module.
use bzrtp.Common.{◌+◌, ℕ, Bytes, read, [], none, some, ok, Error, ◌||◌, if◌then◌else◌, ◌==◌}
use bzrtp.Packet.Types.{MessageType}
use bzrtp.Packet.Parser.Commit.{commit_pv_length}
use bzrtp.Algo.{keyagreement_dh2k, keyagreement_dh3k, keyagreement_x255, keyagreement_x448}
use bzrtp.Algo.Lengths.{is_kem}
use bzrtp.Session.{Environment}
use bzrtp.Session.Action.{Action, return, raise, ask, ◌>>=◌, ◌>>◌, modify, require, draw}
use bzrtp.Creation.Data.{padded_value, peer_commit_pv}

-- bctbx_DHMCreatePublic and bctbx_ECDHCreateKeyPair: the private key is kept in the context.
unfoldable pub start_key_exchange : Environment → ℕ → ℕ → Action Bytes
start_key_exchange env algo pv_length = do
  require (env.key_exchange.is_available algo) Error.create_error_unable_to_create_crypto_context
  private ← ask λ s. ok (env.key_exchange.private_key algo s.draws)
  modify λ s. record s {
    draws = s.draws + 1;
    key_agreement_context = some (record { private_key = private; hash_algo = 0; secret = none });
    key_agreement_algo = algo;
  }
  (pv, rest) ← ask λ s. read pv_length (env.key_exchange.public_value algo private)
  return pv

-- The KEM of a Commit: the public key, padded with zeros; a missing engine leaves no public value.
unfoldable pub commit_public_key : Environment → ℕ → Action Bytes
unfolding padded_value
commit_public_key env algo =
    if env.key_exchange.is_available algo
    then (do
      private ← ask λ s. ok (env.key_exchange.private_key algo s.draws)
      pv ← ask λ s.
          padded_value (commit_pv_length env.pk env.ct algo)
            (env.key_exchange.public_value algo private)
      modify λ s. record s {
        draws = s.draws + 1;
        key_agreement_context =
            some (record { private_key = private; hash_algo = s.channel.hash_algo; secret = none });
        key_agreement_algo = algo;
      }
      return pv)
    else return []

-- A DHPart1 of a KEM: a secret is encapsulated for the public key in the Commit of the peer.
unfoldable pub kem_cipher_text : Environment → ℕ → ℕ → Action Bytes
unfolding padded_value peer_commit_pv
kem_cipher_text env algo pv_length = do
  require (env.key_exchange.is_available algo) Error.create_error_unable_to_create_crypto_context
  peer_pv ← ask λ s. peer_commit_pv s.channel.peer_packets.commit
  made ← ask λ s. ok (env.key_exchange.encaps algo s.channel.hash_algo s.draws peer_pv)
  modify λ s. record s {
    draws = s.draws + 1;
    key_agreement_context =
        some (record { private_key = []; hash_algo = s.channel.hash_algo; secret = some made.1 });
    key_agreement_algo = algo;
  }
  ask λ s. padded_value pv_length made.0

-- The public value of a DHPart; that of a DHPart2 in a KEM mode is a nonce.
unfoldable pub dhpart_value : Environment → MessageType → ℕ → ℕ → Action Bytes
unfolding start_key_exchange kem_cipher_text
dhpart_value env t algo pv_length =
    if algo == keyagreement_dh2k
      || (algo == keyagreement_dh3k || (algo == keyagreement_x255 || algo == keyagreement_x448))
    then start_key_exchange env algo pv_length
    else if is_kem algo
    then (elim t [
      | MessageType.dhpart1 ↦ kem_cipher_text env algo pv_length
      | _ ↦ draw env pv_length
    ])
    else raise Error.create_error_unable_to_create_crypto_context
