-- ===== src/Machine/SharedSecret.antt =====
-- The shared secret of a key agreement when the DHPart of the peer is there (src/stateMachine.c, in the
-- states that take a DHPart1 or a DHPart2).
use bzrtp.Common.{
  ℕ, Bytes, read, Option, none, some, Result, ok, fault, ◌>>=◌, Bool, ◌||◌, if◌then◌else◌, ◌==◌,
}
use bzrtp.Packet.Types.{MessageType}
use bzrtp.Packet.Parser.DhPart.{dhpart_message}
use bzrtp.Algo.{keyagreement_dh2k, keyagreement_dh3k, keyagreement_x255, keyagreement_x448}
use bzrtp.Algo.Lengths.{compute_key_agreement_public_value_length, is_kem}
use bzrtp.Session.{Environment, Session, KeyContext}
use bzrtp.Session.Action.{Action, change}

abbrev pub is_dh_or_ecdh : ℕ → Bool
is_dh_or_ecdh algo =
    algo == keyagreement_dh2k
    || (algo == keyagreement_dh3k || (algo == keyagreement_x255 || algo == keyagreement_x448))

abbrev key_context : Session → Result KeyContext
key_context s = elim s.key_agreement_context [ none ↦ fault | some k ↦ ok k ]

-- `bctbx_DHMComputeSecret`, `bctbx_ECDHComputeSecret`, on as many bytes as the algorithm has.
unfoldable pub exchange_secret : Environment → MessageType → Bytes → Session → Result KeyContext
exchange_secret env t pv s = do
  k ← key_context s
  (peer, rest) ←
      read
        (compute_key_agreement_public_value_length env.pk env.ct s.key_agreement_algo
          (dhpart_message t))
        pv
  ok (record k {
    secret = some (env.key_exchange.compute_secret s.key_agreement_algo k.private_key peer);
  })

-- `bzrtp_KEM_decaps`, by the initiator.
unfoldable pub decapsulate : Environment → Bytes → Session → Result KeyContext
decapsulate env pv s = do
  k ← key_context s
  ok (record k {
    secret = some (env.key_exchange.decaps s.key_agreement_algo k.hash_algo k.private_key pv);
  })

-- A responder has encapsulated the secret of a KEM before.
unfoldable pub new_key_context :
    Environment → MessageType → Bytes → Session → Result (Option KeyContext)
unfolding exchange_secret decapsulate
new_key_context env t pv s =
    if is_dh_or_ecdh s.key_agreement_algo
    then (do k ← exchange_secret env t pv s; ok (some k))
    else if is_kem s.key_agreement_algo
    then (elim t [
      | MessageType.dhpart1 ↦ (do k ← decapsulate env pv s; ok (some k))
      | _ ↦ ok s.key_agreement_context
    ])
    else ok s.key_agreement_context

unfoldable pub with_shared_secret : Environment → MessageType → Bytes → Session → Result Session
unfolding new_key_context
with_shared_secret env t pv s = do
  k ← new_key_context env t pv s
  ok (record s { key_agreement_context = k })

unfoldable pub compute_shared_secret : Environment → MessageType → Bytes → Action (Unit {0})
unfolding with_shared_secret
compute_shared_secret env t pv = change (with_shared_secret env t pv)
