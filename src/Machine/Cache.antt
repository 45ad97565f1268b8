-- ===== src/Machine/Cache.antt =====
-- The secrets of the ZID cache in the state machine: their identifiers when a Hello arrives, the checks
-- when a DHPart arrives, and the retained secret of the next call (src/stateMachine.c).
use bzrtp.Common.{
  [], Bytes, codes, ◌++◌, Option, none, some, Result, ok, fault, if◌then◌else◌, ◌==◌,
}
use bzrtp.Channel.{HashFunction}
use bzrtp.Context.{CachedSecretsHash}
use bzrtp.Packet.Types.{DhPartMessage}
use bzrtp.Algo.{keyagreement_mult, keyagreement_prsh}
use bzrtp.Secrets.{Matched, cached_secret_hash, secret_id, initiator_match, responder_match}
use bzrtp.Keys.Derivation.{key_derivation_function, stored_key}
use bzrtp.Session.{Environment, Session, cache_written_pvs, cache_written_rs}
use bzrtp.Session.Action.{Action, return, ask, ◌>>=◌, ◌>>◌, modify, output, draw}

-- The HMAC function that the agreement has set.
hmac_function_of : Session → Result HashFunction
hmac_function_of s = elim s.channel.hmac_function [ none ↦ fault | some f ↦ ok f ]

-- Eight random bytes stand for the identifier of a secret that is not there.
unfoldable pub draw_unless : Environment → Option Bytes → Action Bytes
draw_unless env none = draw env 8
draw_unless env (some secret) = return []

-- bzrtp_getPeerAssociatedSecrets, where the context has no rs1 yet.
unfoldable pub load_secrets : Environment → Bytes → Option Bytes → Session → Session
load_secrets env zid (some rs1) s = s
load_secrets env zid none s = record s {
  cached_secret = env.associated_secrets zid;
  context = record s.context { previously_verified_sas = env.associated_pvs zid };
}

unfoldable pub get_peer_associated_secrets : Environment → Bytes → Session → Session
unfolding load_secrets
get_peer_associated_secrets env zid s = load_secrets env zid s.cached_secret.rs1 s

-- The identifiers of a secret for both roles are drawn or computed together.
abbrev set_hashes : CachedSecretsHash → CachedSecretsHash → Session → Session
set_hashes i r s = record s {
  context = record s.context { initiator_cached_secret_hash = i; responder_cached_secret_hash = r };
}

unfoldable pub compute_secret_hashes : Environment → Action (Unit {0})
unfolding hmac_function_of draw_unless
compute_secret_hashes env = do
  secrets ← ask λ s. ok s.cached_secret
  f ← ask hmac_function_of
  i1 ← draw_unless env secrets.rs1
  r1 ← draw_unless env secrets.rs1
  i2 ← draw_unless env secrets.rs2
  r2 ← draw_unless env secrets.rs2
  i3 ← draw_unless env secrets.pbxsecret
  r3 ← draw_unless env secrets.pbxsecret
  modify (
      set_hashes (cached_secret_hash env.crypto f (codes "Initiator") i1 i2 i3 secrets)
        (cached_secret_hash env.crypto f (codes "Responder") r1 r2 r3 secrets))

-- A transient secret is appended to that of the cache.
unfoldable pub join_auxsecret : Option Bytes → Option Bytes → Option Bytes
join_auxsecret cached none = cached
join_auxsecret none (some transient) = some transient
join_auxsecret (some cached) (some transient) = some (cached ++ transient)

-- The identifier of the auxiliary secret is keyed to the H3 of a side.
unfoldable pub compute_auxsecret_ids : Environment → Action (Unit {0})
unfolding hmac_function_of draw_unless join_auxsecret
compute_auxsecret_ids env = do
  modify λ s. record s {
    cached_secret = record s.cached_secret {
      auxsecret = join_auxsecret s.cached_secret.auxsecret s.transient_aux_secret;
    };
  }
  aux ← ask λ s. ok s.cached_secret.auxsecret
  f ← ask hmac_function_of
  i ← draw_unless env aux
  r ← draw_unless env aux
  modify λ s. record s {
    initiator_auxsecret_id = secret_id env.crypto f s.channel.self_h3 i aux;
    responder_auxsecret_id = secret_id env.crypto f s.peer_h3 r aux;
  }

abbrev matched_of : Session → Matched
matched_of s = record {
  secrets = s.cached_secret;
  cache_mismatch_flag = s.cache_mismatch_flag;
  aux_secret_mismatch = s.srtp_secrets.aux_secret_mismatch;
}

abbrev with_matched : Matched → Session → Session
with_matched r s = record s {
  cached_secret = r.secrets;
  cache_mismatch_flag = r.cache_mismatch_flag;
  srtp_secrets = record s.srtp_secrets { aux_secret_mismatch = r.aux_secret_mismatch };
}

-- A cache mismatch resets the flag that the SAS was verified, in the context and in the cache.
unfoldable pub reset_pvs_on_mismatch : Action (Unit {0})
reset_pvs_on_mismatch = do
  s ← ask λ s. ok s
  if s.cache_mismatch_flag == 1
      then (do
        modify λ s. record s { context = record s.context { previously_verified_sas = 0 } }
        output (cache_written_pvs 0))
      else return tt

-- The checks of a DHPart1 by the initiator, and of a DHPart2 by the responder.
unfoldable pub match_dhpart1 : DhPartMessage → Action (Unit {0})
unfolding reset_pvs_on_mismatch
match_dhpart1 m = do
  modify λ s.
      with_matched
        (initiator_match s.context.responder_cached_secret_hash s.responder_auxsecret_id m
          (matched_of s))
        s
  reset_pvs_on_mismatch

unfoldable pub match_dhpart2 : DhPartMessage → Action (Unit {0})
unfolding reset_pvs_on_mismatch
match_dhpart2 m = do
  modify λ s.
      with_matched
        (responder_match s.context.initiator_cached_secret_hash s.initiator_auxsecret_id m
          (matched_of s))
        s
  reset_pvs_on_mismatch

-- bzrtp_updateCachedSecrets past its early returns: rs1 becomes rs2, and a new rs1 is derived.
unfoldable pub renew_retained_secret : Environment → Action (Unit {0})
renew_retained_secret env = do
  s ← ask λ s. ok s
  s0 ← ask λ s. stored_key s.s0
  rs1 ← ask λ s.
      key_derivation_function env.crypto s.channel.hmac_function s0 (codes "retained secret")
        s.kdf_context 32
  let rs2 = if s.channel.key_agreement_algo == keyagreement_prsh then none else s.cached_secret.rs1
  output (cache_written_rs rs1 rs2)
  modify λ s. record s {
    s0 = none;
    cached_secret = record { rs1 = none; rs2 = none; auxsecret = none; pbxsecret = none };
  }

unfoldable pub update_cached_secrets : Environment → Action (Unit {0})
unfolding renew_retained_secret
update_cached_secrets env = do
  s ← ask λ s. ok s
  if s.channel.key_agreement_algo == keyagreement_mult
      then (modify λ s. record s { s0 = none })
      else if s.cache_mismatch_flag == 1
      then return tt
      else renew_retained_secret env
