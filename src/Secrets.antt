-- ===== src/Secrets.antt =====
-- The secrets that two endpoints retained from earlier calls: their identifiers in the DHPart messages
-- (bzrtp_responseToHelloMessage) and the checks of the peer's identifiers, by the initiator
-- (state_keyAgreement_sendingCommit) and by the responder (state_keyAgreement_responderSendingDHPart1),
-- all of src/stateMachine.c.
use bzrtp.Common.{
  ℕ, Bytes, codes, List, ◌++◌, Option, none, some, Bool, true, false, if◌then◌else◌, ◌==◌, bytes_eq,
}
use bzrtp.Packet.Types.{DhPartMessage}
use bzrtp.Channel.{Crypto, HashFunction}
use bzrtp.Context.{CachedSecretsHash}
pub mod Kept
pub mod Matching

-- cachedSecrets_t; `none` is NULL. `previouslyVerifiedSas` is the field of Context.
pub record CachedSecrets : Type 0 where
  pub rs1 : Option Bytes
  pub rs2 : Option Bytes
  pub auxsecret : Option Bytes
  pub pbxsecret : Option Bytes

-- BZRTP_AUXSECRET_UNSET, BZRTP_AUXSECRET_MATCH, BZRTP_AUXSECRET_MISMATCH.
pub data AuxSecretMismatch : Type 0 where
  auxsecret_unset auxsecret_match auxsecret_mismatch : AuxSecretMismatch

-- What the checks change: the secrets, `cacheMismatchFlag` and `auxSecretMismatch`.
pub record Matched : Type 0 where
  pub secrets : CachedSecrets
  pub cache_mismatch_flag : ℕ
  pub aux_secret_mismatch : AuxSecretMismatch

-- The identifier of a secret for a role; random bytes where there is no secret.
unfoldable pub secret_id : Crypto → HashFunction → Bytes → Bytes → Option Bytes → Bytes
secret_id c f label random none = random
secret_id c f label random (some secret) = c.hmac f secret label 8

-- The three random strings stand for those of bctbx_rng_get.
unfoldable pub cached_secret_hash :
    Crypto → HashFunction → Bytes → Bytes → Bytes → Bytes → CachedSecrets → CachedSecretsHash
unfolding secret_id
cached_secret_hash c f label random1 random2 random3 s = record {
  rs1_id = secret_id c f label random1 s.rs1;
  rs2_id = secret_id c f label random2 s.rs2;
  pbxsecret_id = secret_id c f label random3 s.pbxsecret;
}

abbrev erase_rs1 : Matched → Matched
erase_rs1 r = record r { secrets = record r.secrets { rs1 = none } }

abbrev erase_rs2 : Matched → Matched
erase_rs2 r = record r { secrets = record r.secrets { rs2 = none } }

-- The initiator keeps rs1 where it is a secret of the responder.
unfoldable pub initiator_match_rs1 : CachedSecretsHash → DhPartMessage → Matched → Matched
initiator_match_rs1 ids m r = elim r.secrets.rs1 [
  | none ↦ r
  | some secret ↦
      if bytes_eq ids.rs1_id m.rs1_id
      then r
      else if bytes_eq ids.rs1_id m.rs2_id
      then r
      else record (erase_rs1 r) { cache_mismatch_flag = 1 }
]

-- Else it turns to rs2.
unfoldable pub initiator_match_rs2 : CachedSecretsHash → DhPartMessage → Matched → Matched
initiator_match_rs2 ids m r =
    if r.cache_mismatch_flag == 1
    then (elim r.secrets.rs2 [
      | none ↦ r
      | some secret ↦
          if bytes_eq ids.rs2_id m.rs1_id
          then record r { cache_mismatch_flag = 0 }
          else if bytes_eq ids.rs2_id m.rs2_id
          then record r { cache_mismatch_flag = 0 }
          else erase_rs2 r
    ])
    else r

-- The responder against the initiator's rs1; the flag is `cacheMatchFlag`.
unfoldable pub responder_match_rs1 : CachedSecretsHash → DhPartMessage → Matched → Matched × Bool
responder_match_rs1 ids m r = elim r.secrets.rs1 [
  | none ↦ (r, false)
  | some secret ↦ if bytes_eq ids.rs1_id m.rs1_id then (r, true) else (elim r.secrets.rs2 [
    | none ↦ (r, false)
    | some other ↦ if bytes_eq ids.rs2_id m.rs1_id then (erase_rs1 r, true) else (r, false)
  ])
]

-- The responder's rs2 against the initiator's rs2, when rs1 is erased.
unfoldable pub responder_match_last : CachedSecretsHash → DhPartMessage → Matched → Matched
responder_match_last ids m r = elim r.secrets.rs2 [
  | none ↦ record r { cache_mismatch_flag = 1 }
  | some secret ↦
      if bytes_eq ids.rs2_id m.rs2_id then r else record (erase_rs2 r) { cache_mismatch_flag = 1 }
]

-- The responder against the initiator's rs2, where there was no match yet.
unfoldable pub responder_match_rs2 : CachedSecretsHash → DhPartMessage → Matched × Bool → Matched
unfolding responder_match_last
responder_match_rs2 ids m (r, true) = r
responder_match_rs2 ids m (r, false) = elim r.secrets.rs1 [
  | none ↦ r
  | some secret ↦
      if bytes_eq ids.rs1_id m.rs2_id then r else responder_match_last ids m (erase_rs1 r)
]

-- An auxiliary secret is kept where the peer has it.
unfoldable pub match_auxsecret : Bytes → DhPartMessage → Matched → Matched
match_auxsecret auxsecret_id m r = elim r.secrets.auxsecret [
  | none ↦ r
  | some secret ↦
      if bytes_eq auxsecret_id m.auxsecret_id
      then record r { aux_secret_mismatch = auxsecret_match }
      else record r {
        secrets = record r.secrets { auxsecret = none };
        aux_secret_mismatch = auxsecret_mismatch;
      }
]

unfoldable pub match_pbxsecret : CachedSecretsHash → DhPartMessage → Matched → Matched
match_pbxsecret ids m r = elim r.secrets.pbxsecret [
  | none ↦ r
  | some secret ↦
      if bytes_eq ids.pbxsecret_id m.pbxsecret_id
      then r
      else record r { secrets = record r.secrets { pbxsecret = none } }
]

-- The checks of a DHPart1: `ids` and `auxsecret_id` are those of the responder, as self computes them.
unfoldable pub initiator_match : CachedSecretsHash → Bytes → DhPartMessage → Matched → Matched
unfolding initiator_match_rs1 initiator_match_rs2 match_auxsecret match_pbxsecret
initiator_match ids auxsecret_id m r =
    match_pbxsecret ids m
      (match_auxsecret auxsecret_id m (initiator_match_rs2 ids m (initiator_match_rs1 ids m r)))

-- The checks of a DHPart2, with the identifiers of the initiator.
unfoldable pub responder_match : CachedSecretsHash → Bytes → DhPartMessage → Matched → Matched
unfolding responder_match_rs1 responder_match_rs2 match_auxsecret match_pbxsecret
responder_match ids auxsecret_id m r =
    match_pbxsecret ids m
      (match_auxsecret auxsecret_id m (responder_match_rs2 ids m (responder_match_rs1 ids m r)))

-- s1 of the key derivation: rs1, or else rs2.
unfoldable pub retained_secret : CachedSecrets → Option Bytes
retained_secret s = elim s.rs1 [ none ↦ s.rs2 | some secret ↦ some secret ]
