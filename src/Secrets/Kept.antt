-- ===== src/Secrets/Kept.antt =====
-- What initiator and responder keep of rs1 and rs2 (src/stateMachine.c).
use bzrtp.Common.{
  Bytes, Option, none, some, Bool, true, false, if◌then◌else◌, bytes_eq, bytes_eq_iff, ◌≡◌, refl,
  arith, ap,
}
use bzrtp.Packet.Types.{DhPartMessage}
use bzrtp.Context.{CachedSecretsHash}
use bzrtp.Secrets.{
  CachedSecrets, Matched, auxsecret_unset, initiator_match_rs1, initiator_match_rs2,
  responder_match_rs1, responder_match_rs2, responder_match_last, retained_secret,
}

-- Both hold a secret, and it is the same.
unfoldable pub same_secret : Option Bytes → Option Bytes → Bool
same_secret none t = false
same_secret (some x) none = false
same_secret (some x) (some y) = bytes_eq x y

-- The identifiers of one side coincide with those in the other side's DHPart just where the secrets
-- do: random identifiers meet no other, and an HMAC of eight bytes does not collide.
pub record Recognises (ids : CachedSecretsHash) (auxsecret_id : Bytes) (m : DhPartMessage)
    (s t : CachedSecrets) : Type 0 where
  pub first_first : bytes_eq ids.rs1_id m.rs1_id ≡ same_secret s.rs1 t.rs1
  pub first_second : bytes_eq ids.rs1_id m.rs2_id ≡ same_secret s.rs1 t.rs2
  pub second_first : bytes_eq ids.rs2_id m.rs1_id ≡ same_secret s.rs2 t.rs1
  pub second_second : bytes_eq ids.rs2_id m.rs2_id ≡ same_secret s.rs2 t.rs2
  pub auxiliary : bytes_eq auxsecret_id m.auxsecret_id ≡ same_secret s.auxsecret t.auxsecret
  pub pbx : bytes_eq ids.pbxsecret_id m.pbxsecret_id ≡ same_secret s.pbxsecret t.pbxsecret

-- The cache never holds rs2 alone.
unfoldable pub IsCache : CachedSecrets → Type 0
IsCache s = s.rs1 ≡ none → s.rs2 ≡ none

-- What a side starts with.
abbrev pub unmatched : CachedSecrets → Matched
unmatched s = record { secrets = s; cache_mismatch_flag = 0; aux_secret_mismatch = auxsecret_unset }

-- What the two checks keep, in terms of the secrets alone.
abbrev pub kept_by_initiator :
    Option Bytes → Option Bytes → Option Bytes → Option Bytes → Option Bytes
kept_by_initiator a1 a2 b1 b2 =
    if same_secret a1 b1
    then a1
    else if same_secret a1 b2
    then a1
    else if same_secret a2 b1
    then a2
    else if same_secret a2 b2
    then a2
    else none

abbrev pub kept_by_responder :
    Option Bytes → Option Bytes → Option Bytes → Option Bytes → Option Bytes
kept_by_responder b1 b2 a1 a2 =
    if same_secret b1 a1
    then b1
    else if same_secret b2 a1
    then b2
    else if same_secret b1 a2
    then b1
    else if same_secret b2 a2
    then b2
    else none

pub same_secret_eq : (s t : Option Bytes) → same_secret s t ≡ true → s ≡ t
unfolding same_secret
same_secret_eq none t h = cc
same_secret_eq (some x) none h = cc
same_secret_eq (some x) (some y) h = ap some ((bytes_eq_iff x y).0 h)

bytes_eq_comm : (xs ys : Bytes) → bytes_eq xs ys ≡ bytes_eq ys xs
bytes_eq_comm xs ys = ground (arith, bytes_eq_iff xs ys, bytes_eq_iff ys xs)

pub same_secret_comm : (s t : Option Bytes) → same_secret s t ≡ same_secret t s
unfolding same_secret
same_secret_comm none none = refl
same_secret_comm none (some y) = refl
same_secret_comm (some x) none = refl
same_secret_comm (some x) (some y) = bytes_eq_comm x y

pub kept_alike :
    (a1 a2 b1 b2 : Option Bytes) → kept_by_initiator a1 a2 b1 b2 ≡ kept_by_responder b1 b2 a1 a2
kept_alike a1 a2 b1 b2 = ground (
  arith,
  same_secret_comm a1 b1,
  same_secret_comm a1 b2,
  same_secret_comm a2 b1,
  same_secret_comm a2 b2,
  same_secret_eq a1 b1,
  same_secret_eq a1 b2,
  same_secret_eq a2 b1,
  same_secret_eq a2 b2,
)

pub initiator_kept :
    (ids : CachedSecretsHash) (aux : Bytes) (m : DhPartMessage) (a1 a2 a3 a4 : Option Bytes)
    (b : CachedSecrets)
    → let a : CachedSecrets = record { rs1 = a1; rs2 = a2; auxsecret = a3; pbxsecret = a4 } in
      IsCache a
      → Recognises ids aux m a b
      → retained_secret
          (initiator_match_rs2 ids m (initiator_match_rs1 ids m (unmatched a))).secrets
        ≡ kept_by_initiator a1 a2 b.rs1 b.rs2
unfolding retained_secret initiator_match_rs1 initiator_match_rs2 IsCache same_secret
initiator_kept ids aux m none none a3 a4 b v r = refl
initiator_kept ids aux m none (some x) a3 a4 b v r = cc (v refl)
initiator_kept ids aux m (some x) none a3 a4 b v r = ground arith
initiator_kept ids aux m (some x) (some y) a3 a4 b v r = ground arith

pub responder_kept :
    (ids : CachedSecretsHash) (aux : Bytes) (m : DhPartMessage) (b1 b2 b3 b4 : Option Bytes)
    (a : CachedSecrets)
    → let b : CachedSecrets = record { rs1 = b1; rs2 = b2; auxsecret = b3; pbxsecret = b4 } in
      IsCache b
      → Recognises ids aux m b a
      → retained_secret
          (responder_match_rs2 ids m (responder_match_rs1 ids m (unmatched b))).secrets
        ≡ kept_by_responder b1 b2 a.rs1 a.rs2
unfolding retained_secret responder_match_rs1 responder_match_rs2 responder_match_last IsCache
    same_secret
responder_kept ids aux m none none b3 b4 a v r = refl
responder_kept ids aux m none (some x) b3 b4 a v r = cc (v refl)
responder_kept ids aux m (some x) none b3 b4 a v r = ground arith
responder_kept ids aux m (some x) (some y) b3 b4 a v r = ground arith
