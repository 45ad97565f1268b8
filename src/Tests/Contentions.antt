-- ===== src/Tests/Contentions.antt =====
-- Commits that meet, and secrets that are kept.
use bzrtp.Common.{ℕ, replicate, none, some, ◌≡◌, refl, arith, not, bytes_eq}
use bzrtp.Context.{CachedSecretsHash}
use bzrtp.Packet.Types.{CommitMessage, DhPartMessage}
use bzrtp.Contention.{becomes_responder}
use bzrtp.Contention.Decision.{becomes_responder_total}
use bzrtp.Secrets.{CachedSecrets, initiator_match, responder_match, retained_secret}
use bzrtp.Secrets.Kept.{Recognises, IsCache, unmatched, same_secret}
use bzrtp.Secrets.Matching.{initiator_match-responder_match}
use bzrtp.Tests.Data.{commit, dhpart}

abbrev other_commit : CommitMessage
other_commit = record commit { hvi = replicate 32 6 }

total_example :
    becomes_responder commit other_commit 0 0 ≡ not (becomes_responder other_commit commit 0 0)
total_example =
    becomes_responder_total commit other_commit 0 0 refl refl (λ h. cc) (λ h. absurd (omega arith))

-- The initiator's cache is one call behind: its rs1 is the responder's rs2.
abbrev cache_a : CachedSecrets
cache_a = record {
  rs1 = some (replicate 2 1);
  rs2 = none;
  auxsecret = some (replicate 2 5);
  pbxsecret = none;
}

abbrev cache_b : CachedSecrets
cache_b = record {
  rs1 = some (replicate 2 2);
  rs2 = some (replicate 2 1);
  auxsecret = some (replicate 2 6);
  pbxsecret = none;
}

abbrev ids_of : ℕ → ℕ → ℕ → CachedSecretsHash
ids_of x y z = record {
  rs1_id = replicate 8 x;
  rs2_id = replicate 8 y;
  pbxsecret_id = replicate 8 z;
}

abbrev part_of : ℕ → ℕ → ℕ → ℕ → DhPartMessage
part_of x y z w = record dhpart {
  rs1_id = replicate 8 x;
  rs2_id = replicate 8 y;
  auxsecret_id = replicate 8 z;
  pbxsecret_id = replicate 8 w;
}

a-Recognises : Recognises (ids_of 1 20 21) (replicate 8 5) (part_of 2 1 6 22) cache_a cache_b
unfolding same_secret bytes_eq
a-Recognises = record {
  first_first = refl;
  first_second = refl;
  second_first = refl;
  second_second = refl;
  auxiliary = refl;
  pbx = refl;
}

b-Recognises : Recognises (ids_of 2 1 22) (replicate 8 6) (part_of 1 20 5 21) cache_b cache_a
unfolding same_secret bytes_eq
b-Recognises = record {
  first_first = refl;
  first_second = refl;
  second_first = refl;
  second_second = refl;
  auxiliary = refl;
  pbx = refl;
}

a-IsCache : IsCache cache_a
unfolding IsCache
a-IsCache h = refl

b-IsCache : IsCache cache_b
unfolding IsCache
b-IsCache h = cc

match_example :
    let x =
      (initiator_match
        (ids_of 1 20 21)
        (replicate 8 5)
        (part_of 2 1 6 22)
        (unmatched cache_a)).secrets in
    let y =
      (responder_match
        (ids_of 2 1 22)
        (replicate 8 6)
        (part_of 1 20 5 21)
        (unmatched cache_b)).secrets in
    (retained_secret x ≡ retained_secret y)
    × (x.auxsecret ≡ y.auxsecret)
    × (x.pbxsecret ≡ y.pbxsecret)
match_example =
    initiator_match-responder_match (ids_of 1 20 21) (ids_of 2 1 22) (replicate 8 5) (replicate 8 6)
      (part_of 2 1 6 22) (part_of 1 20 5 21) cache_a cache_b a-IsCache b-IsCache a-Recognises
      b-Recognises
