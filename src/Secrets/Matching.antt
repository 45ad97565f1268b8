-- ===== src/Secrets/Matching.antt =====
-- Initiator and responder keep the same secrets (src/stateMachine.c).
use bzrtp.Common.{Bytes, Option, none, if◌then◌else◌, bytes_eq, ◌≡◌, arith, ap, sym, ◌∙◌}
use bzrtp.Packet.Types.{DhPartMessage}
use bzrtp.Context.{CachedSecretsHash}
use bzrtp.Secrets.{
  CachedSecrets, Matched, initiator_match_rs1, initiator_match_rs2, responder_match_rs1,
  responder_match_rs2, responder_match_last, match_auxsecret, match_pbxsecret, initiator_match,
  responder_match, retained_secret,
}
use bzrtp.Secrets.Kept.{
  same_secret, Recognises, IsCache, unmatched, same_secret_eq, same_secret_comm, kept_alike,
  initiator_kept, responder_kept,
}

retained_secret-match_pbxsecret :
    (ids : CachedSecretsHash) (m : DhPartMessage) (r : Matched)
    → retained_secret (match_pbxsecret ids m r).secrets ≡ retained_secret r.secrets
unfolding match_pbxsecret retained_secret
retained_secret-match_pbxsecret ids m r = ground arith

retained_secret-match_auxsecret :
    (aux : Bytes) (m : DhPartMessage) (r : Matched)
    → retained_secret (match_auxsecret aux m r).secrets ≡ retained_secret r.secrets
unfolding match_auxsecret retained_secret
retained_secret-match_auxsecret aux m r = ground arith

-- What is kept of a secret that both may hold.
abbrev kept : Option Bytes → Option Bytes → Option Bytes
kept s t = if same_secret s t then s else none

kept_comm : (s t : Option Bytes) → kept s t ≡ kept t s
kept_comm s t = ground (arith, same_secret_comm s t, same_secret_eq s t)

match_auxsecret-kept :
    (aux : Bytes) (m : DhPartMessage) (r : Matched) (t : Option Bytes)
    → bytes_eq aux m.auxsecret_id ≡ same_secret r.secrets.auxsecret t
    → (match_auxsecret aux m r).secrets.auxsecret ≡ kept r.secrets.auxsecret t
unfolding match_auxsecret same_secret
match_auxsecret-kept aux m r t h = ground arith

match_pbxsecret-kept :
    (ids : CachedSecretsHash) (m : DhPartMessage) (r : Matched) (t : Option Bytes)
    → bytes_eq ids.pbxsecret_id m.pbxsecret_id ≡ same_secret r.secrets.pbxsecret t
    → (match_pbxsecret ids m r).secrets.pbxsecret ≡ kept r.secrets.pbxsecret t
unfolding match_pbxsecret same_secret
match_pbxsecret-kept ids m r t h = ground arith

-- The other two secrets pass the checks of rs1 and rs2.
abbrev others : Matched → Option Bytes × Option Bytes
others r = (r.secrets.auxsecret, r.secrets.pbxsecret)

others-initiator :
    (ids : CachedSecretsHash) (m : DhPartMessage) (r : Matched)
    → others (initiator_match_rs2 ids m (initiator_match_rs1 ids m r)) ≡ others r
unfolding initiator_match_rs1 initiator_match_rs2
others-initiator ids m r = ground arith

others-responder :
    (ids : CachedSecretsHash) (m : DhPartMessage) (r : Matched)
    → others (responder_match_rs2 ids m (responder_match_rs1 ids m r)) ≡ others r
unfolding responder_match_rs1 responder_match_rs2 responder_match_last
others-responder ids m r = ground arith

pbxsecret-match_auxsecret :
    (aux : Bytes) (m : DhPartMessage) (r : Matched)
    → (match_auxsecret aux m r).secrets.pbxsecret ≡ r.secrets.pbxsecret
unfolding match_auxsecret
pbxsecret-match_auxsecret aux m r = ground arith

auxsecret-match_pbxsecret :
    (ids : CachedSecretsHash) (m : DhPartMessage) (r : Matched)
    → (match_pbxsecret ids m r).secrets.auxsecret ≡ r.secrets.auxsecret
unfolding match_pbxsecret
auxsecret-match_pbxsecret ids m r = ground arith

-- The last two checks, on what the checks of rs1 and rs2 leave.
finish_lem :
    (ids : CachedSecretsHash) (aux : Bytes) (m : DhPartMessage) (s t : CachedSecrets) (r : Matched)
    → Recognises ids aux m s t
    → others r ≡ (s.auxsecret, s.pbxsecret)
    → let x = (match_pbxsecret ids m (match_auxsecret aux m r)).secrets in
      (retained_secret x ≡ retained_secret r.secrets)
      × (x.auxsecret ≡ kept s.auxsecret t.auxsecret)
      × (x.pbxsecret ≡ kept s.pbxsecret t.pbxsecret)
finish_lem ids aux m s t r k same =
    let same_aux : r.secrets.auxsecret ≡ s.auxsecret = ap (λ p. p.0) same in
    let same_pbx : r.secrets.pbxsecret ≡ s.pbxsecret = ap (λ p. p.1) same in
    let passed = pbxsecret-match_auxsecret aux m r ∙ same_pbx in
    (
      retained_secret-match_pbxsecret ids m (match_auxsecret aux m r)
          ∙ retained_secret-match_auxsecret aux m r,
      auxsecret-match_pbxsecret ids m (match_auxsecret aux m r)
          ∙ (match_auxsecret-kept aux m r t.auxsecret
                (k.auxiliary ∙ ap (λ o. same_secret o t.auxsecret) (sym same_aux))
              ∙ ap (λ o. kept o t.auxsecret) same_aux),
      match_pbxsecret-kept ids m (match_auxsecret aux m r) t.pbxsecret
            (k.pbx ∙ ap (λ o. same_secret o t.pbxsecret) (sym passed))
          ∙ ap (λ o. kept o t.pbxsecret) passed,
    )

-- Where the identifiers tell the secrets apart, the initiator, which checks the DHPart1, and the
-- responder, which checks the DHPart2, go on with the same retained, auxiliary and PBX secrets, or both
-- without; neither cache holds rs2 alone.
pub initiator_match-responder_match :
    (ids1 ids2 : CachedSecretsHash) (aux1 aux2 : Bytes) (m1 m2 : DhPartMessage)
    (a b : CachedSecrets)
    → IsCache a
    → IsCache b
    → Recognises ids1 aux1 m1 a b
    → Recognises ids2 aux2 m2 b a
    → let x = (initiator_match ids1 aux1 m1 (unmatched a)).secrets in
      let y = (responder_match ids2 aux2 m2 (unmatched b)).secrets in
      (retained_secret x ≡ retained_secret y)
      × (x.auxsecret ≡ y.auxsecret)
      × (x.pbxsecret ≡ y.pbxsecret)
unfolding initiator_match responder_match
initiator_match-responder_match ids1 ids2 aux1 aux2 m1 m2 a b va vb ka kb =
    let p = finish_lem ids1 aux1 m1 a b _ ka (others-initiator ids1 m1 (unmatched a)) in
    let q = finish_lem ids2 aux2 m2 b a _ kb (others-responder ids2 m2 (unmatched b)) in
    (
      p.0
          ∙ (initiator_kept ids1 aux1 m1 a.rs1 a.rs2 a.auxsecret a.pbxsecret b va ka
              ∙ (kept_alike a.rs1 a.rs2 b.rs1 b.rs2
                  ∙ sym (
                      q.0
                      ∙ responder_kept ids2 aux2 m2 b.rs1 b.rs2 b.auxsecret b.pbxsecret a vb kb))),
      p.1 ∙ (kept_comm a.auxsecret b.auxsecret ∙ sym q.1),
      p.2 ∙ (kept_comm a.pbxsecret b.pbxsecret ∙ sym q.2),
    )
