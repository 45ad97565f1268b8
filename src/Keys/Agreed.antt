-- ===== src/Keys/Agreed.antt =====
-- The SRTP keys of two endpoints that derived the same s0 (src/stateMachine.c).
use bzrtp.Common.{
  Bytes, some, ok, ◌>>=◌, >>=-ok, ok-injective, ◌≡◌, refl, sym, subst, ◌==◌, if◌then◌else◌,
  Bool-cases, inl, inr, ap, ◌∙◌,
}
use bzrtp.Algo.{keyagreement_mult}
use bzrtp.Session.{Environment, Session, SrtpSecrets}
use bzrtp.Keys.Mirror.{Agree, SameKeys}
use bzrtp.Keys.Derivation.{stored_key}
use bzrtp.Keys.Srtp.{
  SrtpKeys, compute_srtp_keys, assign_keys, describe_algos, compute_sas, add_sas,
  derive_srtp_keys_from_s0,
}

-- The algorithms that the SRTP keys and the SAS depend on.
pub record SameSrtpAlgos (a b : Session) : Type 0 where
  pub auth_tag : a.channel.auth_tag_algo ≡ b.channel.auth_tag_algo
  pub key_agreement : a.channel.key_agreement_algo ≡ b.channel.key_agreement_algo
  pub sas_function : a.channel.sas_function ≡ b.channel.sas_function
  pub sas_length : a.channel.sas_length ≡ b.channel.sas_length
  pub sas_before : a.srtp_secrets.sas ≡ b.srtp_secrets.sas

-- What one side encrypts with the other decrypts with, and both show the same SAS.
pub record Crosses (p q : SrtpSecrets) : Type 0 where
  pub forth_key : p.self_srtp_key ≡ q.peer_srtp_key
  pub forth_salt : p.self_srtp_salt ≡ q.peer_srtp_salt
  pub back_key : p.peer_srtp_key ≡ q.self_srtp_key
  pub back_salt : p.peer_srtp_salt ≡ q.self_srtp_salt
  pub sas : p.sas ≡ q.sas

abbrev with_sas : Session → Bytes → SrtpSecrets → SrtpSecrets
with_sas s sas p = record p {
  sas = some sas;
  cache_mismatch = if s.cache_mismatch_flag == 0 then p.cache_mismatch else 1;
}

module _ (env : Environment) (a b : Session) (g : Agree a b) (k : SameKeys a b)
    (x : SameSrtpAlgos a b) where
  srtp_keys-alike :
      (s0 : Bytes)
      → compute_srtp_keys env.crypto s0 a.kdf_context a.channel
        ≡ compute_srtp_keys env.crypto s0 b.kdf_context b.channel
  unfolding compute_srtp_keys
  srtp_keys-alike s0 = simp (k.kdf_context, g.hmac_function, g.cipher_key_length, x.auth_tag)

  sas-alike :
      (s0 : Bytes)
      → compute_sas env.crypto s0 a.kdf_context a.channel
        ≡ compute_sas env.crypto s0 b.kdf_context b.channel
  unfolding compute_sas
  sas-alike s0 = simp (x.sas_function, k.kdf_context, g.hmac_function, x.sas_length)

  -- The SAS is added to secrets whose keys cross.
  add_sas-Crosses :
      (s0 : Bytes) (p q p' : SrtpSecrets)
      → Crosses p q
      → add_sas env.crypto s0 a p ≡ ok p'
      → (q' : SrtpSecrets) × (add_sas env.crypto s0 b q ≡ ok q') × Crosses p' q'
  unfolding add_sas
  add_sas-Crosses s0 p q p' c h =
      elim (Bool-cases (b.channel.key_agreement_algo == keyagreement_mult)) [
        | inl mult ↦
            let h' : ok p ≡ ok p' = subst (λ r. r ≡ ok p') (rw (x.key_agreement, mult)) h in
            (q, rw mult, subst (λ r. Crosses r q) (ok-injective h') c)
        | inr single ↦
            let h' : (do
              sas ← compute_sas env.crypto s0 a.kdf_context a.channel
              ok (with_sas a sas p))
                ≡ ok p' =
              subst (λ r. r ≡ ok p') (rw (x.key_agreement, single)) h in
            >>=-ok (compute_sas env.crypto s0 a.kdf_context a.channel) _ h' λ sas made done. (
              with_sas b sas q,
              rw (single, sym (sas-alike s0), made),
              subst (λ r. Crosses r (with_sas b sas q)) (ok-injective done)
                  (record {
                    forth_key = c.forth_key;
                    forth_salt = c.forth_salt;
                    back_key = c.back_key;
                    back_salt = c.back_salt;
                    sas = refl;
                  }),
            )
      ]

  assigned-Crosses :
      (keys : SrtpKeys)
      → Crosses
          (describe_algos a.channel (assign_keys a.channel.role keys a.srtp_secrets))
          (describe_algos b.channel (assign_keys b.channel.role keys b.srtp_secrets))
  unfolding assign_keys describe_algos
  assigned-Crosses keys =
      rw (g.a_initiates, g.b_responds)
        (record {
          forth_key = refl;
          forth_salt = refl;
          back_key = refl;
          back_salt = refl;
          sas = x.sas_before;
        })

  -- Two endpoints that hold the same s0 and agreed on the same algorithms: where the initiator derives
  -- its SRTP keys, so does the responder; what one encrypts with is what the other decrypts with, and
  -- both have the same SAS.
  pub derive_srtp_keys_from_s0-Crosses :
      (a' : Session)
      → derive_srtp_keys_from_s0 env.crypto a ≡ ok a'
      → (b' : Session) × (derive_srtp_keys_from_s0 env.crypto b ≡ ok b')
        × Crosses a'.srtp_secrets b'.srtp_secrets
  unfolding derive_srtp_keys_from_s0
  derive_srtp_keys_from_s0-Crosses a' h = >>=-ok (stored_key a.s0) _ h λ s0 held h.
      >>=-ok (compute_srtp_keys env.crypto s0 a.kdf_context a.channel) _ h λ keys made h.
        >>=-ok
          (add_sas env.crypto s0 a
            (describe_algos a.channel (assign_keys a.channel.role keys a.srtp_secrets)))
          _ h
          λ p added done.
            let held' : stored_key b.s0 ≡ ok s0 = ap stored_key (sym k.s0) ∙ held in
            let (q, added', c) = add_sas-Crosses s0 _ _ p (assigned-Crosses keys) added in
            (
              record b { srtp_secrets = q },
              rw (held', sym (srtp_keys-alike s0), made, added'),
              subst (λ s. Crosses s.srtp_secrets q) (ok-injective done) c,
            )
