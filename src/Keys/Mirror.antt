-- ===== src/Keys/Mirror.antt =====
-- Two endpoints of a call and what they have in common: the initiator sent what the responder received,
-- and the other way round (src/stateMachine.c).
use bzrtp.Common.{Bytes, some, ok, >>=-ok, ok-injective, ◌≡◌, refl, sym, subst}
use bzrtp.Channel.{initiator, responder}
use bzrtp.Packet.Parser.DhPart.{built_message}
use bzrtp.Secrets.{retained_secret}
use bzrtp.Session.{Environment, Session}
use bzrtp.Keys.{
  dhm_secrets, dhm_transcript, compute_kdf_context, dh_result, s0_input, confirm_keys, ConfirmKeys,
  with_master_secrets, with_confirm_keys, derive_keys_from_s0, compute_s0_dhm_mode, zids,
  multistream_secrets, multistream_transcript, two_messages, compute_s0_multistream_mode,
}
use bzrtp.Keys.Derivation.{call_hash}

-- The agreed algorithms and the identities.
pub record Agree (a b : Session) : Type 0 where
  pub a_initiates : a.channel.role ≡ initiator
  pub b_responds : b.channel.role ≡ responder
  pub hash_function : a.channel.hash_function ≡ b.channel.hash_function
  pub hmac_function : a.channel.hmac_function ≡ b.channel.hmac_function
  pub hash_length : a.channel.hash_length ≡ b.channel.hash_length
  pub cipher_key_length : a.channel.cipher_key_length ≡ b.channel.cipher_key_length
  pub a_zid : a.context.self_zid ≡ b.peer_zid
  pub b_zid : a.peer_zid ≡ b.context.self_zid

-- The messages that both need in every mode.
pub record SameCommit (a b : Session) : Type 0 where
  pub hello :
      built_message a.channel.peer_packets.hello ≡ built_message b.channel.self_packets.hello
  pub commit :
      built_message a.channel.self_packets.commit ≡ built_message b.channel.peer_packets.commit

-- The DHParts, and the secrets that go into s0.
pub record SameExchange (env : Environment) (a b : Session) : Type 0 where
  pub dhpart1 :
      built_message a.channel.peer_packets.dhpart ≡ built_message b.channel.self_packets.dhpart
  pub dhpart2 :
      built_message a.channel.self_packets.dhpart ≡ built_message b.channel.peer_packets.dhpart
  pub dh : dh_result env a ≡ dh_result env b
  pub retained : retained_secret a.cached_secret ≡ retained_secret b.cached_secret
  pub auxsecret : a.cached_secret.auxsecret ≡ b.cached_secret.auxsecret
  pub pbxsecret : a.cached_secret.pbxsecret ≡ b.cached_secret.pbxsecret

-- What both have derived.
pub record SameKeys (a b : Session) : Type 0 where
  pub s0 : a.s0 ≡ b.s0
  pub kdf_context : a.kdf_context ≡ b.kdf_context
  pub zrtp_sess : a.zrtp_sess ≡ b.zrtp_sess
  pub mackeyi : a.channel.mackeyi ≡ b.channel.mackeyi
  pub mackeyr : a.channel.mackeyr ≡ b.channel.mackeyr
  pub zrtpkeyi : a.channel.zrtpkeyi ≡ b.channel.zrtpkeyi
  pub zrtpkeyr : a.channel.zrtpkeyr ≡ b.channel.zrtpkeyr

-- Sessions with the same master secrets and the same keys of the Confirm messages.
with_confirm_keys-SameKeys :
    (k : ConfirmKeys) (x y a' : Session)
    → x.s0 ≡ y.s0
    → x.kdf_context ≡ y.kdf_context
    → x.zrtp_sess ≡ y.zrtp_sess
    → with_confirm_keys k x ≡ a'
    → SameKeys a' (with_confirm_keys k y)
with_confirm_keys-SameKeys k x y a' s0 kdf_context zrtp_sess h =
    let same : SameKeys (with_confirm_keys k x) (with_confirm_keys k y) = record {
      s0 = s0;
      kdf_context = kdf_context;
      zrtp_sess = zrtp_sess;
      mackeyi = refl;
      mackeyr = refl;
      zrtpkeyi = refl;
      zrtpkeyr = refl;
    } in
    subst (λ s. SameKeys s (with_confirm_keys k y)) h same

module _ (env : Environment) (a b : Session) (g : Agree a b) where
  kdf_context-alike :
      (transcript : Bytes)
      → compute_kdf_context env.crypto a transcript ≡ compute_kdf_context env.crypto b transcript
  unfolding compute_kdf_context call_hash zids
  kdf_context-alike transcript =
      simp (g.a_initiates, g.b_responds, g.hash_function, g.hash_length, g.a_zid, g.b_zid)

  transcript-alike :
      SameCommit a b
      → SameExchange env a b
      → dhm_transcript a.channel.role a.channel ≡ dhm_transcript b.channel.role b.channel
  unfolding dhm_transcript
  transcript-alike m x = simp (g.a_initiates, g.b_responds, m.hello, m.commit, x.dhpart1, x.dhpart2)

  secrets-alike : SameCommit a b → SameExchange env a b → dhm_secrets env a ≡ dhm_secrets env b
  unfolding dhm_secrets s0_input
  secrets-alike m x = simp (
    transcript-alike m x,
    kdf_context-alike,
    x.dh,
    x.retained,
    x.auxsecret,
    x.pbxsecret,
    g.hash_function,
    g.hmac_function,
    g.hash_length,
  )

  confirm_keys-alike :
      (s0 kdf_context : Bytes)
      → confirm_keys env.crypto a.channel s0 kdf_context
        ≡ confirm_keys env.crypto b.channel s0 kdf_context
  unfolding confirm_keys
  confirm_keys-alike s0 kdf_context = simp (g.hmac_function, g.hash_length, g.cipher_key_length)

  -- Where the initiator derives its keys from the DH result, so does the responder, and the MAC keys,
  -- the keys of the Confirm messages, s0, ZRTPSess and KDFContext are the same: both agreed on the
  -- algorithms, each holds the messages that the other sent, and DH result and retained, auxiliary and
  -- PBX secrets are the same.
  pub compute_s0_dhm_mode-SameKeys :
      SameCommit a b
      → SameExchange env a b
      → (a' : Session) → compute_s0_dhm_mode env a ≡ ok a'
      → (b' : Session) × (compute_s0_dhm_mode env b ≡ ok b') × SameKeys a' b'
  unfolding compute_s0_dhm_mode derive_keys_from_s0
  compute_s0_dhm_mode-SameKeys m x a' h = >>=-ok (dhm_secrets env a) _ h λ t made h.
      >>=-ok (confirm_keys env.crypto a.channel t.s0 t.kdf_context) _ h λ k derived h. (
        with_confirm_keys k (with_master_secrets t b),
        rw (sym (secrets-alike m x), made, sym (confirm_keys-alike t.s0 t.kdf_context), derived),
        with_confirm_keys-SameKeys k (with_master_secrets t a) (with_master_secrets t b) a' refl
            refl refl (ok-injective h),
      )

  two_messages-alike :
      SameCommit a b
      → multistream_transcript a.channel.role a.channel
        ≡ multistream_transcript b.channel.role b.channel
  unfolding multistream_transcript two_messages
  two_messages-alike m = simp (g.a_initiates, g.b_responds, m.hello, m.commit)

  multistream-alike :
      SameCommit a b
      → a.zrtp_sess ≡ b.zrtp_sess
      → multistream_secrets env a ≡ multistream_secrets env b
  unfolding multistream_secrets
  multistream-alike m z =
      simp (two_messages-alike m, kdf_context-alike, z, g.hmac_function, g.hash_length)

  -- The same from the ZRTPSess of the first channel, which both hold, in multistream mode.
  pub compute_s0_multistream_mode-SameKeys :
      SameCommit a b
      → a.zrtp_sess ≡ b.zrtp_sess
      → (a' : Session) → compute_s0_multistream_mode env a ≡ ok a'
      → (b' : Session) × (compute_s0_multistream_mode env b ≡ ok b') × SameKeys a' b'
  unfolding compute_s0_multistream_mode derive_keys_from_s0
  compute_s0_multistream_mode-SameKeys m z a' h = >>=-ok (multistream_secrets env a) _ h λ t made h.
      >>=-ok (confirm_keys env.crypto a.channel t.s0 t.kdf_context) _ h λ k derived h. (
        with_confirm_keys k (record b { kdf_context = t.kdf_context; s0 = some t.s0 }),
        rw (
          sym (multistream-alike m z),
          made,
          sym (confirm_keys-alike t.s0 t.kdf_context),
          derived,
        ),
        with_confirm_keys-SameKeys k (record a { kdf_context = t.kdf_context; s0 = some t.s0 })
            (record b { kdf_context = t.kdf_context; s0 = some t.s0 }) a' refl refl z
            (ok-injective h),
      )
