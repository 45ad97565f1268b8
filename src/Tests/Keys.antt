-- ===== src/Tests/Keys.antt =====
-- Two endpoints that derive the same keys.
use bzrtp.Common.{read, replicate, some, ok, ◌≡◌, refl}
use bzrtp.Session.{Session}
use bzrtp.Keys.{
  compute_s0_dhm_mode, compute_s0_multistream_mode, dhm_secrets, multistream_secrets,
  dhm_transcript, multistream_transcript, two_messages, compute_kdf_context, zids, dh_result,
  s0_input, confirm_keys, derive_keys_from_s0,
}
use bzrtp.Keys.Derivation.{key_derivation_function, call_hash, stored_key}
use bzrtp.Algo.Lengths.{is_kem}
use bzrtp.Keys.Srtp.{
  derive_srtp_keys_from_s0, compute_srtp_keys, add_sas, compute_sas, assign_keys, describe_algos,
  pointed,
}
use bzrtp.Keys.Mirror.{
  Agree, SameCommit, SameExchange, SameKeys, compute_s0_dhm_mode-SameKeys,
  compute_s0_multistream_mode-SameKeys,
}
use bzrtp.Keys.Agreed.{SameSrtpAlgos, Crosses, derive_srtp_keys_from_s0-Crosses}
use bzrtp.Packet.Parser.DhPart.{built_message}
use bzrtp.Sas.{call_sas_function}
use bzrtp.Tests.Sessions.{env, alice, bob, result_of}

alice-Agree : Agree alice bob
alice-Agree = record {
  a_initiates = refl;
  b_responds = refl;
  hash_function = refl;
  hmac_function = refl;
  hash_length = refl;
  cipher_key_length = refl;
  a_zid = refl;
  b_zid = refl;
}

alice-SameCommit : SameCommit alice bob
alice-SameCommit = record { hello = refl; commit = refl }

alice-SameExchange : SameExchange env alice bob
unfolding dh_result
alice-SameExchange = record {
  dhpart1 = refl;
  dhpart2 = refl;
  dh = refl;
  retained = refl;
  auxsecret = refl;
  pbxsecret = refl;
}

abbrev keyed_alice : Session
keyed_alice = result_of alice (compute_s0_dhm_mode env alice)

dhm_example : (b : Session) × (compute_s0_dhm_mode env bob ≡ ok b) × SameKeys keyed_alice b
unfolding compute_s0_dhm_mode dhm_secrets dhm_transcript compute_kdf_context call_hash zids
    dh_result s0_input key_derivation_function derive_keys_from_s0 confirm_keys built_message read
    is_kem
dhm_example =
    compute_s0_dhm_mode-SameKeys env alice bob alice-Agree alice-SameCommit alice-SameExchange
      keyed_alice refl

-- A further channel of the same call.
abbrev alice2 : Session
alice2 = record alice { zrtp_sess = some (replicate 32 6) }

abbrev bob2 : Session
bob2 = record bob { zrtp_sess = some (replicate 32 6) }

alice2-Agree : Agree alice2 bob2
alice2-Agree = record {
  a_initiates = refl;
  b_responds = refl;
  hash_function = refl;
  hmac_function = refl;
  hash_length = refl;
  cipher_key_length = refl;
  a_zid = refl;
  b_zid = refl;
}

alice2-SameCommit : SameCommit alice2 bob2
alice2-SameCommit = record { hello = refl; commit = refl }

abbrev keyed_alice2 : Session
keyed_alice2 = result_of alice2 (compute_s0_multistream_mode env alice2)

multistream_example :
    (b : Session) × (compute_s0_multistream_mode env bob2 ≡ ok b) × SameKeys keyed_alice2 b
unfolding compute_s0_multistream_mode multistream_secrets multistream_transcript two_messages
    compute_kdf_context call_hash zids key_derivation_function derive_keys_from_s0 confirm_keys
    built_message read stored_key
multistream_example =
    compute_s0_multistream_mode-SameKeys env alice2 bob2 alice2-Agree alice2-SameCommit refl
      keyed_alice2 refl

-- Two endpoints that hold the same s0.
abbrev alice3 : Session
alice3 = record alice { s0 = some (replicate 32 7); kdf_context = replicate 4 8 }

abbrev bob3 : Session
bob3 = record bob { s0 = some (replicate 32 7); kdf_context = replicate 4 8 }

alice3-Agree : Agree alice3 bob3
alice3-Agree = record {
  a_initiates = refl;
  b_responds = refl;
  hash_function = refl;
  hmac_function = refl;
  hash_length = refl;
  cipher_key_length = refl;
  a_zid = refl;
  b_zid = refl;
}

alice3-SameKeys : SameKeys alice3 bob3
alice3-SameKeys = record {
  s0 = refl;
  kdf_context = refl;
  zrtp_sess = refl;
  mackeyi = refl;
  mackeyr = refl;
  zrtpkeyi = refl;
  zrtpkeyr = refl;
}

alice3-SameSrtpAlgos : SameSrtpAlgos alice3 bob3
alice3-SameSrtpAlgos = record {
  auth_tag = refl;
  key_agreement = refl;
  sas_function = refl;
  sas_length = refl;
  sas_before = refl;
}

abbrev ready_alice : Session
ready_alice = result_of alice3 (derive_srtp_keys_from_s0 env.crypto alice3)

srtp_example :
    (b : Session) × (derive_srtp_keys_from_s0 env.crypto bob3 ≡ ok b)
    × Crosses ready_alice.srtp_secrets b.srtp_secrets
unfolding derive_srtp_keys_from_s0 compute_srtp_keys add_sas compute_sas assign_keys describe_algos
    key_derivation_function stored_key pointed call_sas_function
srtp_example =
    derive_srtp_keys_from_s0-Crosses env alice3 bob3 alice3-Agree alice3-SameKeys
      alice3-SameSrtpAlgos ready_alice refl
