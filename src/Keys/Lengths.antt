-- ===== src/Keys/Lengths.antt =====
-- bzrtp_computeKeyAgreementSharedSecretLength (src/cryptoUtils.cc). The sizes of the shared secrets of
-- the post quantum engine are `none` in a build without HAVE_BCTBXPQ.
use bzrtp.Common.{ℕ, ◌%◌, if◌then◌else◌, ◌==◌, Bool, ◌||◌, Option, none, some}
use bzrtp.Algo.{
  keyagreement_dh2k, keyagreement_x255, keyagreement_k255, keyagreement_ec25, keyagreement_x448,
  keyagreement_k448, keyagreement_dh3k, keyagreement_ec38, keyagreement_ec52, keyagreement_kyb1,
  keyagreement_kyb2, keyagreement_kyb3, keyagreement_hqc1, keyagreement_hqc2, keyagreement_hqc3,
  keyagreement_k255_kyb512, keyagreement_k255_hqc128, keyagreement_k448_kyb1024,
  keyagreement_k448_hqc256, keyagreement_k255_kyb512_hqc128, keyagreement_k448_kyb1024_hqc256,
}
use bzrtp.Algo.Lengths.{KemSizes}

-- The secret of a hybrid is a hash.
abbrev is_hybrid : ℕ → Bool
is_hybrid algo =
    algo == keyagreement_k255_kyb512
    || (algo == keyagreement_k255_hqc128
        || (algo == keyagreement_k448_kyb1024
            || (algo == keyagreement_k448_hqc256
                || (algo == keyagreement_k255_kyb512_hqc128
                    || algo == keyagreement_k448_kyb1024_hqc256))))

unfoldable pub kem_shared_secret_length : Option KemSizes → ℕ → ℕ → ℕ
kem_shared_secret_length none algo hash_length = 0
kem_shared_secret_length (some ss) algo hash_length =
    if algo == keyagreement_kyb1
    then ss.kyber512
    else if algo == keyagreement_kyb2
    then ss.kyber768
    else if algo == keyagreement_kyb3
    then ss.kyber1024
    else if algo == keyagreement_hqc1
    then ss.hqc128
    else if algo == keyagreement_hqc2
    then ss.hqc192
    else if algo == keyagreement_hqc3
    then ss.hqc256
    else if algo == keyagreement_k255
    then ss.k25519
    else if algo == keyagreement_k448
    then ss.k448
    else if is_hybrid algo
    then hash_length
    else 0

unfoldable pub compute_key_agreement_shared_secret_length : Option KemSizes → ℕ → ℕ → ℕ
unfolding kem_shared_secret_length
compute_key_agreement_shared_secret_length ss algo hash_length =
    (if algo == keyagreement_dh3k
      then 384
      else if algo == keyagreement_dh2k
      then 256
      else if algo == keyagreement_x255
      then 32
      else if algo == keyagreement_x448
      then 56
      else if algo == keyagreement_ec25
      then 64
      else if algo == keyagreement_ec38
      then 96
      else if algo == keyagreement_ec52
      then 132
      else kem_shared_secret_length ss algo hash_length)
    % 65536
