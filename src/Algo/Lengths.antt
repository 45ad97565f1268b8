-- ===== src/Algo/Lengths.antt =====
-- Lengths that depend on the key agreement (src/cryptoUtils.cc). The sizes of the post quantum engine's
-- keys and cipher texts, which the build may leave out, are a parameter.
use bzrtp.Common.{ℕ, ◌+◌, ◌-◌, ◌%◌, Bool, if◌then◌else◌, ◌==◌, ◌||◌}
use bzrtp.Algo.Codes.{
  keyagreement_dh2k, keyagreement_x255, keyagreement_k255, keyagreement_ec25, keyagreement_x448,
  keyagreement_k448, keyagreement_dh3k, keyagreement_ec38, keyagreement_ec52, keyagreement_kyb1,
  keyagreement_kyb2, keyagreement_kyb3, keyagreement_hqc1, keyagreement_hqc2, keyagreement_hqc3,
  keyagreement_k255_kyb512, keyagreement_k255_hqc128, keyagreement_k448_kyb1024,
  keyagreement_k448_hqc256, keyagreement_k255_kyb512_hqc128, keyagreement_k448_kyb1024_hqc256,
  keyagreement_prsh, keyagreement_mult,
}

-- `bctoolbox::KYBER512::pkSize` and the others, or the `ctSize`s.
pub record KemSizes : Type 0 where
  pub kyber512 : ℕ
  pub kyber768 : ℕ
  pub kyber1024 : ℕ
  pub hqc128 : ℕ
  pub hqc192 : ℕ
  pub hqc256 : ℕ
  pub k25519 : ℕ
  pub k448 : ℕ

-- Without HAVE_BCTBXPQ both functions return 0.
abbrev pub no_kem : KemSizes
no_kem = record {
  kyber512 = 0;
  kyber768 = 0;
  kyber1024 = 0;
  hqc128 = 0;
  hqc192 = 0;
  hqc256 = 0;
  k25519 = 0;
  k448 = 0;
}

-- bzrt_getKEMPublicKeyLength at the `pkSize`s, bzrt_getKEMCipherTextLength at the `ctSize`s.
unfoldable pub get_kem_length : KemSizes → ℕ → ℕ
get_kem_length z algo =
    (if algo == keyagreement_kyb1
      then z.kyber512
      else if algo == keyagreement_kyb2
      then z.kyber768
      else if algo == keyagreement_kyb3
      then z.kyber1024
      else if algo == keyagreement_hqc1
      then z.hqc128
      else if algo == keyagreement_hqc2
      then z.hqc192
      else if algo == keyagreement_hqc3
      then z.hqc256
      else if algo == keyagreement_k255
      then z.k25519
      else if algo == keyagreement_k448
      then z.k448
      else if algo == keyagreement_k255_kyb512
      then z.k25519 + z.kyber512
      else if algo == keyagreement_k255_hqc128
      then z.k25519 + z.hqc128
      else if algo == keyagreement_k448_kyb1024
      then z.k448 + z.kyber1024
      else if algo == keyagreement_k448_hqc256
      then z.k448 + z.hqc256
      else if algo == keyagreement_k255_kyb512_hqc128
      then z.k25519 + z.kyber512 + z.hqc128
      else if algo == keyagreement_k448_kyb1024_hqc256
      then z.k448 + z.kyber1024 + z.hqc256
      else 0)
    % 65536

-- `if (ret % 4) ret += 4 - ret % 4;` on a uint16_t.
unfoldable pub pad_to_word : ℕ → ℕ
pad_to_word ret = if ret % 4 == 0 then ret else (ret + (4 - ret % 4)) % 65536

-- The messages that `bzrtp_computeKeyAgreementPublicValueLength` tells apart.
pub data PublicValueMessage : Type 0 where
  in_commit in_dhpart1 in_dhpart2 : PublicValueMessage

kem_public_value_length : KemSizes → KemSizes → ℕ → PublicValueMessage → ℕ
kem_public_value_length pk ct algo in_commit = pad_to_word (get_kem_length pk algo)
kem_public_value_length pk ct algo in_dhpart1 = pad_to_word (get_kem_length ct algo)
kem_public_value_length pk ct algo in_dhpart2 = 16

unfoldable pub compute_key_agreement_public_value_length :
    KemSizes → KemSizes → ℕ → PublicValueMessage → ℕ
unfolding kem_public_value_length pad_to_word get_kem_length
compute_key_agreement_public_value_length pk ct algo message =
    if algo == keyagreement_dh3k
    then 384
    else if algo == keyagreement_dh2k
    then 256
    else if algo == keyagreement_x255
    then 32
    else if algo == keyagreement_x448
    then 56
    else if algo == keyagreement_ec25
    then 64
    else if algo == keyagreement_ec38
    then 96
    else if algo == keyagreement_ec52
    then 132
    else kem_public_value_length pk ct algo message

unfoldable pub is_kem : ℕ → Bool
is_kem algo =
    algo == keyagreement_kyb1
    || (algo == keyagreement_kyb2
        || (algo == keyagreement_kyb3
            || (algo == keyagreement_hqc1
                || (algo == keyagreement_hqc2
                    || (algo == keyagreement_hqc3
                        || (algo == keyagreement_k255
                            || (algo == keyagreement_k448
                                || (algo == keyagreement_k255_kyb512
                                    || (algo == keyagreement_k255_hqc128
                                        || (algo == keyagreement_k448_kyb1024
                                            || (algo == keyagreement_k448_hqc256
                                                || (algo == keyagreement_k255_kyb512_hqc128
                                                    || algo
                                                      == keyagreement_k448_kyb1024_hqc256))))))))))))

-- The `switch` that ends `bzrtp_computeCommitMessageVariableLength`.
abbrev pub is_dh : ℕ → Bool
is_dh algo =
    algo == keyagreement_dh2k
    || (algo == keyagreement_x255
        || (algo == keyagreement_x448
            || (algo == keyagreement_ec25
                || (algo == keyagreement_dh3k
                    || (algo == keyagreement_ec38 || algo == keyagreement_ec52)))))

unfoldable pub compute_commit_message_variable_length : KemSizes → ℕ → ℕ
compute_commit_message_variable_length pk algo =
    if algo == keyagreement_prsh
    then 24
    else if algo == keyagreement_mult
    then 16
    else if is_kem algo
    then (32 + pad_to_word (get_kem_length pk algo)) % 65536
    else if is_dh algo
    then 32
    else 0
