-- ===== src/Algo/Agreement.antt =====
-- bzrtp_cryptoAlgoAgreement and bzrtp_updateCryptoFunctionPointers (src/cryptoUtils.cc). An error
-- return leaves what was set before it, so an outcome has the channel context in both cases.
use bzrtp.Common.{
  ℕ, suc, ◌+◌, Bytes, List, [], ◌∷◌, Option, none, some, Error, if◌then◌else◌, ◌==◌, ltb, ◌||◌,
  Bool, contains,
}
use bzrtp.Algo.Codes.{
  unset_algo, hash_s256, hash_s384, hash_s512, cipher_aes1, cipher_aes2, cipher_aes3, sas_b32,
  sas_b256, keyagreement_dh2k, keyagreement_x255, keyagreement_x448, keyagreement_k448,
  keyagreement_dh3k, keyagreement_ec38, keyagreement_kyb1, keyagreement_kyb2, keyagreement_kyb3,
  keyagreement_hqc1, keyagreement_hqc2, keyagreement_hqc3, keyagreement_k255_kyb512,
  keyagreement_k255_hqc128, keyagreement_k448_kyb1024, keyagreement_k448_hqc256,
  keyagreement_k255_kyb512_hqc128, keyagreement_k448_kyb1024_hqc256, keyagreement_prsh,
  keyagreement_mult, keyagreement_k255,
}
use bzrtp.Algo.Select.{select_common_algo}
use bzrtp.Channel.{
  Channel, HashFunction, sha256, sha384, sha512, CipherFunction, aes128, aes256, SasFunction,
  base32, base256,
}
use bzrtp.Context.{Context}
use bzrtp.Packet.Types.{HelloMessage}
pub mod Choice
pub mod Meaning

pub data Outcome : Type 0 where
  done : Channel → Outcome
  failed : Channel → Error → Outcome

-- Go on after a step that did not return.
infixl 5 ◌then_do◌
abbrev pub ◌then_do◌ : Outcome → (Channel → Outcome) → Outcome
done ch then_do f = f ch
failed ch e then_do f = failed ch e

-- The hash, the HMAC and the length of the hash.
unfoldable pub update_hash : Channel → Outcome
update_hash ch =
    if ch.hash_algo == hash_s256
    then done
        (record ch { hash_function = some sha256; hmac_function = some sha256; hash_length = 32 })
    else if ch.hash_algo == hash_s384
    then done
        (record ch { hash_function = some sha384; hmac_function = some sha384; hash_length = 48 })
    else if ch.hash_algo == hash_s512
    then done
        (record ch { hash_function = some sha512; hmac_function = some sha512; hash_length = 64 })
    else if ch.hash_algo == unset_algo
    then done (record ch { hash_function = none; hmac_function = none; hash_length = 0 })
    else failed ch Error.cryptoagreement_invalid_hash

unfoldable pub update_cipher : Channel → Outcome
update_cipher ch =
    if ch.cipher_algo == cipher_aes1
    then done (record ch { cipher_function = some aes128; cipher_key_length = 16 })
    else if ch.cipher_algo == cipher_aes3
    then done (record ch { cipher_function = some aes256; cipher_key_length = 32 })
    else if ch.cipher_algo == unset_algo
    then done (record ch { cipher_function = none; cipher_key_length = 0 })
    else failed ch Error.cryptoagreement_invalid_cipher

-- The `case` labels of the key agreements.
abbrev pub valid_key_agreements : List ℕ
valid_key_agreements =
    keyagreement_dh2k ∷ keyagreement_dh3k ∷ keyagreement_x255 ∷ keyagreement_x448
    ∷ keyagreement_k255 ∷ keyagreement_k448 ∷ keyagreement_kyb1 ∷ keyagreement_kyb2
    ∷ keyagreement_kyb3 ∷ keyagreement_hqc1 ∷ keyagreement_hqc2 ∷ keyagreement_hqc3
    ∷ keyagreement_k255_kyb512 ∷ keyagreement_k255_hqc128 ∷ keyagreement_k448_kyb1024
    ∷ keyagreement_k448_hqc256 ∷ keyagreement_k255_kyb512_hqc128 ∷ keyagreement_k448_kyb1024_hqc256
    ∷ keyagreement_mult ∷ keyagreement_prsh ∷ unset_algo ∷ []

unfoldable pub check_key_agreement : Channel → Outcome
unfolding contains
check_key_agreement ch =
    if contains ch.key_agreement_algo valid_key_agreements
    then done ch
    else failed ch Error.cryptoagreement_invalid_cipher

-- The SAS function, and its length with the null that ends it.
unfoldable pub update_sas : Channel → Outcome
update_sas ch =
    if ch.sas_algo == sas_b32
    then done (record ch { sas_function = some base32; sas_length = 5 })
    else if ch.sas_algo == sas_b256
    then done (record ch { sas_function = some base256; sas_length = 32 })
    else if ch.sas_algo == unset_algo
    then done (record ch { sas_function = none; sas_length = 0 })
    else failed ch Error.cryptoagreement_invalid_sas

unfoldable pub update_crypto_function_pointers : Channel → Outcome
unfolding update_hash update_cipher check_key_agreement update_sas
update_crypto_function_pointers ch =
    update_hash ch then_do update_cipher then_do check_key_agreement then_do update_sas
