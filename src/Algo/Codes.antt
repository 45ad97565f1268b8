-- ===== src/Algo/Codes.antt =====
-- include/bzrtp/bzrtp.h: the codes of the algorithms; key agreements are numbered from fast to slow.
use bzrtp.Common.{ℕ, List, [], ◌∷◌}

-- ZRTP_HASH_TYPE and the other types that `algoType` and `algoFamily` range over.
pub data Family : Type 0 where
  hash_type cipherblock_type authtag_type keyagreement_type sas_type : Family

abbrev pub unset_algo : ℕ
unset_algo = 0x00

abbrev pub hash_s256 : ℕ
hash_s256 = 0x11

abbrev pub hash_s384 : ℕ
hash_s384 = 0x12

abbrev pub hash_s512 : ℕ
hash_s512 = 0x13

abbrev pub cipher_aes1 : ℕ
cipher_aes1 = 0x21

abbrev pub cipher_aes2 : ℕ
cipher_aes2 = 0x22

abbrev pub cipher_aes3 : ℕ
cipher_aes3 = 0x23

abbrev pub authtag_hs32 : ℕ
authtag_hs32 = 0x31

abbrev pub authtag_hs80 : ℕ
authtag_hs80 = 0x32

abbrev pub authtag_gcm : ℕ
authtag_gcm = 0x35

abbrev pub keyagreement_dh2k : ℕ
keyagreement_dh2k = 0x41

abbrev pub keyagreement_x255 : ℕ
keyagreement_x255 = 0x42

abbrev pub keyagreement_k255 : ℕ
keyagreement_k255 = 0x43

abbrev pub keyagreement_ec25 : ℕ
keyagreement_ec25 = 0x44

abbrev pub keyagreement_x448 : ℕ
keyagreement_x448 = 0x45

abbrev pub keyagreement_k448 : ℕ
keyagreement_k448 = 0x46

abbrev pub keyagreement_dh3k : ℕ
keyagreement_dh3k = 0x47

abbrev pub keyagreement_ec38 : ℕ
keyagreement_ec38 = 0x48

abbrev pub keyagreement_ec52 : ℕ
keyagreement_ec52 = 0x49

abbrev pub keyagreement_kyb1 : ℕ
keyagreement_kyb1 = 0x4a

abbrev pub keyagreement_kyb2 : ℕ
keyagreement_kyb2 = 0x4b

abbrev pub keyagreement_kyb3 : ℕ
keyagreement_kyb3 = 0x4c

abbrev pub keyagreement_hqc1 : ℕ
keyagreement_hqc1 = 0x4d

abbrev pub keyagreement_hqc2 : ℕ
keyagreement_hqc2 = 0x4e

abbrev pub keyagreement_hqc3 : ℕ
keyagreement_hqc3 = 0x4f

abbrev pub keyagreement_k255_kyb512 : ℕ
keyagreement_k255_kyb512 = 0x51

abbrev pub keyagreement_k255_hqc128 : ℕ
keyagreement_k255_hqc128 = 0x52

abbrev pub keyagreement_k448_kyb1024 : ℕ
keyagreement_k448_kyb1024 = 0x53

abbrev pub keyagreement_k448_hqc256 : ℕ
keyagreement_k448_hqc256 = 0x54

abbrev pub keyagreement_k255_kyb512_hqc128 : ℕ
keyagreement_k255_kyb512_hqc128 = 0x55

abbrev pub keyagreement_k448_kyb1024_hqc256 : ℕ
keyagreement_k448_kyb1024_hqc256 = 0x56

abbrev pub keyagreement_prsh : ℕ
keyagreement_prsh = 0x9e

abbrev pub keyagreement_mult : ℕ
keyagreement_mult = 0x9f

abbrev pub sas_b32 : ℕ
sas_b32 = 0xa1

abbrev pub sas_b256 : ℕ
sas_b256 = 0xa2

-- bzrtpUtils_getMandatoryCryptoTypes: the array and, by its length, the count.
abbrev pub get_mandatory_crypto_types : Family → List ℕ
get_mandatory_crypto_types Family.hash_type = hash_s256 ∷ []
get_mandatory_crypto_types Family.cipherblock_type = cipher_aes1 ∷ []
get_mandatory_crypto_types Family.authtag_type = authtag_hs32 ∷ authtag_hs80 ∷ []
get_mandatory_crypto_types Family.keyagreement_type = keyagreement_dh3k ∷ keyagreement_mult ∷ []
get_mandatory_crypto_types Family.sas_type = sas_b32 ∷ []
