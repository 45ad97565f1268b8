-- ===== src/Tests/Agreement.antt =====
-- The algorithms: selection, mandatory members, names and agreement.
use bzrtp.Common.{
  ℕ, codes, List, [], ◌∷◌, length, contains, nodup, ◌≡◌, refl, arith, ◌&&◌, ◌||◌, ◌≤◌, true,
  if◌then◌else◌, get_or,
}
use bzrtp.Algo.{Family, get_mandatory_crypto_types}
use bzrtp.Algo.Names.{
  is_code, crypto_algo_type_string_to_int, crypto_algo_type_int_to_string,
  int_to_string-string_to_int, string_to_int-int_to_string,
}
use bzrtp.Algo.Select.{select_common_algo}
use bzrtp.Algo.Select.Meaning.{contains-select_common_algo}
use bzrtp.Algo.Mandatory.{add_mandatory_crypto_types_if_needed}
use bzrtp.Algo.Mandatory.Meaning.{add_mandatory_sound}
use bzrtp.Algo.Agreement.Choice.{choose_key_agreement, choose_strong}
use bzrtp.Algo.Agreement.Meaning.{
  choose_key_agreement_comm, choose_key_agreement-contains, choose_strong-contains,
}
use bzrtp.Crc.{crc32_lookup_table}
use bzrtp.Crc.Table.{crc32_bits, crc32_lookup_table-bits}

abbrev fast_first : List ℕ
fast_first = 0x42 ∷ 0x47 ∷ 0x45 ∷ []

abbrev strong_first : List ℕ
strong_first = 0x45 ∷ 0x42 ∷ 0x47 ∷ []

selection_example :
    contains 0x45 (select_common_algo fast_first strong_first)
    ≡ (contains 0x45 fast_first && contains 0x45 strong_first)
selection_example = contains-select_common_algo 0x45 fast_first strong_first (omega arith)

agreement_example :
    choose_key_agreement fast_first strong_first ≡ choose_key_agreement strong_first fast_first
agreement_example = choose_key_agreement_comm fast_first strong_first

support_example : (contains 0x42 fast_first ≡ true) × (contains 0x42 strong_first ≡ true)
unfolding choose_key_agreement select_common_algo
support_example =
    choose_key_agreement-contains fast_first strong_first 0x42 (omega arith) (omega arith) refl

strong_example : choose_strong 0x13 0x12 0x11 (0x11 ∷ 0x12 ∷ []) ≡ (
    if contains 0x13 (0x11 ∷ 0x12 ∷ [])
    then 0x13
    else if contains 0x12 (0x11 ∷ 0x12 ∷ [])
    then 0x12
    else 0x11)
strong_example =
    choose_strong-contains 0x13 0x12 0x11 (0x11 ∷ 0x12 ∷ []) (λ e. absurd (omega arith))
      (λ e. absurd (omega arith))

name_example :
    crypto_algo_type_string_to_int (crypto_algo_type_int_to_string 0x47) Family.keyagreement_type
    ≡ 0x47
unfolding is_code
name_example = string_to_int-int_to_string 0x47 Family.keyagreement_type refl

code_example :
    crypto_algo_type_int_to_string
      (crypto_algo_type_string_to_int (codes "X255") Family.keyagreement_type)
    ≡ codes "X255"
unfolding crypto_algo_type_string_to_int
code_example =
    int_to_string-string_to_int (codes "X255") Family.keyagreement_type (λ e. absurd (omega arith))

crc_example : get_or crc32_lookup_table 200 0 ≡ crc32_bits 8 200
crc_example = crc32_lookup_table-bits 200 (omega arith)

abbrev short_list : List ℕ
short_list = 0x42 ∷ 0x42 ∷ 0x45 ∷ []

mandatory_example :
    (nodup (add_mandatory_crypto_types_if_needed Family.keyagreement_type short_list) ≡ true)
    × (length (add_mandatory_crypto_types_if_needed Family.keyagreement_type short_list) ≤ 7)
    × ((x : ℕ)
        → contains x (get_mandatory_crypto_types Family.keyagreement_type) ≡ true
        → contains x (add_mandatory_crypto_types_if_needed Family.keyagreement_type short_list)
          ≡ true)
    × ((x : ℕ)
        → contains x (add_mandatory_crypto_types_if_needed Family.keyagreement_type short_list)
          ≡ true
        → (contains x (get_mandatory_crypto_types Family.keyagreement_type)
            || contains x short_list)
          ≡ true)
mandatory_example = add_mandatory_sound Family.keyagreement_type short_list
