-- ===== src/Algo/Agreement/Choice.antt =====
-- The choices of bzrtp_cryptoAlgoAgreement (src/cryptoUtils.cc), and the function itself.
use bzrtp.Common.{
  ℕ, List, [], ◌∷◌, Option, none, some, Error, if◌then◌else◌, ◌==◌, ltb, ◌||◌, Bool, contains,
}
use bzrtp.Algo.Codes.{
  unset_algo, hash_s256, hash_s384, hash_s512, cipher_aes1, cipher_aes2, cipher_aes3,
  keyagreement_x448, keyagreement_k448, keyagreement_ec38, keyagreement_kyb1, keyagreement_kyb2,
  keyagreement_kyb3, keyagreement_hqc1, keyagreement_hqc2, keyagreement_hqc3,
  keyagreement_k255_kyb512, keyagreement_k255_hqc128, keyagreement_k448_kyb1024,
  keyagreement_k448_hqc256, keyagreement_k255_kyb512_hqc128, keyagreement_k448_kyb1024_hqc256,
}
use bzrtp.Algo.Select.{select_common_algo}
use bzrtp.Algo.Agreement.{Outcome, done, failed, ◌then_do◌, update_crypto_function_pointers}
use bzrtp.Channel.{Channel}
use bzrtp.Context.{Context}
use bzrtp.Packet.Types.{HelloMessage}

unfoldable pub is_post_quantum : ℕ → Bool
unfolding contains
is_post_quantum algo = contains algo (
    keyagreement_kyb1 ∷ keyagreement_kyb2 ∷ keyagreement_kyb3 ∷ keyagreement_hqc1
    ∷ keyagreement_hqc2 ∷ keyagreement_hqc3 ∷ keyagreement_k255_kyb512 ∷ keyagreement_k255_hqc128
    ∷ keyagreement_k448_kyb1024 ∷ keyagreement_k448_hqc256 ∷ keyagreement_k255_kyb512_hqc128
    ∷ keyagreement_k448_kyb1024_hqc256 ∷ [])

-- The first choice of each side, or the faster one of the two; the codes are in that order. `none`
-- where nothing is in common (both selections are empty then).
unfoldable pub choose_first : List ℕ → List ℕ → Option ℕ
choose_first (a ∷ rest) (b ∷ others) = some (if a == b then a else if ltb b a then b else a)
choose_first _ _ = none

unfoldable pub choose_key_agreement : List ℕ → List ℕ → Option ℕ
unfolding choose_first
choose_key_agreement self peer =
    choose_first (select_common_algo self peer) (select_common_algo peer self)

-- `while (i < n && algo == ZRTP_UNSET_ALGO) { if (common[i] == wanted) algo = wanted; i++; }`
unfoldable pub seek : ℕ → List ℕ → ℕ → ℕ
seek wanted [] algo = algo
seek wanted (x ∷ xs) algo =
    let next = seek wanted xs (if x == wanted then wanted else algo) in
    if algo == unset_algo then next else algo

-- The key agreements that call for the strongest cipher and hash.
unfoldable pub wants_strong : ℕ → Bool
unfolding is_post_quantum
wants_strong algo =
    algo == keyagreement_ec38
    || (is_post_quantum algo || (algo == keyagreement_x448 || algo == keyagreement_k448))

-- Two wishes in turn, and a last resort.
unfoldable pub choose_strong : ℕ → ℕ → ℕ → List ℕ → ℕ
unfolding seek
choose_strong best second last common =
    let algo = seek second common (seek best common unset_algo) in
    if algo == unset_algo then last else algo

unfoldable pub choose : ℕ → ℕ → ℕ → ℕ → List ℕ → Option ℕ
unfolding choose_strong
choose best second last key_agreement [] = none
choose best second last key_agreement (first ∷ others) =
    some (
      if wants_strong key_agreement then choose_strong best second last (first ∷ others) else first)

-- A step that sets a choice, or returns an error where there is none.
unfoldable pub set_choice : Option ℕ → Error → (ℕ → Channel) → Channel → Outcome
set_choice none e set ch = failed ch e
set_choice (some algo) e set ch = done (set algo)

head_of : List ℕ → Option ℕ
head_of [] = none
head_of (x ∷ xs) = some x

unfoldable pub agree_key_agreement : Context → HelloMessage → Channel → Outcome
agree_key_agreement ctx hello ch =
    set_choice (choose_key_agreement ctx.supported_key_agreement hello.supported_key_agreement)
      Error.cryptoagreement_no_common_algo_found (λ algo. record ch { key_agreement_algo = algo })
      ch

unfoldable pub agree_cipher : Context → HelloMessage → Channel → Outcome
agree_cipher ctx hello ch =
    set_choice
      (choose cipher_aes3 cipher_aes2 cipher_aes1 ch.key_agreement_algo
        (select_common_algo ctx.supported_cipher hello.supported_cipher))
      Error.cryptoagreement_invalid_cipher (λ algo. record ch { cipher_algo = algo }) ch

unfoldable pub agree_hash : Context → HelloMessage → Channel → Outcome
agree_hash ctx hello ch =
    set_choice
      (choose hash_s512 hash_s384 hash_s256 ch.key_agreement_algo
        (select_common_algo ctx.supported_hash hello.supported_hash))
      Error.cryptoagreement_invalid_hash (λ algo. record ch { hash_algo = algo }) ch

unfoldable pub agree_auth_tag : Context → HelloMessage → Channel → Outcome
unfolding head_of
agree_auth_tag ctx hello ch =
    set_choice (head_of (select_common_algo ctx.supported_auth_tag hello.supported_auth_tag))
      Error.cryptoagreement_invalid_auth_tag (λ algo. record ch { auth_tag_algo = algo }) ch

unfoldable pub agree_sas : Context → HelloMessage → Channel → Outcome
unfolding head_of
agree_sas ctx hello ch =
    set_choice (head_of (select_common_algo ctx.supported_sas hello.supported_sas))
      Error.cryptoagreement_invalid_sas (λ algo. record ch { sas_algo = algo }) ch

unfoldable pub agree_all : Context → HelloMessage → Channel → Outcome
agree_all ctx hello ch =
    agree_key_agreement ctx hello ch
    then_do agree_cipher ctx hello
    then_do agree_hash ctx hello
    then_do agree_auth_tag ctx hello
    then_do agree_sas ctx hello
    then_do update_crypto_function_pointers

-- `none` is the NULL message; `kc` is the length of the list.
unfoldable pub crypto_algo_agreement : Context → Channel → Option HelloMessage → Outcome
crypto_algo_agreement ctx ch hello = elim ctx.supported_key_agreement [
  | [] ↦ failed ch Error.cryptoagreement_invalid_context
  | _ ↦ elim hello [
    | none ↦ failed ch Error.cryptoagreement_invalid_message
    | some m ↦ elim m.supported_key_agreement [
      | [] ↦ failed ch Error.cryptoagreement_invalid_message
      | _ ↦ agree_all ctx m ch
    ]
  ]
]
