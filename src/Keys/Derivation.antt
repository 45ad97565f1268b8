-- ===== src/Keys/Derivation.antt =====
-- bzrtp_keyDerivationFunction (src/cryptoUtils.cc), and the calls through `hashFunction`.
use bzrtp.Common.{ℕ, ◌*◌, ◌/◌, ◌%◌, Bytes, [], ◌∷◌, ◌++◌, Option, none, some, Result, ok, fault}
use bzrtp.Channel.{Crypto, HashFunction}

-- `hmacLength` is a uint8_t in bytes; its value in bits ends the input.
abbrev pub kdf_input : Bytes → Bytes → ℕ → Bytes
kdf_input label kdf_context n =
    0 ∷ 0 ∷ 0 ∷ 1 ∷ (label ++ 0 ∷ (kdf_context ++ 0 ∷ 0 ∷ (n / 32 % 256) ∷ (n * 8 % 256) ∷ []))

-- `none` is a NULL `hmacFunction`.
unfoldable pub key_derivation_function :
    Crypto → Option HashFunction → Bytes → Bytes → Bytes → ℕ → Result Bytes
key_derivation_function c none key label kdf_context n = fault
key_derivation_function c (some f) key label kdf_context n =
    ok (c.hmac f key (kdf_input label kdf_context n) n)

unfoldable pub call_hash : Crypto → Option HashFunction → Bytes → ℕ → Result Bytes
call_hash c none input n = fault
call_hash c (some f) input n = ok (c.hash f input n)

-- A key that may be NULL, and is read by the HMAC.
unfoldable pub stored_key : Option Bytes → Result Bytes
stored_key none = fault
stored_key (some key) = ok key
