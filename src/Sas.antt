-- ===== src/Sas.antt =====
-- The rendering of the short authentication string: bzrtp_base32 and bzrtp_base256
-- (src/cryptoUtils.cc).
use bzrtp.Channel.{SasFunction}
use bzrtp.Sas.EvenWords.{pgp_words_even}
use bzrtp.Sas.OddWords.{pgp_words_odd}
use bzrtp.Common.{
  take, ◌++◌, ◌==◌, ℕ, zero, suc, ◌-◌, ◌/◌, ◌%◌, ◌^◌, Bytes, codes, get_or, ltb, [], ◌∷◌, Result,
  ok, fault, ◌>>=◌, if◌then◌else◌,
}
pub mod EvenWords
pub mod OddWords
pub mod Reading

-- The alphabet of RFC 6189, section 5.1.6.
abbrev pub base32_alphabet : Bytes
base32_alphabet = codes "ybndrfg8ejkmcpqxot1uwisza345h769"

-- `n = (sas >> shift) & 31; output[i] = "…"[n];`
unfoldable pub base32_character : ℕ → ℕ → ℕ
base32_character sas shift = get_or base32_alphabet (sas / 2 ^ shift % 32) 0

-- The rounds that are left, and the shift of the next one. A shift below zero is undefined in C.
unfoldable pub base32_loop : ℕ → ℕ → ℕ → Result Bytes
unfolding base32_character
base32_loop zero sas shift = ok (0 ∷ [])
base32_loop (suc zero) sas shift = ok (base32_character sas shift ∷ 0 ∷ [])
base32_loop (suc (suc n)) sas shift =
    let rest = base32_loop (suc n) sas (shift - 5) in
    if ltb shift 5 then fault else do output ← rest; ok (base32_character sas shift ∷ output)

-- With an output size of 0 the loop runs past the end of the output.
unfoldable pub base32 : ℕ → ℕ → Result Bytes
unfolding base32_loop
base32 sas zero = fault
base32 sas (suc n) = base32_loop n sas 27

-- `snprintf(output, outputSize, …)`: the text is cut to the buffer, and ends with a null.
abbrev pub print_to : ℕ → Bytes → Bytes
print_to output_size text = take (output_size - 1) text ++ 0 ∷ []

abbrev pub even_word : ℕ → Bytes
even_word sas = get_or pgp_words_even (sas / 2 ^ 24 % 256) []

abbrev pub odd_word : ℕ → Bytes
odd_word sas = get_or pgp_words_odd (sas / 2 ^ 16 % 256) []

-- The bytes of the output up to its null; a buffer of no bytes is left as it is.
unfoldable pub base256 : ℕ → ℕ → Result Bytes
base256 sas zero = ok []
base256 sas (suc n) =
    ok (
      print_to (suc n)
        (if suc n == 32 then even_word sas ++ b':' ∷ odd_word sas else even_word sas))

-- The call of `sasFunction`.
unfoldable pub call_sas_function : SasFunction → ℕ → ℕ → Result Bytes
unfolding base32 base256
call_sas_function SasFunction.base32 sas output_size = base32 sas output_size
call_sas_function SasFunction.base256 sas output_size = base256 sas output_size
