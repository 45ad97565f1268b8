-- ===== src/Algo/Names.antt =====
-- The four character names of the algorithms (src/cryptoUtils.cc): a chain of `memcmp`s in one
-- direction, a `switch` in the other, and their agreement.
use bzrtp.Common.{
  ℕ, Bytes, codes, List, [], ◌∷◌, Bool, true, false, if◌then◌else◌, ◌==◌, ◌&&◌, ◌||◌, bytes_eq,
  bytes_eq_iff, ◌≡◌, ◌≢◌, refl, arith,
}
use bzrtp.Algo.Codes.{Family, unset_algo}

abbrev pub NameTable : Type 0
NameTable = List (Bytes × ℕ)

-- `if (memcmp(algoType, "S256", 4) == 0) return ZRTP_HASH_S256; else if …; return ZRTP_UNSET_ALGO;`
code_of : Bytes → NameTable → ℕ
code_of s [] = unset_algo
code_of s ((name, n) ∷ rest) = if bytes_eq s name then n else code_of s rest

-- `switch (algoTypeInt) { case ZRTP_HASH_S256: "S256" … default: "NSET" }`
unfoldable pub name_of : ℕ → NameTable → Bytes
name_of n [] = codes "NSET"
name_of n ((name, m) ∷ rest) = if n == m then name else name_of n rest

abbrev pub hash_names : NameTable
hash_names =
    (codes "S256", 0x11)
    ∷ (codes "S384", 0x12)
    ∷ (codes "S512", 0x13)
    ∷ (codes "N256", 0x14)
    ∷ (codes "N384", 0x15)
    ∷ []

abbrev pub cipher_names : NameTable
cipher_names =
    (codes "AES1", 0x21)
    ∷ (codes "AES2", 0x22)
    ∷ (codes "AES3", 0x23)
    ∷ (codes "2FS1", 0x24)
    ∷ (codes "2FS2", 0x25)
    ∷ (codes "2FS3", 0x26)
    ∷ []

abbrev pub auth_tag_names : NameTable
auth_tag_names =
    (codes "HS32", 0x31)
    ∷ (codes "HS80", 0x32)
    ∷ (codes "SK32", 0x33)
    ∷ (codes "SK64", 0x34)
    ∷ (codes "GCM ", 0x35)
    ∷ []

abbrev pub key_agreement_names : NameTable
key_agreement_names =
    (codes "DH3k", 0x47)
    ∷ (codes "DH2k", 0x41)
    ∷ (codes "X255", 0x42)
    ∷ (codes "K255", 0x43)
    ∷ (codes "EC25", 0x44)
    ∷ (codes "X448", 0x45)
    ∷ (codes "K448", 0x46)
    ∷ (codes "EC38", 0x48)
    ∷ (codes "EC52", 0x49)
    ∷ (codes "KYB1", 0x4a)
    ∷ (codes "KYB2", 0x4b)
    ∷ (codes "KYB3", 0x4c)
    ∷ (codes "HQD1", 0x4d)
    ∷ (codes "HQD2", 0x4e)
    ∷ (codes "HQD3", 0x4f)
    ∷ (codes "X1K1", 0x51)
    ∷ (codes "X1H1", 0x52)
    ∷ (codes "X3K3", 0x53)
    ∷ (codes "X3H3", 0x54)
    ∷ (codes "XKR1", 0x55)
    ∷ (codes "XKR3", 0x56)
    ∷ (codes "Prsh", 0x9e)
    ∷ (codes "Mult", 0x9f)
    ∷ []

abbrev pub sas_names : NameTable
sas_names = (codes "B32 ", 0xa1) ∷ (codes "B256", 0xa2) ∷ []

abbrev pub names : Family → NameTable
names Family.hash_type = hash_names
names Family.cipherblock_type = cipher_names
names Family.authtag_type = auth_tag_names
names Family.keyagreement_type = key_agreement_names
names Family.sas_type = sas_names

-- The cases of `bzrtp_cryptoAlgoTypeIntToString`, in their order.
abbrev pub all_names : NameTable
all_names =
    (codes "S256", 0x11)
    ∷ (codes "S384", 0x12)
    ∷ (codes "S512", 0x13)
    ∷ (codes "N256", 0x14)
    ∷ (codes "N384", 0x15)
    ∷ (codes "AES1", 0x21)
    ∷ (codes "AES2", 0x22)
    ∷ (codes "AES3", 0x23)
    ∷ (codes "2FS1", 0x24)
    ∷ (codes "2FS2", 0x25)
    ∷ (codes "2FS3", 0x26)
    ∷ (codes "HS32", 0x31)
    ∷ (codes "HS80", 0x32)
    ∷ (codes "SK32", 0x33)
    ∷ (codes "SK64", 0x34)
    ∷ (codes "GCM ", 0x35)
    ∷ (codes "DH2k", 0x41)
    ∷ (codes "X255", 0x42)
    ∷ (codes "K255", 0x43)
    ∷ (codes "EC25", 0x44)
    ∷ (codes "X448", 0x45)
    ∷ (codes "K448", 0x46)
    ∷ (codes "DH3k", 0x47)
    ∷ (codes "EC38", 0x48)
    ∷ (codes "EC52", 0x49)
    ∷ (codes "KYB1", 0x4a)
    ∷ (codes "KYB2", 0x4b)
    ∷ (codes "KYB3", 0x4c)
    ∷ (codes "HQD1", 0x4d)
    ∷ (codes "HQD2", 0x4e)
    ∷ (codes "HQD3", 0x4f)
    ∷ (codes "X1K1", 0x51)
    ∷ (codes "X1H1", 0x52)
    ∷ (codes "X3K3", 0x53)
    ∷ (codes "X3H3", 0x54)
    ∷ (codes "XKR1", 0x55)
    ∷ (codes "XKR3", 0x56)
    ∷ (codes "Prsh", 0x9e)
    ∷ (codes "Mult", 0x9f)
    ∷ (codes "B32 ", 0xa1)
    ∷ (codes "B256", 0xa2)
    ∷ []

-- Membership of a code in a table.
unfoldable pub is_code : ℕ → NameTable → Bool
is_code n [] = false
is_code n ((name, m) ∷ rest) = (n == m) || is_code n rest

unfoldable pub crypto_algo_type_string_to_int : Bytes → Family → ℕ
unfolding code_of bytes_eq
crypto_algo_type_string_to_int s family = code_of s (names family)

unfoldable pub crypto_algo_type_int_to_string : ℕ → Bytes
unfolding name_of
crypto_algo_type_int_to_string n = name_of n all_names

-- The algorithms that a family names.
abbrev pub IsNamed : ℕ → Family → Type 0
IsNamed n family = is_code n (names family) ≡ true

-- Every entry of a table is found again by its code, and by its name.
names_found : (ℕ → Bytes) → NameTable → Bool
names_found f [] = true
names_found f ((name, n) ∷ rest) = bytes_eq (f n) name && names_found f rest

codes_found : (ℕ → Bytes) → NameTable → NameTable → Bool
codes_found f t [] = true
codes_found f t ((name, n) ∷ rest) = (code_of (f n) t == n) && codes_found f t rest

name_of-code_of :
    (f : ℕ → Bytes) (s : Bytes) (t : NameTable)
    → names_found f t ≡ true
    → code_of s t ≢ unset_algo
    → f (code_of s t) ≡ s
unfolding code_of names_found
name_of-code_of f s [] h ne = absurd (ne refl)
name_of-code_of f s ((name, n) ∷ rest) h ne =
    ground (arith, bytes_eq_iff s name, bytes_eq_iff (f n) name, name_of-code_of f s rest)

code_of-name_of :
    (f : ℕ → Bytes) (n : ℕ) (t u : NameTable)
    → codes_found f t u ≡ true
    → is_code n u ≡ true
    → code_of (f n) t ≡ n
unfolding codes_found is_code
code_of-name_of f n t [] h m = cc
code_of-name_of f n t ((name, k) ∷ rest) h m = ground (arith, code_of-name_of f n t rest)

all_names_found :
    (family : Family) → names_found crypto_algo_type_int_to_string (names family) ≡ true
unfolding names_found crypto_algo_type_int_to_string bytes_eq
all_names_found Family.hash_type = refl
all_names_found _ = refl

all_codes_found :
    (family : Family)
    → codes_found crypto_algo_type_int_to_string (names family) (names family) ≡ true
unfolding codes_found crypto_algo_type_int_to_string crypto_algo_type_string_to_int
all_codes_found Family.hash_type = refl
all_codes_found _ = refl

-- A name that the parser of a family accepts is the name that the printer gives its code.
pub int_to_string-string_to_int :
    (s : Bytes) (family : Family)
    → crypto_algo_type_string_to_int s family ≢ unset_algo
    → crypto_algo_type_int_to_string (crypto_algo_type_string_to_int s family) ≡ s
unfolding crypto_algo_type_string_to_int
int_to_string-string_to_int s family ne =
    name_of-code_of crypto_algo_type_int_to_string s (names family) (all_names_found family) ne

-- The code of an algorithm of a family survives printing and parsing in that family.
pub string_to_int-int_to_string :
    (n : ℕ) (family : Family)
    → IsNamed n family
    → crypto_algo_type_string_to_int (crypto_algo_type_int_to_string n) family ≡ n
unfolding crypto_algo_type_string_to_int
string_to_int-int_to_string n family h =
    code_of-name_of crypto_algo_type_int_to_string n (names family) (names family)
      (all_codes_found family) h
