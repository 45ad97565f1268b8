-- ===== src/Algo/Widths.antt =====
-- Every name of bzrtp_cryptoAlgoTypeIntToString has four characters (src/cryptoUtils.cc), so a list of
-- algorithms is written and read back in steps of four bytes (src/packetParser.c).
use bzrtp.Common.{ℕ, length, List, [], ◌∷◌, Bool, true, ◌&&◌, ◌==◌, ◌≡◌, refl, arith}
use bzrtp.Algo.Codes.{Family}
use bzrtp.Algo.Names.{NameTable, all_names, name_of, crypto_algo_type_int_to_string, IsNamed}

all_four : NameTable → Bool
all_four [] = true
all_four ((name, n) ∷ rest) = (length name == 4) && all_four rest

length-name_of : (n : ℕ) (t : NameTable) → all_four t ≡ true → length (name_of n t) ≡ 4
unfolding all_four name_of
length-name_of n [] h = refl
length-name_of n ((name, m) ∷ rest) h = ground (arith, length-name_of n rest)

pub length-int_to_string : (n : ℕ) → length (crypto_algo_type_int_to_string n) ≡ 4
unfolding crypto_algo_type_int_to_string all_four
length-int_to_string n = length-name_of n all_names refl

-- Every algorithm of the list has a name in the family.
unfoldable pub AllNamed : Family → List ℕ → Type 0
AllNamed family [] = Unit {0}
AllNamed family (n ∷ ns) = IsNamed n family × AllNamed family ns
