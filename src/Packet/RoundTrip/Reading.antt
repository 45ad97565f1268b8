-- ===== src/Packet/RoundTrip/Reading.antt =====
-- Reads of fields that were written side by side.
use bzrtp.Common.{
  ℕ, Bytes, length, read, read-append, List, [], ◌∷◌, ◌++◌, append_assoc, ok, ◌≡◌, refl,
}
use bzrtp.Algo.{Family}
use bzrtp.Algo.Names.{crypto_algo_type_int_to_string, IsNamed, string_to_int-int_to_string}
use bzrtp.Algo.Widths.{length-int_to_string, AllNamed}
use bzrtp.Packet.Parser.Reading.{read_algo, read_algos}
use bzrtp.Packet.Builder.Bodies.{algos_string}

-- The first of the fields of a part.
pub read-field :
    (n : ℕ) (xs ys tail : Bytes) → length xs ≡ n → read n ((xs ++ ys) ++ tail) ≡ ok (xs, ys ++ tail)
read-field n xs ys tail h = rw (append_assoc xs ys tail, read-append n xs (ys ++ tail) h)

pub read_algo-append :
    (family : Family) (n : ℕ) (rest : Bytes)
    → IsNamed n family
    → read_algo family (crypto_algo_type_int_to_string n ++ rest) ≡ ok (n, rest)
unfolding read_algo
read_algo-append family n rest h = rw (
  read-append 4 (crypto_algo_type_int_to_string n) rest (length-int_to_string n),
  string_to_int-int_to_string n family h,
)

pub read_algos-append :
    (family : Family) (ns : List ℕ) (rest : Bytes)
    → AllNamed family ns
    → read_algos family (length ns) (algos_string ns ++ rest) ≡ ok (ns, rest)
unfolding read_algos algos_string AllNamed
read_algos-append family [] rest h = refl
read_algos-append family (n ∷ ns) rest h = rw (
  append_assoc (crypto_algo_type_int_to_string n) (algos_string ns) rest,
  read_algo-append family n (algos_string ns ++ rest) h.0,
  read_algos-append family ns rest h.1,
)

pub read_algos-field :
    (family : Family) (ns : List ℕ) (ys tail : Bytes)
    → AllNamed family ns
    → read_algos family (length ns) ((algos_string ns ++ ys) ++ tail) ≡ ok (ns, ys ++ tail)
read_algos-field family ns ys tail h =
    rw (append_assoc (algos_string ns) ys tail) (read_algos-append family ns (ys ++ tail) h)
