-- ===== src/Algo/Select/Meaning.antt =====
-- What `select_common_algo` computes: the first seven of the common algorithms.
use bzrtp.Common.{
  ℕ, zero, suc, ◌+◌, ◌≤◌, List, [], ◌∷◌, ◌++◌, if◌then◌else◌, ==_iff, length, Bitmask, bitmask_zero,
  bitmask_unset, bitmask_set_all, take, true, ◌&&◌, contains, nodup, ◌≡◌, refl, sym, arith,
  bitmask_set_all-contains, append_assoc, length-append, length-take, append-nil,
}
use mathlib.Core.Path.{fun_ext}
use bzrtp.Algo.Select.{select_loop, select_common_algo}

-- The common algorithms in the master's order, each once.
pub common : Bitmask → List ℕ → List ℕ
common m [] = []
common m (x ∷ xs) =
    let found = x ∷ common (bitmask_unset m x) xs in
    let skipped = common m xs in if m x then found else skipped

select_loop-common :
    (xs out : List ℕ) (m : Bitmask) (room : ℕ)
    → length out + suc room ≡ 7
    → select_loop m out xs ≡ out ++ take (suc room) (common m xs)
unfolding select_loop common
select_loop-common [] out m room h = sym (append-nil out)
select_loop-common (x ∷ xs) out m zero h =
    ground (arith, length-append out (x ∷ []), select_loop-common xs out m zero)
select_loop-common (x ∷ xs) out m (suc room) h = ground (
  arith,
  length-append out (x ∷ []),
  select_loop-common xs out m (suc room),
  select_loop-common xs (out ++ x ∷ []) (bitmask_unset m x) room,
  append_assoc out (x ∷ []) (take (suc room) (common (bitmask_unset m x) xs)),
)

slave_mask : (slave : List ℕ) → bitmask_set_all bitmask_zero slave ≡ (λ (x : ℕ). contains x slave)
slave_mask slave = fun_ext (λ x. ground (arith, bitmask_set_all-contains bitmask_zero slave x))

-- The selection is the first seven of the common algorithms, in the master's order and each once.
pub select_common_algo_lem :
    (master slave : List ℕ)
    → select_common_algo master slave ≡ take 7 (common (λ x. contains x slave) master)
unfolding select_common_algo
select_common_algo_lem master slave = rw (slave_mask slave) (select_loop-common master [] _ 6 refl)

contains-common :
    (x : ℕ) (m : Bitmask) (xs : List ℕ) → contains x (common m xs) ≡ (contains x xs && m x)
unfolding contains common
contains-common x m [] = refl
contains-common x m (y ∷ ys) =
    ground (arith, contains-common x m ys, contains-common x (bitmask_unset m y) ys, ==_iff x y)

nodup-common : (m : Bitmask) (xs : List ℕ) → nodup (common m xs) ≡ true
unfolding nodup common
nodup-common m [] = refl
nodup-common m (y ∷ ys) = ground (
  arith,
  contains-common y (bitmask_unset m y) ys,
  nodup-common m ys,
  nodup-common (bitmask_unset m y) ys,
)

length-common : (m : Bitmask) (xs : List ℕ) → length (common m xs) ≤ length xs
unfolding common
length-common m [] = omega arith
length-common m (y ∷ ys) = ground (arith, length-common m ys, length-common (bitmask_unset m y) ys)

contains-take : (x n : ℕ) (xs : List ℕ) → contains x (take n xs) ≡ true → contains x xs ≡ true
unfolding contains
contains-take x zero xs h = cc
contains-take x (suc n) [] h = h
contains-take x (suc n) (y ∷ ys) h = ground (arith, contains-take x n ys)

nodup-take : (n : ℕ) (xs : List ℕ) → nodup xs ≡ true → nodup (take n xs) ≡ true
unfolding nodup
nodup-take zero xs h = refl
nodup-take (suc n) [] h = h
nodup-take (suc n) (y ∷ ys) h = ground (arith, nodup-take n ys, contains-take y n ys)

take_short {ℓ} : {A : Type ℓ} (n : ℕ) (xs : List A) → length xs ≤ n → take n xs ≡ xs
take_short zero [] h = refl
take_short zero (x ∷ xs) h = absurd (omega arith)
take_short (suc n) [] h = refl
take_short (suc n) (x ∷ xs) h = rw (take_short n xs (omega arith))

-- From a master array of at most seven entries, exactly the common algorithms are selected.
pub contains-select_common_algo :
    (x : ℕ) (master slave : List ℕ)
    → length master ≤ 7
    → contains x (select_common_algo master slave) ≡ (contains x master && contains x slave)
contains-select_common_algo x master slave h =
    let m : Bitmask = λ y. contains y slave in
    rw
      (
        select_common_algo_lem,
        take_short 7 (common m master) (omega (arith, length-common m master)),
      )
      (contains-common x m master)

-- No algorithm is selected twice, and at most seven are.
pub select_common_algo_sound :
    (master slave : List ℕ)
    → (nodup (select_common_algo master slave) ≡ true)
      × (length (select_common_algo master slave) ≤ 7)
select_common_algo_sound master slave =
    let m : Bitmask = λ y. contains y slave in
    rw select_common_algo_lem (
      nodup-take 7 (common m master) (nodup-common m master),
      omega (arith, length-take 7 (common m master)),
    )
