-- ===== src/Algo/Mandatory/Meaning.antt =====
-- What `add_mandatory_crypto_types_if_needed` leaves: the mandatory algorithms, no repetition, and at
-- most seven entries. `todo` are the mandatory algorithms that the second loop has still to visit.
use bzrtp.Common.{
  ℕ, zero, suc, ◌+◌, ◌-◌, ◌≤◌, List, [], ◌∷◌, ◌++◌, ltb, ==_iff, ==_refl, length, Bitmask, true,
  false, ◌&&◌, ◌||◌, contains, nodup, ◌≡◌, refl, arith, Bool-cases, inl, inr, length-append,
  contains-append, nodup-append_one,
}
use bzrtp.Algo.Codes.{Family, get_mandatory_crypto_types}
use bzrtp.Algo.Mandatory.{
  Loop, keep, filter_loop, add_missing, start, add_mandatory_crypto_types_if_needed,
}
use bzrtp.Algo.Mandatory.Kept.{count, Inv, filter_loop-Inv, count_none, start-Inv}

-- What the second loop makes of the kept entries, given those that it has still to visit.
abbrev Completes : List ℕ → Bitmask → ℕ → List ℕ → List ℕ → Type 0
Completes kept m n rest out =
    (nodup out ≡ true)
    × (length out ≡ length kept + n)
    × ((x : ℕ) → contains x out ≡ (contains x kept || (contains x rest && m x)))

abbrev at_work : List ℕ → Bitmask → Bitmask → ℕ → Loop
at_work kept algos m n = record { kept = kept; algos = algos; missing = m; missing_count = n }

add_missing_step :
    (kept : List ℕ) (m : Bitmask) (n v : ℕ) (vs out : List ℕ)
    → contains v vs ≡ false
    → m v ≡ true
    → Completes (kept ++ v ∷ []) m n vs out
    → Completes kept m (suc n) (v ∷ vs) out
unfolding contains
add_missing_step kept m n v vs out d mv (dist, len, mem) = (
  dist,
  omega (arith, length-append kept (v ∷ [])),
  λ x. ground (arith, mem x, contains-append x kept (v ∷ []), ==_iff x v),
)

add_missing_skip :
    (kept : List ℕ) (m : Bitmask) (n v : ℕ) (vs out : List ℕ)
    → m v ≡ false
    → Completes kept m n vs out
    → Completes kept m n (v ∷ vs) out
unfolding contains
add_missing_skip kept m n v vs out mv (dist, len, mem) =
    (dist, len, λ x. ground (arith, mem x, ==_iff x v))

add_missing_found :
    (kept : List ℕ) (algos m : Bitmask) (n v : ℕ) (vs : List ℕ)
    → m v ≡ true
    → add_missing (at_work kept algos m (suc n)) (v ∷ vs)
      ≡ add_missing (at_work (kept ++ v ∷ []) algos m n) vs
unfolding add_missing
add_missing_found kept algos m n v vs t =
    let less : suc n - 1 ≡ n = omega arith in
    let more : ltb 0 (suc n) ≡ true = ground arith in rw t (rw more (rw less))

add_missing_other :
    (kept : List ℕ) (algos m : Bitmask) (n v : ℕ) (vs : List ℕ)
    → m v ≡ false
    → add_missing (at_work kept algos m (suc n)) (v ∷ vs)
      ≡ add_missing (at_work kept algos m (suc n)) vs
unfolding add_missing
add_missing_other kept algos m n v vs t =
    let more : ltb 0 (suc n) ≡ true = ground arith in rw t (rw more)

add_missing_lem :
    (kept : List ℕ) (algos m : Bitmask) (n : ℕ) (rest : List ℕ)
    → nodup kept ≡ true
    → nodup rest ≡ true
    → ((x : ℕ) → (contains x rest && (m x && contains x kept)) ≡ false)
    → n ≡ count m rest
    → Completes kept m n rest (add_missing (at_work kept algos m n) rest)
unfolding contains nodup
add_missing_lem kept algos m n [] dk dr fresh e = (
  unfold add_missing in dk,
  unfold add_missing in omega arith,
  λ x. unfold add_missing in ground arith,
)
add_missing_lem kept algos m zero (v ∷ vs) dk dr fresh e = (
  unfold add_missing in dk,
  unfold add_missing in omega arith,
  λ x. unfold add_missing in ground (arith, count_none m (v ∷ vs) x),
)
add_missing_lem kept algos m (suc n) (v ∷ vs) dk dr fresh e = elim (Bool-cases (m v)) [
  | inl t ↦ rw (add_missing_found kept algos m n v vs t) (
      add_missing_step kept m n v vs _ (ground (arith, dr)) t (
        add_missing_lem (kept ++ v ∷ []) algos m n vs
          (ground (arith, nodup-append_one kept v, fresh v, ==_refl v)) (ground (arith, dr))
          (λ x. ground (arith, fresh x, contains-append x kept (v ∷ []), ==_iff x v))
          (ground arith)))
  | inr t ↦ rw (add_missing_other kept algos m n v vs t) (
      add_missing_skip kept m (suc n) v vs _ t (
        add_missing_lem kept algos m (suc n) vs dk (ground (arith, dr))
          (λ x. ground (arith, fresh x)) (ground arith)))
]

start_empty : (mandatory : List ℕ) (x : ℕ) → contains x (start mandatory).kept ≡ false
unfolding start contains
start_empty mandatory x = refl

filter_loop-subset :
    (x : ℕ) (xs : List ℕ) (s : Loop)
    → contains x (filter_loop s xs).kept ≡ true
    → (contains x s.kept || contains x xs) ≡ true
unfolding filter_loop keep contains
filter_loop-subset x [] s h = ground arith
filter_loop-subset x (y ∷ ys) s h = ground (
  arith,
  filter_loop-subset x ys (keep y s),
  filter_loop-subset x ys s,
  contains-append x s.kept (y ∷ []),
)

mandatory_ok :
    (family : Family)
    → (nodup (get_mandatory_crypto_types family) ≡ true)
      × (length (get_mandatory_crypto_types family) ≤ 7)
unfolding nodup contains
mandatory_ok Family.hash_type = (refl, omega arith)
mandatory_ok _ = (refl, omega arith)

abbrev after : Family → List ℕ → Loop
after family xs = filter_loop (start (get_mandatory_crypto_types family)) xs

after-Inv :
    (family : Family) (xs : List ℕ) → Inv (get_mandatory_crypto_types family) (after family xs)
after-Inv family xs =
    let (distinct, short) = mandatory_ok family in
    filter_loop-Inv _ xs _ distinct (start-Inv _ short)

add_mandatory-Completes :
    (family : Family) (xs : List ℕ)
    → Completes
        (after family xs).kept
        (after family xs).missing
        (after family xs).missing_count
        (get_mandatory_crypto_types family)
        (add_mandatory_crypto_types_if_needed family xs)
unfolding add_mandatory_crypto_types_if_needed
add_mandatory-Completes family xs =
    let i = after-Inv family xs in
    let s = after family xs in
    add_missing_lem s.kept s.algos s.missing s.missing_count (get_mandatory_crypto_types family)
      i.distinct (mandatory_ok family).0 (λ x. ground (arith, i.open_missing x)) i.counted

-- The list that the function leaves has no repetition, at most seven entries and every mandatory
-- algorithm of the family; each of its entries is mandatory or was given.
pub add_mandatory_sound :
    (family : Family) (xs : List ℕ)
    → let mandatory = get_mandatory_crypto_types family in
      let out = add_mandatory_crypto_types_if_needed family xs in
      (nodup out ≡ true)
      × (length out ≤ 7)
      × ((x : ℕ) → contains x mandatory ≡ true → contains x out ≡ true)
      × ((x : ℕ) → contains x out ≡ true → (contains x mandatory || contains x xs) ≡ true)
add_mandatory_sound family xs =
    let i = after-Inv family xs in
    let c = add_mandatory-Completes family xs in
    (
      c.0,
      omega (arith, c.1, i.room),
      λ x m. ground (arith, c.2 x, i.open_missing x),
      λ x m. ground (
        arith,
        c.2 x,
        filter_loop-subset x xs (start (get_mandatory_crypto_types family)),
        start_empty (get_mandatory_crypto_types family) x,
      ),
    )
