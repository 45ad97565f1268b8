-- ===== src/Algo/Mandatory/Kept.antt =====
-- What holds between two rounds of the first loop of `add_mandatory_crypto_types_if_needed`
-- (src/cryptoUtils.cc), which keeps entries of the given list.
use bzrtp.Common.{
  ℕ, suc, ◌+◌, ◌≤◌, List, [], ◌∷◌, if◌then◌else◌, ltb, ◌==◌, ==_iff, ==_refl, length, Bitmask,
  bitmask_zero, bitmask_unset, true, false, not, ◌&&◌, ◌||◌, contains, nodup, ◌≡◌, refl, sym, arith,
  Bool-cases, inl, inr, bitmask_set_all-contains, length-append, contains-append, nodup-append_one,
}
use bzrtp.Algo.Mandatory.{Loop, keep, filter_loop, start}

-- How many entries of a list a mask holds.
abbrev pub count : Bitmask → List ℕ → ℕ
count m [] = 0
count m (v ∷ vs) = if m v then suc (count m vs) else count m vs

-- What holds between two rounds of the first loop.
pub record Inv (mandatory : List ℕ) (s : Loop) : Type 0 where
  pub distinct : nodup s.kept ≡ true
  pub seen : (x : ℕ) → s.algos x ≡ contains x s.kept
  pub open_missing : (x : ℕ) → s.missing x ≡ (contains x mandatory && not (contains x s.kept))
  pub counted : s.missing_count ≡ count s.missing mandatory
  pub room : length s.kept + s.missing_count ≤ 7

pub count-unset_other :
    (m : Bitmask) (x : ℕ) (vs : List ℕ)
    → contains x vs ≡ false
    → count (bitmask_unset m x) vs ≡ count m vs
unfolding contains
count-unset_other m x [] h = refl
count-unset_other m x (v ∷ vs) h = ground (arith, count-unset_other m x vs, ==_iff v x)

pub count-unset :
    (m : Bitmask) (x : ℕ) (vs : List ℕ)
    → nodup vs ≡ true
    → m x ≡ true
    → contains x vs ≡ true
    → suc (count (bitmask_unset m x) vs) ≡ count m vs
unfolding nodup contains
count-unset m x [] d h c = cc
count-unset m x (v ∷ vs) d h c = elim (Bool-cases (x == v)) [
  | inl e ↦ ground (arith, count-unset_other m x vs, ==_iff x v)
  | inr ne ↦ ground (arith, count-unset m x vs, ==_iff x v, ==_iff v x)
]

pub keep-Inv :
    (mandatory : List ℕ) (x : ℕ) (s : Loop)
    → nodup mandatory ≡ true
    → Inv mandatory s
    → ((ltb (length s.kept + s.missing_count) 7 || s.missing x) && not (s.algos x)) ≡ true
    → Inv mandatory (keep x s)
unfolding keep contains
keep-Inv mandatory x s d i h = record {
  distinct = ground (arith, nodup-append_one s.kept x, i.seen x);
  seen = λ y. ground (arith, i.seen y, contains-append y s.kept (x ∷ []));
  open_missing = λ y. ground (
    arith,
    i.seen x,
    i.open_missing x,
    i.open_missing y,
    ==_iff y x,
    contains-append y s.kept (x ∷ []),
  );
  counted = ground (arith, i.open_missing x, count-unset s.missing x mandatory);
  room =
      ground
        (arith, i.open_missing x, length-append s.kept (x ∷ []), count-unset s.missing x mandatory);
}

pub filter_loop-Inv :
    (mandatory xs : List ℕ) (s : Loop)
    → nodup mandatory ≡ true
    → Inv mandatory s
    → Inv mandatory (filter_loop s xs)
unfolding filter_loop
filter_loop-Inv mandatory [] s d i = i
filter_loop-Inv mandatory (x ∷ xs) s d i = elim (Bool-cases (ltb (length s.kept) 7)) [
  | inl more ↦
      rw more
        (elim (Bool-cases
          ((ltb (length s.kept + s.missing_count) 7 || s.missing x) && not (s.algos x))) [
            | inl t ↦
                rw t (filter_loop-Inv mandatory xs (keep x s) d (keep-Inv mandatory x s d i t))
            | inr t ↦ rw t (filter_loop-Inv mandatory xs s d i)
          ])
  | inr full ↦ rw full i
]

pub count_all :
    (m : Bitmask) (vs : List ℕ)
    → ((x : ℕ) → contains x vs ≡ true → m x ≡ true)
    → count m vs ≡ length vs
unfolding contains
count_all m [] h = refl
count_all m (v ∷ vs) h = ground (arith, h v, ==_refl v, count_all m vs (λ x c. h x (ground arith)))

pub count_none :
    (m : Bitmask) (vs : List ℕ) (x : ℕ) → count m vs ≡ 0 → (contains x vs && m x) ≡ false
unfolding contains
count_none m [] x h = refl
count_none m (v ∷ vs) x h = ground (arith, count_none m vs x, ==_iff x v)

pub start-Inv : (mandatory : List ℕ) → length mandatory ≤ 7 → Inv mandatory (start mandatory)
unfolding start nodup contains
start-Inv mandatory h = record {
  distinct = refl;
  seen = λ x. refl;
  open_missing = λ x. ground (arith, bitmask_set_all-contains bitmask_zero mandatory x);
  counted = sym (
      count_all _ mandatory
        (λ x c. ground (arith, bitmask_set_all-contains bitmask_zero mandatory x)));
  room = omega arith;
}
