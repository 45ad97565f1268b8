-- ===== src/Sas/Reading.antt =====
-- What the four characters of a short authentication string tell of its value (src/cryptoUtils.cc).
use bzrtp.Common.{
  ℕ, zero, suc, ◌+◌, ◌*◌, ◌/◌, ◌%◌, ◌^◌, ◌<◌, Bytes, get_or, [], ◌∷◌, ◌==◌, if◌then◌else◌, ok, ◌≡◌,
  refl, arith, ==_iff, Bool, true, false, not, Bool-cases, inl, inr, subst, ◌&&◌,
}
use bzrtp.Sas.{base32, base32_loop, base32_character, base32_alphabet}

-- The index of a character in an alphabet, whose length where it is not there.
pub character_index : ℕ → Bytes → ℕ
character_index x [] = 0
character_index x (y ∷ ys) = if x == y then 0 else 1 + character_index x ys

-- The number that a string of characters stands for, up to its end.
pub base32_value : ℕ → Bytes → ℕ
base32_value v [] = v
base32_value v (x ∷ xs) =
    let rest = base32_value (v * 32 + character_index x base32_alphabet) xs in
    if x == 0 then v else rest

&&-true : (a b : Bool) → (a && b) ≡ true → (a ≡ true) × (b ≡ true)
&&-true true b h = (refl, h)
&&-true false b h = cc

not-true : (a : Bool) → not a ≡ true → a ≡ false
not-true true h = cc
not-true false h = refl

-- An index of the alphabet is that of its character, which is not the end.
is_found : ℕ → Bool
is_found i =
    (character_index (get_or base32_alphabet i 0) base32_alphabet == i)
    && not (get_or base32_alphabet i 0 == 0)

finds : ℕ → Bool
finds zero = true
finds (suc i) = is_found i && finds i

finds_lem : (n i : ℕ) → finds n ≡ true → i < n → is_found i ≡ true
unfolding finds
finds_lem zero i h lt = absurd (omega arith)
finds_lem (suc n) i h lt = elim (Bool-cases (n == i)) [
  | inl same ↦
      subst (λ m. is_found m ≡ true) ((==_iff n i).0 same) (&&-true (is_found n) (finds n) h).0
  | inr other ↦ finds_lem n i (&&-true (is_found n) (finds n) h).1 (ground arith)
]

finds_all : finds 32 ≡ true
unfolding finds is_found character_index
finds_all = refl

is_found-parts :
    (i : ℕ)
    → is_found i ≡ true
    → (character_index (get_or base32_alphabet i 0) base32_alphabet ≡ i)
      × ((get_or base32_alphabet i 0 == 0) ≡ false)
unfolding is_found
is_found-parts i h =
    let (same, nonzero) =
      &&-true (character_index (get_or base32_alphabet i 0) base32_alphabet == i) _ h in
    ((==_iff _ i).0 same, not-true _ nonzero)

base32_value_step :
    (sas shift v : ℕ) (xs : Bytes)
    → base32_value v (base32_character sas shift ∷ xs)
      ≡ base32_value (v * 32 + sas / 2 ^ shift % 32) xs
unfolding base32_value base32_character
base32_value_step sas shift v xs =
    let (found, more) =
      is_found-parts _ (finds_lem 32 (sas / 2 ^ shift % 32) finds_all (omega arith)) in
    rw (more, found) refl

base32_value_end : (v : ℕ) → base32_value v (0 ∷ []) ≡ v
unfolding base32_value
base32_value_end v = refl

four_digits :
    (sas : ℕ)
    → sas < 2 ^ 32
    → ((((0 * 32 + sas / 2 ^ 27 % 32) * 32 + sas / 2 ^ 22 % 32) * 32 + sas / 2 ^ 17 % 32) * 32
        + sas / 2 ^ 12 % 32)
      ≡ sas / 2 ^ 12
four_digits sas h = omega arith

-- The string of five bytes that the library renders stands for the twenty highest bits of the value.
pub base32_value-base32 :
    (sas : ℕ)
    → sas < 2 ^ 32
    → (output : Bytes) × (base32 sas 5 ≡ ok output) × (base32_value 0 output ≡ sas / 2 ^ 12)
unfolding base32 base32_loop
base32_value-base32 sas h = (
  base32_character sas 27
      ∷ base32_character sas 22
      ∷ base32_character sas 17
      ∷ base32_character sas 12
      ∷ 0
      ∷ [],
  refl,
  rw
      (
        base32_value_step sas 27,
        base32_value_step sas 22,
        base32_value_step sas 17,
        base32_value_step sas 12,
        base32_value_end,
      )
      (four_digits sas h),
)
