-- ===== src/Common/Sets.antt =====
-- Lists of codes as sets: membership as a test, lists without repetition, and the 256 bit masks of
-- src/cryptoUtils.cc as the tests that they answer.
use Prim.Native.Nat.{ℕ}
use mathlib.Core.Path.{◌≡◌, refl}
use mathlib.Core.Bool.{Bool, true, false, not, ◌&&◌, ◌||◌}
use mathlib.Core.List.{List, [], ◌∷◌, ◌++◌}
use native.Mathlib.Omega.{arith}
use bzrtp.Common.Tests.{◌==◌}

unfoldable pub contains : ℕ → List ℕ → Bool
contains x [] = false
contains x (y ∷ ys) = (x == y) || contains x ys

pub contains-append :
    (x : ℕ) (xs ys : List ℕ) → contains x (xs ++ ys) ≡ (contains x xs || contains x ys)
unfolding contains
contains-append x [] ys = refl
contains-append x (y ∷ xs) ys = ground (arith, contains-append x xs ys)

-- No code stands twice in the list.
unfoldable pub nodup : List ℕ → Bool
nodup [] = true
nodup (x ∷ xs) = not (contains x xs) && nodup xs

pub nodup-append_one :
    (xs : List ℕ) (x : ℕ) → nodup xs ≡ true → contains x xs ≡ false → nodup (xs ++ x ∷ []) ≡ true
unfolding nodup contains
nodup-append_one [] x h c = refl
nodup-append_one (y ∷ ys) x h c =
    ground (arith, nodup-append_one ys x, contains-append y ys (x ∷ []))

abbrev pub Bitmask : Type 0
Bitmask = ℕ → Bool

-- BITMASK_256_SET_ZERO, BITMASK_256_SET, BITMASK_256_UNSET; BITMASK_256_CHECK is application.
abbrev pub bitmask_zero : Bitmask
bitmask_zero x = false

abbrev pub bitmask_set : Bitmask → ℕ → Bitmask
bitmask_set m v x = (x == v) || m x

abbrev pub bitmask_unset : Bitmask → ℕ → Bitmask
bitmask_unset m v x = not (x == v) && m x

-- `for (i = 0; i < n; i++) BITMASK_256_SET(m, array[i]);`
unfoldable pub bitmask_set_all : Bitmask → List ℕ → Bitmask
bitmask_set_all m [] = m
bitmask_set_all m (v ∷ vs) = bitmask_set_all (bitmask_set m v) vs

pub bitmask_set_all-contains :
    (m : Bitmask) (vs : List ℕ) (x : ℕ) → bitmask_set_all m vs x ≡ (contains x vs || m x)
unfolding bitmask_set_all contains
bitmask_set_all-contains m [] x = refl
bitmask_set_all-contains m (v ∷ vs) x =
    ground (arith, bitmask_set_all-contains (bitmask_set m v) vs x)
