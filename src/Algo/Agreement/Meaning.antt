-- ===== src/Algo/Agreement/Meaning.antt =====
-- What two endpoints agree on (src/cryptoUtils.cc).
use bzrtp.Common.{
  ℕ, ◌≤◌, List, [], ◌∷◌, length, some, if◌then◌else◌, ==_false, ◌||◌, true, contains, ◌≡◌, ◌≢◌,
  refl, arith,
}
use bzrtp.Algo.Codes.{unset_algo}
use bzrtp.Algo.Select.{select_common_algo}
use bzrtp.Algo.Select.Meaning.{contains-select_common_algo}
use bzrtp.Algo.Agreement.Choice.{choose_first, choose_key_agreement, seek, choose_strong}

choose_first_comm : (xs ys : List ℕ) → choose_first xs ys ≡ choose_first ys xs
unfolding choose_first
choose_first_comm [] [] = refl
choose_first_comm [] (b ∷ others) = refl
choose_first_comm (a ∷ rest) [] = refl
choose_first_comm (a ∷ rest) (b ∷ others) = ground arith

-- Both endpoints choose the same key agreement, whatever the order of their preferences.
pub choose_key_agreement_comm :
    (self peer : List ℕ) → choose_key_agreement self peer ≡ choose_key_agreement peer self
unfolding choose_key_agreement
choose_key_agreement_comm self peer =
    choose_first_comm (select_common_algo self peer) (select_common_algo peer self)

-- The chosen one is the head of one of the two lists.
choose_first-contains :
    (xs ys : List ℕ) (a : ℕ) → choose_first xs ys ≡ some a → (contains a xs || contains a ys) ≡ true
unfolding choose_first contains
choose_first-contains [] ys a h = cc
choose_first-contains (x ∷ xs) [] a h = cc
choose_first-contains (x ∷ xs) (y ∷ ys) a h = ground arith

-- The key agreement that is chosen is one that both sides support.
pub choose_key_agreement-contains :
    (self peer : List ℕ) (a : ℕ)
    → length self ≤ 7
    → length peer ≤ 7
    → choose_key_agreement self peer ≡ some a
    → (contains a self ≡ true) × (contains a peer ≡ true)
unfolding choose_key_agreement
choose_key_agreement-contains self peer a hs hp h =
    let found =
      choose_first-contains (select_common_algo self peer) (select_common_algo peer self) a h in
    let one = contains-select_common_algo a self peer hs in
    let two = contains-select_common_algo a peer self hp in ground (arith, found, one, two)

seek_found : (wanted : ℕ) (xs : List ℕ) → wanted ≢ unset_algo → seek wanted xs wanted ≡ wanted
unfolding seek
seek_found wanted [] ne = refl
seek_found wanted (x ∷ xs) ne = rw (==_false wanted unset_algo ne)

-- The search loop finds a wanted algorithm exactly where it is in the list.
pub seek-contains :
    (wanted : ℕ) (xs : List ℕ)
    → wanted ≢ unset_algo
    → seek wanted xs unset_algo ≡ (if contains wanted xs then wanted else unset_algo)
unfolding seek contains
seek-contains wanted [] ne = refl
seek-contains wanted (x ∷ xs) ne =
    ground (arith, seek_found wanted xs ne, seek-contains wanted xs ne)

seek_kept : (wanted algo : ℕ) (xs : List ℕ) → algo ≢ unset_algo → seek wanted xs algo ≡ algo
unfolding seek
seek_kept wanted algo [] ne = refl
seek_kept wanted algo (x ∷ xs) ne = rw (==_false algo unset_algo ne)

-- A strong choice: the best of the wanted algorithms that is common, else the last resort.
pub choose_strong-contains :
    (best second last : ℕ) (xs : List ℕ)
    → best ≢ unset_algo
    → second ≢ unset_algo
    → choose_strong best second last xs
      ≡ (if contains best xs then best else if contains second xs then second else last)
unfolding choose_strong
choose_strong-contains best second last xs nb ns =
    ground
      (arith, seek-contains best xs nb, seek-contains second xs ns, seek_kept second best xs nb)
