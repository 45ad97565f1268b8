-- ===== src/Algo/Select.antt =====
-- bzrtp_selectCommonAlgo (src/cryptoUtils.cc): the algorithms of the master's list that the slave has
-- too, in the master's order, without repetition, seven at most. An array with its count is a list.
use bzrtp.Common.{
  ℕ, List, [], ◌∷◌, ◌++◌, if◌then◌else◌, ◌==◌, length, Bitmask, bitmask_zero, bitmask_unset,
  bitmask_set_all,
}
pub mod Meaning

-- The second loop, over what is left of the master's array: `common` is `commonArray` so far.
select_loop : Bitmask → List ℕ → List ℕ → List ℕ
select_loop algos common [] = common
select_loop algos common (x ∷ xs) =
    let found = select_loop (bitmask_unset algos x) (common ++ x ∷ []) xs in
    let skipped = select_loop algos common xs in
    if algos x
    then (if length (common ++ x ∷ []) == 7 then common ++ x ∷ [] else found)
    else skipped

unfoldable pub select_common_algo : List ℕ → List ℕ → List ℕ
unfolding select_loop bitmask_set_all
select_common_algo master slave = select_loop (bitmask_set_all bitmask_zero slave) [] master
