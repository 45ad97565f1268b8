-- ===== src/Algo/Mandatory.antt =====
-- bzrtp_addMandatoryCryptoTypesIfNeeded (src/cryptoUtils.cc): the list is cut to seven entries, each
-- once, with room kept for the mandatory algorithms of the family, which are added where missing.
use bzrtp.Common.{
  ℕ, ◌+◌, ◌-◌, List, [], ◌∷◌, ◌++◌, if◌then◌else◌, ltb, ◌&&◌, ◌||◌, not, length, Bitmask,
  bitmask_zero, bitmask_set, bitmask_unset, bitmask_set_all, Bool,
}
use bzrtp.Algo.Codes.{Family, get_mandatory_crypto_types}
pub mod Kept
pub mod Meaning

-- The variables of the function: `kept` is algoTypes[0 .. j), and the masks answer as functions.
pub record Loop : Type 0 where
  pub kept : List ℕ
  pub algos : Bitmask
  pub missing : Bitmask
  pub missing_count : ℕ

-- Keep an entry: `algoTypes[j++] = algoTypes[i]`, and strike it off the missing ones.
pub keep : ℕ → Loop → Loop
keep x s =
    if s.missing x
    then record s {
      kept = s.kept ++ x ∷ [];
      algos = bitmask_set s.algos x;
      missing = bitmask_unset s.missing x;
      missing_count = s.missing_count - 1;
    }
    else record s { kept = s.kept ++ x ∷ []; algos = bitmask_set s.algos x }

-- The first loop, over the entries that are left; it ends early once seven are kept.
pub filter_loop : Loop → List ℕ → Loop
unfolding keep
filter_loop s [] = s
filter_loop s (x ∷ xs) =
    let next =
      filter_loop
        (if (ltb (length s.kept + s.missing_count) 7 || s.missing x) && not (s.algos x)
          then keep x s
          else s)
        xs in
    if ltb (length s.kept) 7 then next else s

-- The second loop, over the mandatory algorithms that are left (two at most, so `i < 7` holds).
add_missing : Loop → List ℕ → List ℕ
add_missing s [] = s.kept
add_missing s (v ∷ vs) =
    let next =
      add_missing
        (if s.missing v
          then record s { kept = s.kept ++ v ∷ []; missing_count = s.missing_count - 1 }
          else s)
        vs in
    if ltb 0 s.missing_count then next else s.kept

-- The masks and the count before the first loop.
pub start : List ℕ → Loop
unfolding bitmask_set_all
start mandatory = record {
  kept = [];
  algos = bitmask_zero;
  missing = bitmask_set_all bitmask_zero mandatory;
  missing_count = length mandatory;
}

unfoldable pub add_mandatory_crypto_types_if_needed : Family → List ℕ → List ℕ
unfolding filter_loop add_missing start
add_mandatory_crypto_types_if_needed family algo_types =
    let mandatory = get_mandatory_crypto_types family in
    add_missing (filter_loop (start mandatory) algo_types) mandatory
