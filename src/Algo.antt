-- ===== src/Algo.antt =====
-- The algorithms that two endpoints agree on (src/cryptoUtils.cc, include/bzrtp/bzrtp.h,
-- include/cryptoUtils.h): their one byte codes, their families and their mandatory members.
-- The children hold their names (Algo/Names), the selection of common ones (Algo/Select), the lengths
-- that depend on them (Algo/Lengths) and the agreement (Algo/Agreement).
use bzrtp.Common.{ℕ, List, [], ◌∷◌}
mod Codes
pub mod Names
pub mod Widths
pub mod Select
pub mod Mandatory
pub mod Lengths
pub mod Agreement
pub use Codes.*
