-- ===== src/Circuits/Merkle.antt =====
-- The Keccak Merkle tree of circuit/src/utils.rs, and the roots of the trees of empty claims of
-- circuit/src/constants.rs.
pub mod Spec
pub mod Tree
pub mod Dummy
use worldcoin_aggregation.Prelude.{
  ℕ, zero, suc, ◌^◌, Bool, true, false, ◌||◌, List, [], ◌∷◌, ◌++◌, map, Result, ok, err, panic,
  Reason, assert, index, length, replicate, ◌==◌, ◌>>=◌, ◌>>◌,
}
use worldcoin_aggregation.Halo2.{Chip, HiLo}
use worldcoin_aggregation.Circuits.Utils.{bytes_of}

-- `usize::is_power_of_two`: one of 2^0, ..., 2^(k - 1).
is_power_of_two_below : ℕ → ℕ → Bool
is_power_of_two_below zero n = false
is_power_of_two_below (suc k) n = n == 2 ^ k || is_power_of_two_below k n

unfoldable pub is_power_of_two : ℕ → Bool
unfolding is_power_of_two_below
is_power_of_two n = is_power_of_two_below 64 n

unfoldable pub compute_keccak_for_branch_nodes : Chip → HiLo → HiLo → Result HiLo
compute_keccak_for_branch_nodes c left_child right_child = do
  bytes ← bytes_of c 16 (left_child.hi ∷ left_child.lo ∷ right_child.hi ∷ right_child.lo ∷ [])
  ok (c.keccak_fixed_len bytes)

-- `leaves.chunks(2).map(|c| .. &c[0], &c[1])`
unfoldable pub next_level : Chip → List HiLo → Result (List HiLo)
next_level c [] = ok []
next_level c (x ∷ []) = err (panic Reason.index_out_of_bounds)
next_level c (x ∷ y ∷ rest) = do
  hash ← compute_keccak_for_branch_nodes c x y
  hashes ← next_level c rest
  ok (hash ∷ hashes)

-- The recursion of `compute_keccak_merkle_tree`, with fuel for the number of levels.
unfoldable pub merkle_tree_fuel : ℕ → Chip → List HiLo → Result (List HiLo)
merkle_tree_fuel zero c leaves = err (panic Reason.out_of_fuel)
merkle_tree_fuel (suc fuel) c leaves = do
  assert (is_power_of_two (length leaves))
  elim (length leaves == 1) [
    | true ↦ ok leaves
    | false ↦ do
      level ← next_level c leaves
      ret ← merkle_tree_fuel fuel c level
      ok (ret ++ leaves)
  ]

-- [root, ...[depth 1 nodes], ...[depth 2 nodes], ..., ...[leaves]]
unfoldable pub compute_keccak_merkle_tree : Chip → List HiLo → Result (List HiLo)
compute_keccak_merkle_tree c leaves = merkle_tree_fuel (suc (length leaves)) c leaves

-- The loop that fills `DUMMY_CLAIM_ROOTS`, for `n` more depths.
unfoldable pub dummy_levels : Chip → ℕ → List (List ℕ) → Result (List (List ℕ))
dummy_levels c zero current_level = ok []
dummy_levels c (suc n) current_level = do
  let level = map (λ hash. c.keccak256 (hash ++ hash)) current_level
  root ← index level 0
  roots ← dummy_levels c n level
  ok (root ∷ roots)

abbrev pub max_dummy_depth : ℕ
max_dummy_depth = 13

-- `DUMMY_CLAIM_ROOTS`
unfoldable pub dummy_claim_roots : Chip → Result (List (List ℕ))
dummy_claim_roots c = do
  let current_level = c.keccak256 (replicate 84 0) ∷ []
  root ← index current_level 0
  roots ← dummy_levels c max_dummy_depth current_level
  ok (root ∷ roots)
