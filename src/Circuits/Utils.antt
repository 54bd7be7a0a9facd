-- ===== src/Circuits/Utils.antt =====
-- circuit/src/utils.rs: the hash of the flattened Groth16 key, and the constants that it uses
-- (circuit/src/constants.rs).
pub mod Bytes
use mathlib.Core.List.{flatten}
use worldcoin_aggregation.Prelude.{
  ℕ, ◌*◌, ◌-◌, List, Result, ok, unsat, assert, or_fault, traverse, length, ◌>>=◌, ◌>>◌, ◌==◌,
}
use worldcoin_aggregation.Halo2.{Chip, HiLo}

abbrev pub max_groth16_pi : ℕ
max_groth16_pi = 4

abbrev pub num_bytes_vk : ℕ
num_bytes_vk = 769

-- Every field element of the list as `n` big-endian bytes, one after the other.
unfoldable pub bytes_of : Chip → ℕ → List ℕ → Result (List ℕ)
bytes_of c n xs = do
  bytes ← traverse (λ x. or_fault (c.uint_to_bytes_be x n) unsat) xs
  ok (flatten bytes)

unfoldable pub get_vk_hash : Chip → List ℕ → Result HiLo
get_vk_hash c vk_bytes = do
  bytes ← bytes_of c 32 vk_bytes
  assert (length bytes == (num_bytes_vk - 1) * 2)
  ok (c.keccak_fixed_len bytes)
